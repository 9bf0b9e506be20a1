-- ===== src/Additional/NodeDns.antt =====
-- pkg/additional/nodedns.go: the DNS server of the edge nodes.
use anck.Prelude.{String, true, false, none, some, List, [], ◌∷◌}
use anck.Prelude.Exec.{Exec, ◌>>◌}
use anck.Additional.Objects.{
  Object, Container, Volume, VolumeSource, Body, NodeSelectorRequirement, Toleration,
}
use anck.Additional.Client.{Client}
use anck.Additional.Apply.{apply_or_update}

abbrev node_dns_image : String
node_dns_image = "ghcr.io/edgefarm/node-dns:1.0.0-beta.4"

abbrev node_dns_namespace : String
node_dns_namespace = "node-dns"

unfoldable pub node_dns_namespace_object : Object
node_dns_namespace_object = record {
  type_meta = record { kind = ""; api_version = "" };
  meta = record { name = node_dns_namespace; namespace = ""; labels = [] };
  body = Body.namespace;
}

unfoldable pub node_dns_config_map : Object
node_dns_config_map = record {
  type_meta = record { kind = "ConfigMap"; api_version = "v1" };
  meta = record { name = "node-dns-cfg"; namespace = node_dns_namespace; labels = [] };
  body = Body.config_map (record {
    immutable = none;
    entries =
        (
          "node-dns.conf",
          "listeninterface: docker0\nlistenport: 53\nupdateresolvconf: true\nresolvConf: /etc/resolv.conf\nremoveSearchDomains: true\nfeed:\n  k8sapi:\n    enabled: true\n    insecuretls: true\n    token: \"\"\n    uri: http://127.0.0.1:10550\n",
        )
        ∷ [];
  });
}

abbrev node_dns_container : Container
node_dns_container = record {
  name = "node-dns";
  image = node_dns_image;
  image_pull_policy = "";
  command = "/node-dns" ∷ [];
  args = "--config" ∷ "/config/node-dns.conf" ∷ [];
  ports = [];
  resources = some (record {
    limits = record { cpu = "100m"; memory = "128Mi" };
    requests = record { cpu = "50m"; memory = "64Mi" };
  });
  volume_mounts =
      record { name = "conf"; mount_path = "/config"; read_only = true }
      ∷ record { name = "resolv"; mount_path = "/etc/resolv.conf"; read_only = false }
      ∷ [];
  privileged = some true;
}

abbrev node_dns_volumes : List Volume
node_dns_volumes =
    record { name = "conf"; source = VolumeSource.config_map "node-dns-cfg" }
    ∷ record { name = "resolv"; source = VolumeSource.host_path "/etc/resolv.conf" none }
    ∷ []

-- the affinity and the tolerations of the pods that run on the edge nodes; leaf-nats.go has the same
abbrev pub edge_nodes : List (List NodeSelectorRequirement)
edge_nodes =
    (record { key = "node-role.kubernetes.io/edge"; operator = "Exists" }
      ∷ record { key = "node-role.kubernetes.io/agent"; operator = "Exists" }
      ∷ [])
    ∷ []

abbrev pub edge_tolerations : List Toleration
edge_tolerations =
    record { key = "edgefarm.applications"; operator = "Exists"; effect = "NoExecute" } ∷ []

unfoldable pub node_dns_daemon_set : Object
node_dns_daemon_set = record {
  type_meta = record { kind = "DaemonSet"; api_version = "apps/v1" };
  meta = record {
    name = "node-dns";
    namespace = node_dns_namespace;
    labels = ("k8s-app", "node-dns") ∷ [];
  };
  body = Body.daemon_set (record {
    min_ready_seconds = 0;
    selector = ("k8s-app", "node-dns") ∷ [];
    template = record {
      labels = ("k8s-app", "node-dns") ∷ [];
      spec = record {
        host_network = true;
        share_process_namespace = none;
        service_account_name = "";
        init_containers = [];
        containers = node_dns_container ∷ [];
        restart_policy = "Always";
        volumes = node_dns_volumes;
        affinity = some edge_nodes;
        tolerations = edge_tolerations;
      };
    };
  });
}

module _ {W : Type 0} (client : Client W) where
  -- `ApplyNodeDNS`
  unfoldable pub apply_node_dns : Exec W (Unit {0})
  apply_node_dns = do
    apply_or_update client node_dns_namespace_object
    apply_or_update client node_dns_config_map
    apply_or_update client node_dns_daemon_set
