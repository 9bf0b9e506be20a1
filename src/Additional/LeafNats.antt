-- ===== src/Additional/LeafNats.antt =====
-- pkg/additional/leaf-nats.go: the NATS server of each edge node.
use anck.Prelude.{String, ◌<>◌, true, false, none, some, List, [], ◌∷◌}
use anck.Prelude.Exec.{Exec, lift, ◌>>=◌, ◌>>◌}
use anck.Common.{nats_denied_export_topics}
use anck.Nats.Config.{
  Config, Setting, new_config, with_remote, with_pid_file, with_cache_resolver, with_jetstream,
}
use anck.Nats.Config.Json.{Json, to_json}
use anck.Nats.Server.{Service, ServerInformation, get_nats_server_infos}
use anck.Additional.Objects.{
  Object, Container, ContainerPort, VolumeMount, Volume, VolumeSource, PodSpec, Body,
}
use anck.Additional.Client.{Client}
use anck.Additional.Apply.{apply_or_update}
use anck.Additional.NodeDns.{edge_nodes, edge_tolerations}
use anck.Additional.NatsResolver.{creds_mount_directory, sys_account_creds_file}

abbrev nats_image : String
nats_image = "ghcr.io/edgefarm/edgefarm-nats:1.0.0-beta.12"

abbrev nats_namespace : String
nats_namespace = "nats"

abbrev default_domain : String
default_domain = "DEFAULT_DOMAIN"

abbrev default_jetstream_storeage_dir : String
default_jetstream_storeage_dir = "/store"

unfoldable pub leaf_namespace : Object
leaf_namespace = record {
  type_meta = record { kind = ""; api_version = "" };
  meta = record { name = nats_namespace; namespace = ""; labels = [] };
  body = Body.namespace;
}

-- the options of the configuration that the servers start with
abbrev pub leaf_options : ServerInformation → List Setting
leaf_options infos =
    with_remote (record {
      url = infos.leaf_address;
      credentials = creds_mount_directory <> "/" <> sys_account_creds_file;
      account = infos.sys_public_key;
      deny_imports = nats_denied_export_topics ∷ [];
      deny_exports = nats_denied_export_topics ∷ [];
    })
    ∷ with_pid_file "/var/run/nats/nats.pid"
    ∷ with_cache_resolver infos.operator_jwt infos.sys_public_key infos.sys_jwt "/jwt"
    ∷ with_jetstream default_jetstream_storeage_dir default_domain
    ∷ []

unfoldable pub leaf_config : ServerInformation → Config
leaf_config infos = new_config (leaf_options infos)

unfoldable pub leaf_config_map : String → Object
leaf_config_map default_nats_config_str = record {
  type_meta = record { kind = "ConfigMap"; api_version = "v1" };
  meta = record { name = "leaf-nats-init-config"; namespace = nats_namespace; labels = [] };
  body =
      Body.config_map
        (record { immutable = none; entries = ("nats.json", default_nats_config_str) ∷ [] });
}

unfoldable pub sys_account_creds_secret : String → Object
sys_account_creds_secret sys_creds = record {
  type_meta = record { kind = "Secret"; api_version = "v1" };
  meta = record {
    name = "initial-nats-sys-account-creds";
    namespace = nats_namespace;
    labels = [];
  };
  body =
      Body.secret (record { type = "Opaque"; entries = (sys_account_creds_file, sys_creds) ∷ [] });
}

-- a mount that can be written to
abbrev writable : String → String → VolumeMount
writable name path = record { name = name; mount_path = path; read_only = false }

abbrev init_nats_config : Container
init_nats_config = record {
  name = "init-nats-config";
  image = "alpine:3.15.4";
  image_pull_policy = "IfNotPresent";
  command =
      "/bin/sh" ∷ "-ce"
      ∷ "cp /creds-initial/edgefarm-sys.creds /creds/nats-sidecar.creds && cp /creds-initial/edgefarm-sys.creds /creds/edgefarm-sys.creds && MYDOMAIN=$(cat /host/etc/hostname) && sed -i \"s/DEFAULT_DOMAIN/${MYDOMAIN}/g\" /leaf-nats-init-config/nats.json && cp /leaf-nats-init-config/nats.json /config/nats.json"
      ∷ [];
  args = [];
  ports = [];
  resources = none;
  volume_mounts =
      writable "leaf-nats-init-config" "/leaf-nats-init-config"
      ∷ record {
        name = "initial-nats-sys-account-creds";
        mount_path = "/creds-initial";
        read_only = true;
      }
      ∷ writable "config" "/config"
      ∷ writable "creds" "/creds"
      ∷ record { name = "hostname"; mount_path = "/host/etc/hostname"; read_only = true }
      ∷ [];
  privileged = none;
}

abbrev leaf_nats_ports : List ContainerPort
leaf_nats_ports =
    record { name = "clients"; container_port = 4222; host_port = 4222 }
    ∷ record { name = "monitor"; container_port = 8222; host_port = 8222 }
    ∷ record { name = "jetstream"; container_port = 7222; host_port = 7222 }
    ∷ []

abbrev leaf_nats_container : Container
leaf_nats_container = record {
  name = "leaf-nats";
  image = nats_image;
  image_pull_policy = "IfNotPresent";
  command = [];
  args = [];
  ports = leaf_nats_ports;
  resources = some (record {
    limits = record { cpu = "500m"; memory = "512Mi" };
    requests = record { cpu = "200m"; memory = "128Mi" };
  });
  volume_mounts =
      writable "config" "/config"
      ∷ writable "creds" "/creds"
      ∷ writable "state" "/state"
      ∷ writable "store" "/store"
      ∷ [];
  privileged = none;
}

-- a directory of the node that is made if it is not there
abbrev node_directory : String → String → Volume
node_directory name path = record {
  name = name;
  source = VolumeSource.host_path path (some "DirectoryOrCreate");
}

abbrev leaf_nats_volumes : List Volume
leaf_nats_volumes =
    record {
      name = "leaf-nats-init-config";
      source = VolumeSource.config_map "leaf-nats-init-config";
    }
    ∷ record {
      name = "initial-nats-sys-account-creds";
      source = VolumeSource.secret "initial-nats-sys-account-creds";
    }
    ∷ node_directory "config" "/data/nats/config"
    ∷ node_directory "creds" "/data/nats/creds"
    ∷ node_directory "state" "/data/nats/registry-state"
    ∷ node_directory "store" "/data/nats/jetstream_store"
    ∷ record { name = "hostname"; source = VolumeSource.host_path "/etc/hostname" (some "File") }
    ∷ []

abbrev leaf_nats_pod : PodSpec
leaf_nats_pod = record {
  host_network = false;
  share_process_namespace = some true;
  service_account_name = "";
  init_containers = init_nats_config ∷ [];
  containers = leaf_nats_container ∷ [];
  restart_policy = "Always";
  volumes = leaf_nats_volumes;
  affinity = some edge_nodes;
  tolerations = edge_tolerations;
}

unfoldable pub leaf_daemon_set : Object
leaf_daemon_set = record {
  type_meta = record { kind = "DaemonSet"; api_version = "apps/v1" };
  meta = record {
    name = "leaf-nats";
    namespace = nats_namespace;
    labels = ("k8s-app", "leaf-nats") ∷ [];
  };
  body = Body.daemon_set (record {
    min_ready_seconds = 5;
    selector = ("k8s-app", "leaf-nats") ∷ [];
    template = record {
      labels = ("k8s-app", "leaf-nats") ∷ ("node-dns.host", "nats") ∷ [];
      spec = leaf_nats_pod;
    };
  });
}

module _ {W : Type 0} (client : Client W) (service : Service W) (json : Json) where
  -- `ApplyLeafNats`
  unfoldable pub apply_leaf_nats : Exec W (Unit {0})
  apply_leaf_nats = do
    apply_or_update client leaf_namespace
    infos ← get_nats_server_infos service
    text ← lift (to_json json (leaf_config infos))
    apply_or_update client (leaf_config_map text)
    apply_or_update client (sys_account_creds_secret infos.sys_creds)
    apply_or_update client leaf_daemon_set
