-- ===== src/Additional/NatsResolver.antt =====
-- pkg/additional/nats-resolver.go: the server that has the accounts of the networks. The program does not
-- call it at present.
pub mod Laws
use anck.Prelude.{ℕ, String, ◌<>◌, true, false, none, some, List, [], ◌∷◌}
use anck.Prelude.Dict.{Dict}
use anck.Prelude.Exec.{Exec, lift, ◌>>=◌, ◌>>◌}
use anck.Common.{anck_namespace}
use anck.Nats.Config.{Config, new_config, with_ngs_remote, with_full_resolver}
use anck.Nats.Config.Json.{Json, to_json}
use anck.Nats.Server.{Service, ServerInformation, get_nats_server_infos}
use anck.Additional.Objects.{Object, Container, PolicyRule, Volume, VolumeSource, Body}
use anck.Additional.Client.{Client}
use anck.Additional.Apply.{apply_ignore_existing}

abbrev nats_resolver_image : String
nats_resolver_image = "nats:2.7.4-alpine3.15"

abbrev pub creds_mount_directory : String
creds_mount_directory = "/creds"

abbrev pub sys_account_creds_file : String
sys_account_creds_file = "edgefarm-sys.creds"

abbrev nats_resolver_replicas : ℕ
nats_resolver_replicas = 1

abbrev resolver_labels : Dict String
resolver_labels = ("k8s-app", "nats-resolver") ∷ []

unfoldable pub resolver_namespace : Object
resolver_namespace = record {
  type_meta = record { kind = ""; api_version = "" };
  meta = record { name = anck_namespace; namespace = ""; labels = [] };
  body = Body.namespace;
}

abbrev resolver_rules : List PolicyRule
resolver_rules =
    record {
      api_groups = "" ∷ [];
      resources = "secrets" ∷ [];
      verbs = "get" ∷ "list" ∷ "watch" ∷ "create" ∷ "update" ∷ [];
    }
    ∷ record {
      api_groups = "" ∷ [];
      resources = "namespaces" ∷ [];
      verbs = "get" ∷ "list" ∷ "create" ∷ [];
    }
    ∷ []

unfoldable pub resolver_cluster_role : Object
resolver_cluster_role = record {
  type_meta = record { kind = "ClusterRole"; api_version = "rbac.authorization.k8s.io/v1" };
  meta = record { name = "nats-resolver"; namespace = ""; labels = resolver_labels };
  body = Body.cluster_role resolver_rules;
}

unfoldable pub resolver_cluster_role_binding : Object
resolver_cluster_role_binding = record {
  type_meta = record { kind = "ClusterRoleBinding"; api_version = "rbac.authorization.k8s.io/v1" };
  meta = record { name = "nats-resolver"; namespace = ""; labels = resolver_labels };
  body = Body.cluster_role_binding (record {
    role_ref = record {
      api_group = "rbac.authorization.k8s.io";
      kind = "ClusterRole";
      name = "nats-resolver";
    };
    subjects =
        record { kind = "ServiceAccount"; name = "nats-resolver"; namespace = anck_namespace } ∷ [];
  });
}

unfoldable pub resolver_service_account : Object
resolver_service_account = record {
  type_meta = record { kind = "ServiceAccount"; api_version = "v1" };
  meta = record {
    name = "nats-resolver";
    namespace = anck_namespace;
    labels = ("app", "nats-resolver") ∷ [];
  };
  body = Body.service_account;
}

-- the configuration of the server
unfoldable pub nats_resolver_config : ServerInformation → Config
nats_resolver_config infos = new_config (
    with_ngs_remote (creds_mount_directory <> "/" <> sys_account_creds_file) infos.sys_public_key []
      []
    ∷ with_full_resolver infos.operator_jwt infos.sys_public_key infos.sys_jwt "/jwt"
    ∷ [])

unfoldable pub resolver_config_map : String → Object
resolver_config_map nats_resolver_config_json = record {
  type_meta = record { kind = "ConfigMap"; api_version = "v1" };
  meta = record { name = "nats-resolver-config"; namespace = anck_namespace; labels = [] };
  body =
      Body.config_map
        (record { immutable = some true; entries = ("nats.json", nats_resolver_config_json) ∷ [] });
}

unfoldable pub resolver_creds_secret : String → Object
resolver_creds_secret sys_account_creds = record {
  type_meta = record { kind = "Secret"; api_version = "v1" };
  meta = record { name = "nats-resolver-creds"; namespace = anck_namespace; labels = [] };
  body =
      Body.secret
        (record { type = "Opaque"; entries = (sys_account_creds_file, sys_account_creds) ∷ [] });
}

abbrev resolver_container : Container
resolver_container = record {
  name = "nats-resolver";
  image = nats_resolver_image;
  image_pull_policy = "";
  command = [];
  args = "-js" ∷ "-c" ∷ "/config/nats.json" ∷ [];
  ports = [];
  resources = some (record {
    limits = record { cpu = "500m"; memory = "128Mi" };
    requests = record { cpu = "250m"; memory = "64Mi" };
  });
  volume_mounts =
      record { name = "nats-resolver-config"; mount_path = "/config"; read_only = true }
      ∷ record {
        name = "nats-resolver-creds";
        mount_path = creds_mount_directory;
        read_only = true;
      }
      ∷ [];
  privileged = none;
}

abbrev resolver_volumes : List Volume
resolver_volumes =
    record {
      name = "nats-resolver-config";
      source = VolumeSource.config_map "nats-resolver-config";
    }
    ∷ record { name = "nats-resolver-creds"; source = VolumeSource.secret "nats-resolver-creds" }
    ∷ []

unfoldable pub resolver_deployment : Object
resolver_deployment = record {
  type_meta = record { kind = "Deployment"; api_version = "apps/v1" };
  meta = record { name = "nats-resolver"; namespace = anck_namespace; labels = resolver_labels };
  body = Body.deployment (record {
    replicas = some nats_resolver_replicas;
    selector = resolver_labels;
    template = record {
      labels = resolver_labels;
      spec = record {
        host_network = false;
        share_process_namespace = none;
        service_account_name = "nats-resolver";
        init_containers = [];
        containers = resolver_container ∷ [];
        restart_policy = "";
        volumes = resolver_volumes;
        affinity = none;
        tolerations = [];
      };
    };
  });
}

module _ {W : Type 0} (client : Client W) (service : Service W) (json : Json) where
  -- `ApplyNatsResolver`
  unfoldable pub apply_nats_resolver : Exec W (Unit {0})
  apply_nats_resolver = do
    infos ← get_nats_server_infos service
    apply_ignore_existing client resolver_namespace
    apply_ignore_existing client resolver_cluster_role
    apply_ignore_existing client resolver_cluster_role_binding
    apply_ignore_existing client resolver_service_account
    text ← lift (to_json json (nats_resolver_config infos))
    apply_ignore_existing client (resolver_config_map text)
    apply_ignore_existing client (resolver_creds_secret infos.sys_creds)
    apply_ignore_existing client resolver_deployment
