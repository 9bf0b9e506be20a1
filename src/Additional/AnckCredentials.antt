-- ===== src/Additional/AnckCredentials.antt =====
-- pkg/additional/anck-credentials.go: the service that hands out credentials.
use anck.Prelude.{ℕ, String, false, none, some, List, [], ◌∷◌}
use anck.Prelude.Dict.{Dict}
use anck.Prelude.Exec.{Exec, ◌>>◌}
use anck.Common.{anck_namespace}
use anck.Additional.Objects.{Object, Container, PolicyRule, Body}
use anck.Additional.Client.{Client}
use anck.Additional.Apply.{apply_ignore_existing}

abbrev anckcredentials_image : String
anckcredentials_image = "ghcr.io/edgefarm/anck-credentials:0.8.0-beta.1"

abbrev anckcredentials_grpc_port : ℕ
anckcredentials_grpc_port = 6000

abbrev credentials_labels : Dict String
credentials_labels = ("k8s-app", "anck-credentials") ∷ []

unfoldable pub credentials_namespace : Object
credentials_namespace = record {
  type_meta = record { kind = ""; api_version = "" };
  meta = record { name = anck_namespace; namespace = ""; labels = [] };
  body = Body.namespace;
}

abbrev secret_rules : List PolicyRule
secret_rules =
    record {
      api_groups = "" ∷ [];
      resources = "secrets" ∷ [];
      verbs = "get" ∷ "list" ∷ "watch" ∷ "create" ∷ "update" ∷ [];
    }
    ∷ record {
      api_groups = "" ∷ [];
      resources = "namespaces" ∷ [];
      verbs = "get" ∷ "list" ∷ "create" ∷ [];
    }
    ∷ []

unfoldable pub credentials_cluster_role : Object
credentials_cluster_role = record {
  type_meta = record { kind = "ClusterRole"; api_version = "rbac.authorization.k8s.io/v1" };
  meta = record { name = "anck-credentials"; namespace = ""; labels = credentials_labels };
  body = Body.cluster_role secret_rules;
}

unfoldable pub credentials_cluster_role_binding : Object
credentials_cluster_role_binding = record {
  type_meta = record { kind = "ClusterRoleBinding"; api_version = "rbac.authorization.k8s.io/v1" };
  meta = record { name = "anck-credentials"; namespace = ""; labels = credentials_labels };
  body = Body.cluster_role_binding (record {
    role_ref = record {
      api_group = "rbac.authorization.k8s.io";
      kind = "ClusterRole";
      name = "anck-credentials";
    };
    subjects =
        record { kind = "ServiceAccount"; name = "anck-credentials"; namespace = anck_namespace }
        ∷ [];
  });
}

unfoldable pub credentials_service : Object
credentials_service = record {
  type_meta = record { kind = "Service"; api_version = "v1" };
  meta = record {
    name = "anck-credentials";
    namespace = anck_namespace;
    labels = credentials_labels;
  };
  body = Body.service (record {
    ports =
        record {
          name = "grpc";
          protocol = "TCP";
          port = anckcredentials_grpc_port;
          target_port = anckcredentials_grpc_port;
        }
        ∷ [];
    selector = credentials_labels;
  });
}

unfoldable pub credentials_service_account : Object
credentials_service_account = record {
  type_meta = record { kind = "ServiceAccount"; api_version = "v1" };
  meta = record {
    name = "anck-credentials";
    namespace = anck_namespace;
    labels = credentials_labels;
  };
  body = Body.service_account;
}

abbrev credentials_container : Container
credentials_container = record {
  name = "anck-credentials";
  image = anckcredentials_image;
  image_pull_policy = "";
  command = [];
  args = [];
  ports = [];
  resources = some (record {
    limits = record { cpu = "500m"; memory = "128Mi" };
    requests = record { cpu = "250m"; memory = "64Mi" };
  });
  volume_mounts = [];
  privileged = none;
}

unfoldable pub credentials_deployment : Object
credentials_deployment = record {
  type_meta = record { kind = "Deployment"; api_version = "apps/v1" };
  meta = record {
    name = "anck-credentials";
    namespace = anck_namespace;
    labels = credentials_labels;
  };
  body = Body.deployment (record {
    replicas = some 1;
    selector = credentials_labels;
    template = record {
      labels = credentials_labels;
      spec = record {
        host_network = false;
        share_process_namespace = none;
        service_account_name = "anck-credentials";
        init_containers = [];
        containers = credentials_container ∷ [];
        restart_policy = "";
        volumes = [];
        affinity = none;
        tolerations = [];
      };
    };
  });
}

module _ {W : Type 0} (client : Client W) where
  -- `ApplyAnckCredentials`
  unfoldable pub apply_anck_credentials : Exec W (Unit {0})
  apply_anck_credentials = do
    apply_ignore_existing client credentials_namespace
    apply_ignore_existing client credentials_cluster_role
    apply_ignore_existing client credentials_cluster_role_binding
    apply_ignore_existing client credentials_service
    apply_ignore_existing client credentials_service_account
    apply_ignore_existing client credentials_deployment
