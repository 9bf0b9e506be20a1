-- ===== src/Resources/Kube.antt =====
-- What the program calls of client-go, controller-runtime and the anck-credentials service, as a
-- parameter. A call acts on a world `W`; an object that is returned with an error is nil.
use anck.Prelude.{String, List}
use anck.Prelude.Dict.{Dict}
use anck.Prelude.Exec.{Exec}
use anck.Api.{Network, Participants, ObjectMeta}

pub record Pod : Type 0 where
  pub meta : ObjectMeta
  pub labels : Dict String
  pub node_name : String
  pub phase : String

-- a secret's data; its values are texts here and bytes in Kubernetes
pub record Secret : Type 0 where
  pub name : String
  pub namespace : String
  pub entries : Dict String

-- The API of the cluster.
pub record Kube (W : Type 0) : Type 1 where
  -- `rest.InClusterConfig()` and `kubernetes.NewForConfig(c)`, `networkclientset.NewForConfig(c)`
  pub in_cluster_config : Exec W (Unit {0})
  pub new_for_config : Exec W (Unit {0})
  pub network_new_for_config : Exec W (Unit {0})
  -- `retry.RetryOnConflict(retry.DefaultRetry, f)`
  pub retry_on_conflict : {A : Type 0} → Exec W A → Exec W A
  -- the arguments are the namespace and the name, or the object
  pub get_secret : String → String → Exec W Secret
  pub list_secrets : String → Exec W (List Secret)
  pub update_secret : Secret → Exec W Secret
  pub create_secret : Secret → Exec W Secret
  pub delete_secret : String → String → Exec W (Unit {0})
  pub create_namespace : String → Exec W (Unit {0})
  pub get_network : String → String → Exec W Network
  pub update_network : String → Network → Exec W Network
  pub get_participants : String → String → Exec W Participants
  pub get_pod : String → String → Exec W Pod
  pub list_pods : String → Exec W (List Pod)
  pub update_pod : String → Pod → Exec W Pod
  pub get_node_labels : String → Exec W (Dict String)
