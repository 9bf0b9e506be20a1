-- ===== src/Additional/Objects.antt =====
-- The Kubernetes objects that pkg/additional fills in: the fields of k8s.io/api that it sets, by their
-- names there. A field that is a pointer is an `Option`; a text, a number, a flag or a list that is not
-- set is empty, zero or false, and so are the kind and the version of an object without `TypeMeta`. A
-- quantity is the text that `resource.MustParse` reads.
use anck.Prelude.{ℕ, String, Bool, Option, List}
use anck.Prelude.Dict.{Dict}

-- `metav1.TypeMeta`
pub record TypeMeta : Type 0 where
  pub kind : String
  pub api_version : String

-- `metav1.ObjectMeta`
pub record ObjectMeta : Type 0 where
  pub name : String
  pub namespace : String
  pub labels : Dict String

-- `corev1.VolumeSource`: the name of a ConfigMap or of a Secret, or the path and the type of a `HostPath`
pub data VolumeSource : Type 0 where
  config_map secret : String → VolumeSource
  host_path : String → Option String → VolumeSource

pub record Volume : Type 0 where
  pub name : String
  pub source : VolumeSource

pub record VolumeMount : Type 0 where
  pub name : String
  pub mount_path : String
  pub read_only : Bool

pub record ResourceList : Type 0 where
  pub cpu : String
  pub memory : String

pub record ResourceRequirements : Type 0 where
  pub limits : ResourceList
  pub requests : ResourceList

pub record ContainerPort : Type 0 where
  pub name : String
  pub container_port : ℕ
  pub host_port : ℕ

pub record Container : Type 0 where
  pub name : String
  pub image : String
  pub image_pull_policy : String
  pub command : List String
  pub args : List String
  pub ports : List ContainerPort
  pub resources : Option ResourceRequirements
  pub volume_mounts : List VolumeMount
  -- `SecurityContext.Privileged`
  pub privileged : Option Bool

pub record NodeSelectorRequirement : Type 0 where
  pub key : String
  pub operator : String

pub record Toleration : Type 0 where
  pub key : String
  pub operator : String
  pub effect : String

-- `affinity` holds the terms of `Affinity.NodeAffinity.RequiredDuringSchedulingIgnoredDuringExecution`
pub record PodSpec : Type 0 where
  pub host_network : Bool
  pub share_process_namespace : Option Bool
  pub service_account_name : String
  pub init_containers : List Container
  pub containers : List Container
  pub restart_policy : String
  pub volumes : List Volume
  pub affinity : Option (List (List NodeSelectorRequirement))
  pub tolerations : List Toleration

pub record PodTemplateSpec : Type 0 where
  pub labels : Dict String
  pub spec : PodSpec

pub record ConfigMap : Type 0 where
  pub immutable : Option Bool
  pub entries : Dict String

pub record Secret : Type 0 where
  pub type : String
  pub entries : Dict String

pub record PolicyRule : Type 0 where
  pub api_groups : List String
  pub resources : List String
  pub verbs : List String

pub record RoleRef : Type 0 where
  pub api_group : String
  pub kind : String
  pub name : String

pub record Subject : Type 0 where
  pub kind : String
  pub name : String
  pub namespace : String

pub record ClusterRoleBinding : Type 0 where
  pub role_ref : RoleRef
  pub subjects : List Subject

pub record ServicePort : Type 0 where
  pub name : String
  pub protocol : String
  pub port : ℕ
  pub target_port : ℕ

pub record ServiceSpec : Type 0 where
  pub ports : List ServicePort
  pub selector : Dict String

-- `selector` is `Selector.MatchLabels`
pub record DaemonSetSpec : Type 0 where
  pub min_ready_seconds : ℕ
  pub selector : Dict String
  pub template : PodTemplateSpec

pub record DeploymentSpec : Type 0 where
  pub replicas : Option ℕ
  pub selector : Dict String
  pub template : PodTemplateSpec

-- The Go type of an object, and what it has beside its names and labels.
pub data Body : Type 0 where
  namespace service_account : Body
  config_map : ConfigMap → Body
  secret : Secret → Body
  cluster_role : List PolicyRule → Body
  cluster_role_binding : ClusterRoleBinding → Body
  service : ServiceSpec → Body
  daemon_set : DaemonSetSpec → Body
  deployment : DeploymentSpec → Body

-- `client.Object`
pub record Object : Type 0 where
  pub type_meta : TypeMeta
  pub meta : ObjectMeta
  pub body : Body
