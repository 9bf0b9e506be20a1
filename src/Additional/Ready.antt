-- ===== src/Additional/Ready.antt =====
-- When the objects of a cluster fit together: what each of them refers to is there, the pods' mounts name
-- volumes of the pod, and a selector selects the pods of its own template.
use anck.Prelude.{
  String, Bool, true, false, not, ◌&&◌, Option, none, some, List, [], ◌∷◌, ◌++◌, map, ◌==◌,
  string_eq, if◌then◌else◌, contains,
}
use anck.Prelude.Dict.{Dict, lookup, or_zero}
use anck.Additional.Objects.{
  Object, Body, PodSpec, PodTemplateSpec, Container, Volume, VolumeMount, VolumeSource, Subject,
  namespace, service_account, config_map, secret, cluster_role, cluster_role_binding, service,
  daemon_set, deployment,
}
use anck.Additional.Client.{Ref}
use anck.Additional.Apply.Laws.{Cluster}

abbrev all : {A : Type 0} → (A → Bool) → List A → Bool
all p [] = true
all p (x ∷ xs) = p x && all p xs

abbrev named : String → String → String → Ref
named resource ns name = record { resource = resource; namespace = ns; name = name }

-- the objects that a volume, a pod, a binding and any object need
abbrev volume_needs : String → Volume → List Ref
volume_needs ns v = elim v.source [
  | VolumeSource.config_map name ↦ named "configmaps" ns name ∷ []
  | VolumeSource.secret name ↦ named "secrets" ns name ∷ []
  | VolumeSource.host_path path type ↦ []
]

abbrev all_needs : String → List Volume → List Ref
all_needs ns [] = []
all_needs ns (v ∷ vs) = volume_needs ns v ++ all_needs ns vs

abbrev pod_needs : String → PodSpec → List Ref
pod_needs ns pod =
    (if pod.service_account_name == ""
      then []
      else named "serviceaccounts" ns pod.service_account_name ∷ [])
    ++ all_needs ns pod.volumes

abbrev subject_need : Subject → Ref
subject_need s = named "serviceaccounts" s.namespace s.name

abbrev body_needs : String → Body → List Ref
body_needs ns namespace = []
body_needs ns service_account = []
body_needs ns (config_map _) = []
body_needs ns (secret _) = []
body_needs ns (cluster_role _) = []
body_needs ns (cluster_role_binding b) =
    named "clusterroles" "" b.role_ref.name ∷ map subject_need b.subjects
body_needs ns (service _) = []
body_needs ns (daemon_set d) = pod_needs ns d.template.spec
body_needs ns (deployment d) = pod_needs ns d.template.spec

abbrev pub needs : Object → List Ref
needs o =
    (if o.meta.namespace == "" then [] else named "namespaces" "" o.meta.namespace ∷ [])
    ++ body_needs o.meta.namespace o.body

-- the mounts of a pod's containers name its volumes, and its containers mount nothing twice in one place
abbrev names_of : List Volume → List String
names_of [] = []
names_of (v ∷ vs) = v.name ∷ names_of vs

abbrev apart : List VolumeMount → Bool
apart [] = true
apart (m ∷ ms) = all (λ n. not (m.mount_path == n.mount_path)) ms && apart ms

abbrev container_fits : List String → Container → Bool
container_fits volumes c =
    all (λ m. contains volumes m.name) c.volume_mounts && apart c.volume_mounts

abbrev selects : Dict String → Dict String → Bool
selects selector labels = all (λ l. or_zero "" (lookup l.0 labels) == l.1) selector

abbrev pod_fits : Dict String → PodTemplateSpec → Bool
pod_fits selector t =
    selects selector t.labels
    && all (container_fits (names_of t.spec.volumes)) (t.spec.init_containers ++ t.spec.containers)

abbrev body_fits : Body → Bool
body_fits namespace = true
body_fits service_account = true
body_fits (config_map _) = true
body_fits (secret _) = true
body_fits (cluster_role _) = true
body_fits (cluster_role_binding b) = true
body_fits (service _) = true
body_fits (daemon_set d) = pod_fits d.selector d.template
body_fits (deployment d) = pod_fits d.selector d.template

abbrev there : Option Object → Bool
there none = false
there (some _) = true

-- all of the objects fit together in the cluster
unfoldable pub ready : Cluster → List Object → Bool
ready a os = all (λ o. all (λ r. there (a r)) (needs o) && body_fits o.body) os
