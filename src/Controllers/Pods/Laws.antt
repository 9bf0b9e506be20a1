-- ===== src/Controllers/Pods/Laws.antt =====
-- No pod handler stores a network in which a pod is listed twice.
use anck.Prelude.{
  String, Bool, true, false, List, [], ◌∷◌, ◌⊎◌, inl, inr, ◌==◌, string_eq, if◌then◌else◌, is_empty,
  ◌≡◌, refl, Bool-cases,
}
use anck.Prelude.Exec.{
  Exec, Error, Result, ok, err, panic, is_not_found, continue, pure, raise, attempt, ◌>>=◌,
}
use anck.Api.{Network}
use anck.Resources.Kube.{Kube, Pod}
use anck.Resources.Others.{
  setup_network_clientset, get_network, update_network, get_node_labels, get_pod, update_pod,
}
use anck.Resources.Secret.{clientset}
use anck.Controllers.SliceLib.{SliceLib, IsSliceLib}
use anck.Controllers.Participating.{pod_created, pod_terminating}
use anck.Controllers.Participating.Invariant.{
  IsWellFormed, pod_created-IsWellFormed, pod_terminating-IsWellFormed,
}
use anck.Controllers.Streams.{Requeue}
use anck.Controllers.Pods.{
  pod_networks, domain_of, with_participating, create_in, reconcile_create_pod, delete_in,
  reconcile_delete_pod, reconcile_found, reconcile,
}

-- The call leads from states with the property to states with it, and then returns only what has another.
record Holds {W A : Type 0} (Good : W → Type 0) (Answer : A → Type 0) (m : Exec W A) : Type 0 where
  state : (w : W) → Good w → Good (m w).1
  answer : (w : W) (a : A) → Good w → (m w).0 ≡ ok a → Answer a

abbrev Any : {A : Type 0} → A → Type 0
Any _ = Unit

>>=-Holds :
    {W A B : Type 0} {Good : W → Type 0} {Answer : A → Type 0} {Next : B → Type 0} (m : Exec W A)
    (f : A → Exec W B)
    → Holds Good Answer m
    → ((a : A) → Answer a → Holds Good Next (f a))
    → Holds Good Next (m >>= f)
unfolding ◌>>=◌
>>=-Holds {W} {A} {B} {Good} {Answer} {Next} m f h k = record {
  state = λ w g. state_at w g (m w).0 refl;
  answer = λ w b g e. answer_at w g (m w).0 b refl e;
}
  where
    state_at : (w : W) → Good w → (r : Result A) → (m w).0 ≡ r → Good (continue r f (m w).1).1
    state_at w g (ok a) p = (k a (h.answer w a g p)).state (m w).1 (h.state w g)
    state_at w g (err e) p = h.state w g
    state_at w g panic p = h.state w g

    answer_at :
        (w : W)
        → Good w
        → (r : Result A) (b : B) → (m w).0 ≡ r
        → (continue r f (m w).1).0 ≡ ok b
        → Next b
    answer_at w g (ok a) b p e = (k a (h.answer w a g p)).answer (m w).1 b (h.state w g) e
    answer_at w g (err x) b p e = cc
    answer_at w g panic b p e = cc

pure-Holds : {W A : Type 0} {Good : W → Type 0} (a : A) → Holds Good Any (pure {W = W} a)
unfolding pure
pure-Holds a = record { state = λ w g. g; answer = λ w b g e. tt }

raise-Holds :
    {W A : Type 0} {Good : W → Type 0} (e : Error) → Holds {A = A} Good Any (raise {W = W} e)
unfolding raise
raise-Holds e = record { state = λ w g. g; answer = λ w b g p. tt }

abbrev pub IsGood : Network → Type 0
IsGood n = IsWellFormed n.info.participating

-- What the handlers rely on of the API: it stores the networks that it is given, as they are given, and
-- no other call that they make changes one. `Good w` says that all networks that are stored are well formed.
pub record Networks {W : Type 0} (kube : Kube W) (Good : W → Type 0) : Type 0 where
  pub config : (w : W) → Good w → Good (kube.in_cluster_config w).1
  pub client : (w : W) → Good w → Good (kube.new_for_config w).1
  pub network_client : (w : W) → Good w → Good (kube.network_new_for_config w).1
  pub get : (ns n : String) (w : W) → Good w → Good (kube.get_network ns n w).1
  pub got :
      (ns n : String) (w : W) (x : Network) → Good w → (kube.get_network ns n w).0 ≡ ok x → IsGood x
  pub update :
      (ns : String) (x : Network) (w : W) → Good w → IsGood x → Good (kube.update_network ns x w).1
  pub read_pod : (ns n : String) (w : W) → Good w → Good (kube.get_pod ns n w).1
  pub read_pod_again :
      (ns n : String) (w : W) → Good w → Good (kube.retry_on_conflict (kube.get_pod ns n) w).1
  pub write_pod : (ns : String) (p : Pod) (w : W) → Good w → Good (kube.update_pod ns p w).1
  pub node : (n : String) (w : W) → Good w → Good (kube.get_node_labels n w).1

module _ (lib : SliceLib) (laws : IsSliceLib lib) {W : Type 0} (kube : Kube W) (Good : W → Type 0)
    (networks : Networks kube Good) where
  plain : {A : Type 0} (m : Exec W A) → ((w : W) → Good w → Good (m w).1) → Holds Good Any m
  plain m h = record { state = h; answer = λ w a g e. tt }

  setup-Holds : Holds Good Any (setup_network_clientset kube)
  unfolding setup_network_clientset
  setup-Holds = >>=-Holds _ _ (plain _ networks.config) (λ _ _. plain _ networks.network_client)

  clientset-Holds : Holds Good Any (clientset kube)
  unfolding clientset
  clientset-Holds = >>=-Holds _ _ (plain _ networks.config) (λ _ _. plain _ networks.client)

  get_network-Holds : (n ns : String) → Holds Good IsGood (get_network kube n ns)
  unfolding get_network
  get_network-Holds n ns =
      >>=-Holds _ _ setup-Holds
        (λ _ _. record { state = networks.get ns n; answer = networks.got ns n })

  update_network-Holds :
      (x : Network) (ns : String) → IsGood x → Holds Good Any (update_network kube x ns)
  unfolding update_network
  update_network-Holds x ns good =
      >>=-Holds _ _ setup-Holds (λ _ _. plain _ (λ w g. networks.update ns x w g good))

  create_in-Holds :
      (node : String) (pod : Pod) (names : List String)
      → Holds Good Any (create_in lib kube node pod names)
  unfolding create_in
  create_in-Holds node pod [] = pure-Holds _
  create_in-Holds node pod (name ∷ names) =
      >>=-Holds _ _ (get_network-Holds name pod.meta.namespace) (λ x good.
        >>=-Holds _ _
          (update_network-Holds
            (with_participating (pod_created lib node pod.meta.name x.info.participating) x)
            pod.meta.namespace
            (pod_created-IsWellFormed lib laws node pod.meta.name x.info.participating good))
          (λ _ _. create_in-Holds node pod names))

  delete_in-Holds :
      (node : String) (names : List String) (pod : Pod)
      → Holds Good Any (delete_in lib kube node pod names)
  unfolding delete_in update_pod
  delete_in-Holds node [] pod = pure-Holds _
  delete_in-Holds node (name ∷ names) pod =
      >>=-Holds _ _ (get_network-Holds name pod.meta.namespace) (λ x good.
        >>=-Holds _ _ (>>=-Holds _ _ clientset-Holds (λ _ _. plain _ (networks.write_pod _ _)))
          (λ _ _.
            >>=-Holds _ _
              (update_network-Holds
                (with_participating (pod_terminating lib node pod.meta.name x.info.participating) x)
                pod.meta.namespace
                (pod_terminating-IsWellFormed lib laws node pod.meta.name x.info.participating
                  good))
              (λ _ _. delete_in-Holds node names _)))

  reconcile_create_pod-Holds : (pod : Pod) → Holds Good Any (reconcile_create_pod lib kube pod)
  unfolding reconcile_create_pod get_pod get_node_labels
  reconcile_create_pod-Holds pod = elim (Bool-cases (is_empty (pod_networks pod.labels))) [
    | inl t ↦ rw t (pure-Holds _)
    | inr f ↦ elim (Bool-cases (pod.node_name == "")) [
      | inl t ↦ rw (f, t) (raise-Holds _)
      | inr n ↦
          rw (f, n)
            (>>=-Holds _ _
              (>>=-Holds _ _ clientset-Holds (λ _ _. plain _ (networks.read_pod_again _ _)))
              (λ current _.
                >>=-Holds _ _ (>>=-Holds _ _ clientset-Holds (λ _ _. plain _ (networks.node _)))
                  (λ labels _.
                    create_in-Holds (domain_of current.node_name labels) current
                      (pod_networks pod.labels))))
    ]
  ]

  reconcile_delete_pod-Holds : (pod : Pod) → Holds Good Any (reconcile_delete_pod lib kube pod)
  unfolding reconcile_delete_pod get_pod
  reconcile_delete_pod-Holds pod = elim (Bool-cases (is_empty (pod_networks pod.labels))) [
    | inl t ↦ rw t (pure-Holds _)
    | inr f ↦ rw f (
        >>=-Holds _ _ (>>=-Holds _ _ clientset-Holds (λ _ _. plain _ (networks.read_pod_again _ _)))
          (λ current _. delete_in-Holds current.node_name (pod_networks pod.labels) current))
  ]

  reconcile_found-Holds : (pod : Pod) → Holds Good Any (reconcile_found lib kube pod)
  unfolding reconcile_found
  reconcile_found-Holds pod = elim (Bool-cases (pod.node_name == "")) [
    | inl t ↦ rw t (pure-Holds _)
    | inr f ↦ rw f (by_deletion pod.meta.deleting)
  ]
    where
      by_deletion :
          (b : Bool)
          → Holds Good Any
              (if b then reconcile_delete_pod lib kube pod else reconcile_create_pod lib kube pod)
      by_deletion true = reconcile_delete_pod-Holds pod
      by_deletion false = reconcile_create_pod-Holds pod

  answered :
      (r : Error ⊎ Pod)
      → Holds Good Any (elim r as (λ _. Exec W Requeue) [
        | inl e ↦ (if is_not_found e then pure (record { requeue = false; after = 0 }) else raise e)
        | inr pod ↦ reconcile_found lib kube pod
      ])
  answered (inl e) = elim (Bool-cases (is_not_found e)) [
    | inl t ↦ rw t (pure-Holds _)
    | inr f ↦ rw f (raise-Holds e)
  ]
  answered (inr pod) = reconcile_found-Holds pod

  -- Whatever the pod is that is reconciled, and whether the reconciliation ends with an error, at whichever
  -- of its networks, or without one: if no stored network listed a pod twice before, none does afterwards.
  pub reconcile-Good :
      (namespace name : String) (w : W) → Good w → Good (reconcile lib kube namespace name w).1
  unfolding reconcile attempt
  reconcile-Good namespace name w g =
      (>>=-Holds _ _
          (plain (attempt (kube.get_pod namespace name)) (networks.read_pod namespace name))
          (λ r _. answered r)).state
        w g
