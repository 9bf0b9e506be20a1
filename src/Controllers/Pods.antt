-- ===== src/Controllers/Pods.antt =====
-- controllers/network/pod_controller.go: the pods that participate in networks. Log lines are left out.
pub mod Laws
use anck.Prelude.{
  ℕ, String, ◌<>◌, Bool, true, false, not, ◌&&◌, Option, none, some, List, [], ◌∷◌, ◌⊎◌, inl, inr,
  ◌==◌, string_eq, if◌then◌else◌, is_empty, nat_eq, length, leb,
}
use anck.Prelude.Dict.{Dict, has_key}
use anck.Prelude.Exec.{
  Exec, Error, Result, ok, err, panic, errorf, is_not_found, pure, raise, attempt, ◌>>=◌, ◌>>◌,
}
use anck.Text.{str_contains}
use anck.Api.{Network, NetworkInfoSpec, ParticipatingSpec, ObjectMeta}
use anck.Resources.Kube.{Kube, Pod}
use anck.Resources.Others.{get_network, update_network, get_node_labels, get_pod, update_pod}
use anck.Controllers.SliceLib.{SliceLib}
use anck.Controllers.Participating.{pod_created, pod_terminating}
use anck.Controllers.Streams.{Requeue}

-- the networks that a pod participates in, by its labels
unfoldable pub pod_networks : Dict String → List String
pod_networks [] = []
pod_networks ((k, v) ∷ labels) =
    let rest = pod_networks labels in
    if str_contains k "participant.edgefarm.io/" then v ∷ rest else rest

-- the domain of a new pod: its node, or `main` for a pod on a node that is no edge node
unfoldable pub domain_of : String → Dict String → String
domain_of node labels = if has_key "node-role.kubernetes.io/edge" labels then node else "main"

-- `removePodFinalizers`
unfoldable pub remove_pod_finalizers : Pod → Pod
remove_pod_finalizers pod = record pod { meta = record pod.meta { finalizers = [] } }

abbrev pub with_participating : ParticipatingSpec → Network → Network
with_participating p network = record network { info = record network.info { participating = p } }

abbrev pub done : Requeue
done = record { requeue = false; after = 0 }

module _ (lib : SliceLib) {W : Type 0} (kube : Kube W) where
  -- the loop over the networks of a pod that is there
  unfoldable pub create_in : String → Pod → List String → Exec W Requeue
  create_in node pod [] = pure done
  create_in node pod (name ∷ names) = do
    network ← get_network kube name pod.meta.namespace
    let participating = pod_created lib node pod.meta.name network.info.participating
    update_network kube (with_participating participating network) pod.meta.namespace
    create_in node pod names

  -- `reconcileCreatePod`; that the node is known was tested by the caller, too
  unfoldable pub reconcile_create_pod : Pod → Exec W Requeue
  reconcile_create_pod pod =
      let networks = pod_networks pod.labels in
      if is_empty networks
      then pure done
      else if pod.node_name == ""
      then raise
          (errorf ("Still waiting for pod '" <> pod.meta.name <> "' to be scheduled onto a node"))
      else (do
        current ← get_pod kube pod.meta.name pod.meta.namespace
        labels ← get_node_labels kube current.node_name
        create_in (domain_of current.node_name labels) current networks)

  -- the loop over the networks of a pod that is being deleted
  unfoldable pub delete_in : String → Pod → List String → Exec W Requeue
  delete_in node pod [] = pure done
  delete_in node pod (name ∷ names) = do
    network ← get_network kube name pod.meta.namespace
    let participating = pod_terminating lib node pod.meta.name network.info.participating
    let released = remove_pod_finalizers pod
    update_pod kube released
    update_network kube (with_participating participating network) pod.meta.namespace
    delete_in node released names

  -- `reconcileDeletePod`: here the node is the pod's, whatever its labels
  unfoldable pub reconcile_delete_pod : Pod → Exec W Requeue
  reconcile_delete_pod pod =
      let networks = pod_networks pod.labels in
      if is_empty networks then pure done else (do
        current ← get_pod kube pod.meta.name pod.meta.namespace
        delete_in current.node_name current networks)

  reconcile_found : Pod → Exec W Requeue
  reconcile_found pod =
      if pod.node_name == ""
      then pure (record { requeue = false; after = 5 })
      else if pod.meta.deleting
      then reconcile_delete_pod pod
      else reconcile_create_pod pod

  -- `Reconcile`
  unfoldable pub reconcile : String → String → Exec W Requeue
  unfolding reconcile_found
  reconcile namespace name = do
    r ← attempt (kube.get_pod namespace name)
    elim r [
      | inl e ↦ (if is_not_found e then pure done else raise e)
      | inr pod ↦ reconcile_found pod
    ]

-- `CreateFunc`
unfoldable pub on_create : Pod → Bool
on_create pod = leb 1 (length (pod_networks pod.labels))

-- `UpdateFunc`, by the generations of the old and the new pod
unfoldable pub on_update : ℕ → ℕ → Pod → Bool
on_update old_generation new_generation pod =
    if nat_eq old_generation new_generation
    then leb 1 (length (pod_networks pod.labels)) && leb 1 (length pod.meta.finalizers)
    else false
