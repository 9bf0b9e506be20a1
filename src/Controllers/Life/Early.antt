-- ===== src/Controllers/Life/Early.antt =====
-- Two orders of events in which the pods that the network lists are not those that run.
use anck.Prelude.{
  String, true, false, List, [], ◌∷◌, string_eq, ◌≡◌, refl, ap, ◌∙◌, subst, contains, arith,
  ==_refl,
}
use anck.Prelude.Exec.{ok, pure}
use anck.Api.{Network, ParticipatingSpec}
use anck.Jetstreams.Duration.{Std}
use anck.Jetstreams.Jsm.{Jsm}
use anck.Jetstreams.Controller.{JetstreamController}
use anck.Controllers.SliceLib.{SliceLib, IsSliceLib}
use anck.Controllers.Participating.{
  deleted, at, state_at, state_active, network_node_state, remove_pods, activate, pod_created,
  pod_terminating,
}
use anck.Prelude.Dict.{lookup-erase}
use anck.Controllers.Participating.Invariant.{
  IsWellFormed, activate-IsWellFormed, pod_terminating-IsWellFormed,
}
use anck.Controllers.Life.{Event, Steps}
use anck.Controllers.Life.Stuck.{IsStuck, all_elsewhere, Steps-IsStuck}
use anck.Controllers.Participating.Kept.{present}
use anck.Controllers.Participating.Moves.{at-insert, remove_pods-Removed, activate_lem}
use anck.Controllers.Participating.Pending.{deleted_creating}
use anck.Controllers.NodeStreams.Rounds.{the_ok}
use anck.Controllers.NodeStreams.{Retry, Work, reconcile_node, reconcile_node_in}

module _ (lib : SliceLib) (laws : IsSliceLib lib) where
  contains-only : (pod : String) → contains (lib.unique (pod ∷ [])) pod ≡ true
  contains-only pod = laws.contains-unique (pod ∷ []) pod ∙ rw (==_refl pod) refl

  -- the node once it is active
  early_stuck :
      (node pod : String) (p : ParticipatingSpec)
      → at p.pods node ≡ []
      → at p.pods_creating node ≡ pod ∷ []
      → at p.pods_terminating node ≡ []
      → IsStuck node (lib.unique (pod ∷ [])) (activate lib node (pod_terminating lib node pod p))
  unfolding activate pod_terminating
  early_stuck node pod p a b c =
      let (active, none_left, moved, others) =
        activate_lem lib laws node (pod_terminating lib node pod p) in
      record {
        some_pods = λ e. cc (ap (λ l. contains l pod) e, contains-only pod);
        pods = at-insert node node _ p.pods ∙ rw (==_refl node, a, b) refl;
        terminating = at-insert node node _ p.pods_terminating ∙ rw (==_refl node, c) refl;
        creating = lookup-erase node node p.pods_creating ∙ rw (==_refl node) refl;
        active = active;
      }

module _ {W : Type 0} {F : Type 0} (jsm : Jsm W) (std : Std F) (lib : SliceLib)
    (laws : IsSliceLib lib) (retry : Retry W) where
  -- Where no node lists a pod twice, the only pod of a node terminates while it is in creation, and then the
  -- node becomes active: after any number of reconciliations, of changes of the components, and of pods
  -- created and terminating on other nodes, the node is still active, and the pod is still listed there, as
  -- a pod of the node and as terminating.
  pub early_pod_is_stuck :
      (node pod : String) (p : ParticipatingSpec) {es : List Event} {q : ParticipatingSpec}
      → IsWellFormed p
      → at p.pods node ≡ []
      → at p.pods_creating node ≡ pod ∷ []
      → at p.pods_terminating node ≡ []
      → Steps jsm std lib retry (activate lib node (pod_terminating lib node pod p)) es q
      → all_elsewhere node es ≡ true
      → (contains (at q.pods node) pod ≡ true)
        × (contains (at q.pods_terminating node) pod ≡ true)
        × (state_at q.nodes node ≡ state_active)
  early_pod_is_stuck node pod p {es} {q} wf a b c steps h =
      let formed =
        activate-IsWellFormed lib laws node (pod_terminating lib node pod p)
          (pod_terminating-IsWellFormed lib laws node pod p wf) in
      let (later, stuck) =
        Steps-IsStuck jsm std lib laws retry node (lib.unique (pod ∷ [])) steps formed
          (early_stuck lib laws node pod p a b c) h in
      (
        rw stuck.pods (contains-only lib laws pod),
        rw stuck.terminating (contains-only lib laws pod),
        stuck.active,
      )

module _ {W : Type 0} {F : Type 0} (jsm : Jsm W) (std : Std F) (js : JetstreamController)
    (lib : SliceLib) (laws : IsSliceLib lib) (retry : Retry W) where
  lost_in :
      (network : Network) (work result : Work) (w : W) (p : ParticipatingSpec) (node pod : String)
      → work.participating ≡ p
      → network_node_state p node ≡ deleted
      → present (remove_pods node (at p.pods_terminating node) p) node pod ≡ false
      → (reconcile_node jsm std js lib retry node network work w).0 ≡ ok result
      → present result.participating node pod ≡ false
  unfolding reconcile_node reconcile_node_in pure
  lost_in network work result w p node pod eq h lost run =
      subst (λ r. present r.participating node pod ≡ false) (the_ok (rw h at (rw eq at run))) lost

  -- Where no node lists a pod twice, a pod terminates on a node that the reconciler finds in the case
  -- `deleted`, and is created there again under its name before the node's terminating pods are taken away:
  -- the next round over the node loses the pod, which is then neither there nor in creation.
  pub recreated_pod_is_lost :
      (node pod : String) (p : ParticipatingSpec) (network : Network) (work result : Work) (w : W)
      → IsWellFormed p
      → network_node_state p node ≡ deleted
      → contains (at p.pods node) pod ≡ true
      → contains (at p.pods_terminating node) pod ≡ true
      → work.participating ≡ pod_created lib node pod p
      → (reconcile_node jsm std js lib retry node network work w).0 ≡ ok result
      → present result.participating node pod ≡ false
  recreated_pod_is_lost node pod p network work result w wf h a b e run =
      let same : pod_created lib node pod p ≡ p =
        unfold pod_created in rw (laws.has_lem (at p.pods node) pod ∙ a) refl in
      let eq : work.participating ≡ p = e ∙ same in
      let r = remove_pods-Removed node (at p.pods_terminating node) p (wf.pods node) in
      let lost : present (remove_pods node (at p.pods_terminating node) p) node pod ≡ false =
        ground (
          arith,
          r.left pod,
          ap (λ m. contains (at m node) pod) r.creating,
          ap (λ l. contains l pod) (deleted_creating p node h),
        ) in
      lost_in network work result w p node pod eq h lost run
