-- ===== src/Controllers/NodeStreams/Failures.antt =====
-- A node becomes active exactly if the first attempt to make its streams succeeds: an attempt that fails
-- marks the node, and no later one takes the mark away.
use anck.Prelude.{
  String, true, false, [], ◌∷◌, ◌++◌, ◌==◌, string_eq, ◌≡◌, refl, subst, Bool-cases, inl, inr,
  ==_refl, ◌≢◌, ◌∙◌, contains,
}
use anck.Prelude.Dict.{lookup}
use anck.Prelude.Exec.{Exec, Error, Result, ok, err, panic, pure, ◌>>=◌, bind_inv}
use anck.Api.{Network}
use anck.Jetstreams.Duration.{Std}
use anck.Jetstreams.Jsm.{Jsm}
use anck.Jetstreams.Controller.{JetstreamController}
use anck.Controllers.SliceLib.{SliceLib, IsSliceLib}
use anck.Controllers.Participating.{
  new, state_pending, state_active, at, state_at, network_node_state, activate,
}
use anck.Controllers.Participating.Moves.{activate_lem}
use anck.Controllers.Participating.Pending.{network_node_state_iff}
use anck.Controllers.NodeStreams.Marks.{create_streams-Marks}
use anck.Controllers.NodeStreams.{
  Tries, has_failed, Retry, IsRetry, Work, create_streams, try_streams, drop_error, after_tries,
  reconcile_node_in, reconcile_node,
}

module _ {W : Type 0} {F : Type 0} (jsm : Jsm W) (std : Std F) (js : JetstreamController)
    (node : String) (lib : SliceLib) (retry : Retry W) (tried : IsRetry retry) where
  -- the closure that is tried again
  abbrev pub attempt_streams : Network → Exec (Tries × W) (Unit {0})
  attempt_streams network = create_streams jsm std js node network network.spec.streams

  -- where the first attempt fails, or the node is marked already
  marked_after :
      (network : Network) (tries : Tries) (w : W) (r : Tries)
      → has_failed node (attempt_streams network (tries, w)).1.0 ≡ true
      → (try_streams jsm std js retry node network tries w).0 ≡ ok r
      → has_failed node r ≡ true
  unfolding try_streams
  marked_after network tries w r h e =
      let still =
        tried.assigns (λ t. has_failed node t ≡ true) (attempt_streams network)
          (create_streams-Marks jsm std js node network network.spec.streams).keeps (tries, w) h in
      subst (λ t. has_failed node t ≡ true) (dropped _ _ r e) still
    where
      dropped : (o : Result (Unit {0})) (t r : Tries) → drop_error jsm std js o t ≡ ok r → t ≡ r
      dropped (ok _) t r h = cc
      dropped (err _) t r h = cc
      dropped panic t r h = cc

  -- A pending node whose streams could not be made by the first attempt does not become active in this
  -- round, although the attempt is repeated: nothing of the network changes for it.
  pub reconcile_node-fails :
      (network : Network) (work result : Work) (w : W) (e : Error)
      → network_node_state work.participating node ≡ new
      → (attempt_streams network (work.tries, w)).0 ≡ err e
      → (reconcile_node jsm std js lib retry node network work w).0 ≡ ok result
      → (result.participating ≡ work.participating)
        × (result.added ≡ work.added)
        × (result.removed ≡ work.removed)
  unfolding reconcile_node reconcile_node_in after_tries pure
  reconcile_node-fails network work result w e is_new failed h =
      elim (Bool-cases (state_at work.participating.nodes node == state_pending)) [
        | inl t ↦
            let (tries, e1, h1, s1) =
              bind_inv (try_streams jsm std js retry node network work.tries) _ w
                (rw t at (rw is_new at h)) in
            let mark =
              marked_after network work.tries w tries
                ((create_streams-Marks jsm std js node network network.spec.streams).marks
                  (work.tries, w) e failed)
                e1 in
            unchanged work result tries (cc (rw mark at h1))
        | inr f ↦
            subst
              (λ r.
                (r.participating ≡ work.participating)
                × (r.added ≡ work.added)
                × (r.removed ≡ work.removed))
              {x = work} {y = result} (cc (rw f at (rw is_new at h))) (refl, refl, refl)
      ]
    where
      unchanged :
          (work result : Work) (tries : Tries)
          → record work { tries = tries } ≡ result
          → (result.participating ≡ work.participating)
            × (result.added ≡ work.added)
            × (result.removed ≡ work.removed)
      unchanged work result tries h =
          subst
            (λ r.
              (r.participating ≡ work.participating)
              × (r.added ≡ work.added)
              × (r.removed ≡ work.removed))
            h (refl, refl, refl)

  -- A pending node whose streams are made by the first attempt, and that is not marked, becomes active in
  -- this round: its pods are then exactly those that were in creation there, none of which is in creation
  -- any more, and the finalizer for it is added; the lists and states of all other nodes, the terminating
  -- pods and what was removed stay.
  pub reconcile_node-activates :
      IsSliceLib lib
      → (network : Network) (work : Work) (w : W) → network_node_state work.participating node ≡ new
      → state_at work.participating.nodes node ≡ state_pending
      → (attempt_streams network (work.tries, w)).0 ≡ ok tt
      → has_failed node (attempt_streams network (work.tries, w)).1.0 ≡ false
      → (result : Work) × (reconcile_node jsm std js lib retry node network work w
          ≡ (ok result, (attempt_streams network (work.tries, w)).1.1))
        × (state_at result.participating.nodes node ≡ state_active)
        × (at result.participating.pods_creating node ≡ [])
        × ((a : String)
            → contains (at result.participating.pods node) a
              ≡ contains (at work.participating.pods_creating node) a)
        × ((j : String)
            → j ≢ node
            → (at result.participating.pods j ≡ at work.participating.pods j)
              × (at result.participating.pods_creating j ≡ at work.participating.pods_creating j)
              × (lookup j result.participating.nodes ≡ lookup j work.participating.nodes))
        × (result.participating.pods_terminating ≡ work.participating.pods_terminating)
        × (result.added ≡ work.added ++ node ∷ [])
        × (result.removed ≡ work.removed)
  unfolding reconcile_node reconcile_node_in after_tries pure try_streams activate ◌>>=◌
  reconcile_node-activates laws network work w is_new pending made unmarked =
      let (active, none_left, moved, others) = activate_lem lib laws node work.participating in
      let (some_new, none_yet) = (network_node_state_iff work.participating node).1.0 is_new in
      (
        record work {
          tries = (attempt_streams network (work.tries, w)).1.0;
          participating = activate lib node work.participating;
          added = work.added ++ node ∷ [];
        },
        rw
            (
              is_new,
              pending,
              ==_refl state_pending,
              tried.stops (attempt_streams network) (work.tries, w) made,
              made,
              unmarked,
            )
            refl,
        active,
        none_left,
        λ a. moved a ∙ rw none_yet refl,
        others,
        refl,
        refl,
        refl,
      )
