-- ===== src/Controllers/NodeStreams/Rounds.antt =====
-- What holds of every case of `reconcileJetstreams` holds of every round over the nodes.
use anck.Prelude.{
  String, List, [], ◌∷◌, ◌==◌, string_eq, ◌≡◌, refl, subst, Bool-cases, inl, inr, ==_iff,
}
use anck.Prelude.Exec.{ok, pure, bind_inv}
use anck.Api.{Network, ParticipatingSpec}
use anck.Jetstreams.Duration.{Std}
use anck.Jetstreams.Jsm.{Jsm}
use anck.Jetstreams.Controller.{JetstreamController}
use anck.Controllers.SliceLib.{SliceLib}
use anck.Controllers.Participating.{
  NodeNetworkState, new, still_participating_create, still_participating_delete, deleted, invalid,
  state_pending, at, state_at, network_node_state, remove_pods, leave, activate, move_all,
}
use anck.Controllers.NodeStreams.{
  Tries, has_failed, Retry, Work, try_streams, after_tries, reconcile_node_in, reconcile_node,
  reconcile_nodes,
}

pub the_ok : {A : Type 0} {a b : A} → ok a ≡ ok b → a ≡ b
the_ok h = cc

-- A reflexive and transitive relation that each case keeps to, from a status that meets the invariant.
pub record IsRound (lib : SliceLib) (I : ParticipatingSpec → Type 0)
    (R : ParticipatingSpec → ParticipatingSpec → Type 0) : Type 0 where
  pub invariant : (p q : ParticipatingSpec) → I p → R p q → I q
  pub same : (p : ParticipatingSpec) → I p → R p p
  pub next : (p q r : ParticipatingSpec) → R p q → R q r → R p r
  pub activates :
      (node : String) (p : ParticipatingSpec)
      → I p
      → network_node_state p node ≡ new
      → state_at p.nodes node ≡ state_pending
      → R p (activate lib node p)
  pub moves :
      (node : String) (p : ParticipatingSpec)
      → I p
      → network_node_state p node ≡ still_participating_create
      → R p (move_all lib p)
  pub leaves :
      (node : String) (p : ParticipatingSpec)
      → I p
      → network_node_state p node ≡ still_participating_delete
      → R p (leave node p).0
  pub removes :
      (node : String) (p : ParticipatingSpec)
      → I p
      → network_node_state p node ≡ deleted
      → R p (remove_pods node (at p.pods_terminating node) p)

module _ {W : Type 0} {F : Type 0} (jsm : Jsm W) (std : Std F) (js : JetstreamController)
    (lib : SliceLib) (retry : Retry W) {I : ParticipatingSpec → Type 0}
    {R : ParticipatingSpec → ParticipatingSpec → Type 0} (cases : IsRound lib I R) where
  after_tries-IsRound :
      (node : String) (work : Work) (tries : Tries)
      → I work.participating
      → network_node_state work.participating node ≡ new
      → state_at work.participating.nodes node ≡ state_pending
      → R work.participating (after_tries jsm std js lib retry node work tries).participating
  unfolding after_tries
  after_tries-IsRound node work tries i e s = elim (Bool-cases (has_failed node tries)) [
    | inl t ↦ rw t (cases.same work.participating i)
    | inr f ↦ rw f (cases.activates node work.participating i e s)
  ]

  reconcile_node_in-IsRound :
      (state : NodeNetworkState) (node : String) (network : Network) (work result : Work) (w : W)
      → I work.participating
      → network_node_state work.participating node ≡ state
      → (reconcile_node_in jsm std js lib retry state node network work w).0 ≡ ok result
      → R work.participating result.participating
  unfolding reconcile_node_in pure
  reconcile_node_in-IsRound new node network work result w i e h =
      elim (Bool-cases (state_at work.participating.nodes node == state_pending)) [
        | inl t ↦
            let (tries, e1, h1, s1) =
              bind_inv (try_streams jsm std js retry node network work.tries) _ w (rw t at h) in
            subst (λ r. R work.participating r.participating)
              {x = after_tries jsm std js lib retry node work tries} {y = result} (cc h1)
              (after_tries-IsRound node work tries i e ((==_iff _ _).0 t))
        | inr f ↦
            subst (λ r. R work.participating r.participating) {x = work} {y = result}
              (cc (rw f at h)) (cases.same work.participating i)
      ]
  reconcile_node_in-IsRound still_participating_create node network work result w i e h =
      subst (λ r. R work.participating r.participating) (the_ok h)
        (cases.moves node work.participating i e)
  reconcile_node_in-IsRound still_participating_delete node network work result w i e h =
      subst (λ r. R work.participating r.participating) (the_ok h)
        (cases.leaves node work.participating i e)
  reconcile_node_in-IsRound deleted node network work result w i e h =
      subst (λ r. R work.participating r.participating) (the_ok h)
        (cases.removes node work.participating i e)
  reconcile_node_in-IsRound invalid node network work result w i e h =
      subst (λ r. R work.participating r.participating) (the_ok h) (cases.same work.participating i)

  -- One round over any nodes, in any order, that returns.
  pub reconcile_nodes-IsRound :
      (nodes : List String) (network : Network) (work result : Work) (w : W)
      → I work.participating
      → (reconcile_nodes jsm std js lib retry nodes network work w).0 ≡ ok result
      → R work.participating result.participating
  unfolding reconcile_nodes reconcile_node pure
  reconcile_nodes-IsRound [] network work result w i h =
      subst (λ r. R work.participating r.participating) (the_ok h) (cases.same work.participating i)
  reconcile_nodes-IsRound (node ∷ nodes) network work result w i h =
      let (step, e1, h1, s1) =
        bind_inv (reconcile_node jsm std js lib retry node network work) _ w h in
      let first = reconcile_node_in-IsRound _ node network work step w i refl e1 in
      cases.next _ _ _ first
        (reconcile_nodes-IsRound nodes network step result _ (cases.invariant _ _ i first) h1)
