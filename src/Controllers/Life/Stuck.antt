-- ===== src/Controllers/Life/Stuck.antt =====
-- An active node all of whose pods terminate: no case of `reconcileJetstreams` takes them away, and events
-- on other nodes do not, either.
use anck.Prelude.{
  String, Bool, true, false, not, ◌&&◌, none, List, [], ◌∷◌, ◌==◌, string_eq, ==_refl, ◌≡◌, ◌≢◌,
  refl, sym, subst, ◌∙◌, arith, Bool-cases, inl, inr, ==_iff,
}
use anck.Prelude.Dict.{Dict, lookup, lookup-insert, lookup-erase}
use anck.Api.{ParticipatingSpec}
use anck.Jetstreams.Duration.{Std}
use anck.Jetstreams.Jsm.{Jsm}
use anck.Controllers.SliceLib.{SliceLib, IsSliceLib}
use anck.Controllers.Participating.{
  NodeNetworkState, new, deleted, still_participating_delete, at, state_at, state_active,
  state_terminating, network_node_state, remove_pods, leave, activate, move_created, pod_created,
  pod_terminating,
}
use anck.Controllers.Participating.Invariant.{
  IsWellFormed, remove_pods-IsWellFormed, leave-IsWellFormed, activate-IsWellFormed,
  move_created-IsWellFormed,
}
use anck.Controllers.Participating.Kept.{leave-creating}
use anck.Controllers.Participating.Moves.{at-insert, remove_pods-Removed, activate_lem, leave_lem}
use anck.Controllers.Participating.Pending.{network_node_state_iff}
use anck.Controllers.Participating.Elsewhere.{state_elsewhere}
use anck.Controllers.Participating.Roster.{remove_pods-elsewhere}
use anck.Controllers.NodeStreams.{Retry}
use anck.Controllers.NodeStreams.Rounds.{IsRound, reconcile_nodes-IsRound}
use anck.Controllers.Life.Refinement.{Step-Spec}
use anck.Controllers.Life.{
  Event, created, terminated, reconciled, components_changed, Step, creates, terminates, reconciles,
  changes_components, round, Steps, no_step, then_step,
}

-- The node is active, and its pods, which are some, are exactly those that terminate there.
pub record IsStuck (node : String) (listed : List String) (p : ParticipatingSpec) : Type 0 where
  pub some_pods : listed ≢ []
  pub pods : at p.pods node ≡ listed
  pub terminating : at p.pods_terminating node ≡ listed
  pub creating : lookup node p.pods_creating ≡ none
  pub active : state_at p.nodes node ≡ state_active

active-ne-terminating : state_active ≢ state_terminating
active-ne-terminating h = cc

module _ (node : String) (listed : List String) where
  -- the reconciler finds that the node is leaving
  stuck_leaves :
      (p : ParticipatingSpec)
      → IsStuck node listed p
      → network_node_state p node ≡ still_participating_delete
  stuck_leaves p s = (network_node_state_iff p node).0.1 (
    rw s.creating refl,
    λ e. s.some_pods (sym s.pods ∙ e),
    rw (s.terminating, s.pods) refl,
    λ a. rw (s.terminating, s.pods) refl,
  )

  -- the node of another case is another node
  differs :
      (p : ParticipatingSpec) (j : String) (state : NodeNetworkState)
      → IsStuck node listed p
      → network_node_state p j ≡ state
      → state ≢ still_participating_delete
      → node ≢ j
  differs p j state s e n same = n (
      sym e
      ∙ subst (λ k. network_node_state p k ≡ still_participating_delete) same (stuck_leaves p s))

  -- where nothing is in creation on the node, the loop over the pods in creation leaves it alone
  move_created-IsStuck :
      (lib : SliceLib) (entries : Dict (List String)) (p : ParticipatingSpec)
      → lookup node entries ≡ none
      → IsStuck node listed p
      → IsStuck node listed (move_created lib entries p)
  unfolding move_created lookup
  move_created-IsStuck lib [] p h s = s
  move_created-IsStuck lib ((j, fresh) ∷ entries) p h s = elim (Bool-cases (j == node)) [
    | inl t ↦ cc (rw t at h)
    | inr f ↦ move_created-IsStuck lib entries _ (rw f at h) (record {
      some_pods = s.some_pods;
      pods = at-insert j node _ p.pods ∙ rw f s.pods;
      terminating = s.terminating;
      creating = lookup-erase node j p.pods_creating ∙ rw f s.creating;
      active = s.active;
    })
  ]

  -- the round keeps the lists free of duplicates, and the node stuck
  record KeepsStuck (p q : ParticipatingSpec) : Type 0 where
    formed : IsWellFormed q
    stuck : IsStuck node listed p → IsStuck node listed q

  activate-IsStuck :
      (lib : SliceLib) (laws : IsSliceLib lib) (j : String) (p : ParticipatingSpec)
      → node ≢ j
      → IsStuck node listed p
      → IsStuck node listed (activate lib j p)
  unfolding activate
  activate-IsStuck lib laws j p n s =
      let (active, none_left, moved, others) = activate_lem lib laws j p in
      let (pods, creating, state) = others node n in
      record {
        some_pods = s.some_pods;
        pods = pods ∙ s.pods;
        terminating = s.terminating;
        creating = lookup-erase node j p.pods_creating ∙ ground (arith, s.creating);
        active = rw state s.active;
      }

  leave-IsStuck :
      (j : String) (p : ParticipatingSpec)
      → IsStuck node listed p
      → IsStuck node listed (leave j p).0
  leave-IsStuck j p s = elim (leave_lem j p) [
    | inl (state, left, rest) ↦
        let n : (j == node) ≡ false = elim (Bool-cases (j == node)) [
          | inl t ↦
              let eq = (==_iff j node).0 t in
              absurd (
                active-ne-terminating
                  (sym s.active ∙ subst (λ k. state_at p.nodes k ≡ state_terminating) eq state))
          | inr f ↦ f
        ] in
        let (nodes, pods, terminating) = rest node in
        record {
          some_pods = s.some_pods;
          pods = pods ∙ rw n s.pods;
          terminating = terminating ∙ rw n s.terminating;
          creating = rw (leave-creating j p) s.creating;
          active = rw (nodes, n) s.active;
        }
    | inr (m, same) ↦ rw same s
  ]

  remove_pods-IsStuck :
      (j : String) (p : ParticipatingSpec)
      → IsWellFormed p
      → node ≢ j
      → IsStuck node listed p
      → IsStuck node listed (remove_pods j (at p.pods_terminating j) p)
  remove_pods-IsStuck j p wf n s =
      let r = remove_pods-Removed j (at p.pods_terminating j) p (wf.pods j) in
      record {
        some_pods = s.some_pods;
        pods = r.others node n ∙ s.pods;
        terminating = remove_pods-elsewhere j (at p.pods_terminating j) p node n ∙ s.terminating;
        creating = rw r.creating s.creating;
        active = rw r.nodes s.active;
      }

  KeepsStuck-IsRound :
      (lib : SliceLib) (laws : IsSliceLib lib) → IsRound lib IsWellFormed KeepsStuck
  KeepsStuck-IsRound lib laws = record {
    invariant = λ p q wf k. k.formed;
    same = λ p wf. record { formed = wf; stuck = λ s. s };
    next = λ p q r k l. record { formed = l.formed; stuck = λ s. l.stuck (k.stuck s) };
    activates = λ j p wf e state. record {
      formed = activate-IsWellFormed lib laws j p wf;
      stuck = λ s. activate-IsStuck lib laws j p (differs p j new s e (λ x. cc)) s;
    };
    moves = λ j p wf e. record {
      formed = move_created-IsWellFormed lib laws p.pods_creating p wf;
      stuck = λ s. move_created-IsStuck lib p.pods_creating p s.creating s;
    };
    leaves = λ j p wf e. record { formed = leave-IsWellFormed j p wf; stuck = leave-IsStuck j p };
    removes = λ j p wf e. record {
      formed = remove_pods-IsWellFormed j (at p.pods_terminating j) p wf;
      stuck = λ s. remove_pods-IsStuck j p wf (differs p j deleted s e (λ x. cc)) s;
    };
  }

-- no pod is created or terminates on the node
abbrev pub elsewhere : String → Event → Bool
elsewhere node (created j a) = not (j == node)
elsewhere node (terminated j a) = not (j == node)
elsewhere node reconciled = true
elsewhere node components_changed = true

abbrev pub all_elsewhere : String → List Event → Bool
all_elsewhere node [] = true
all_elsewhere node (e ∷ es) = elsewhere node e && all_elsewhere node es

module _ (lib : SliceLib) (node : String) (listed : List String) where
  pod_created-IsStuck :
      (j pod : String) (p : ParticipatingSpec)
      → (j == node) ≡ false
      → IsStuck node listed p
      → IsStuck node listed (pod_created lib j pod p)
  unfolding pod_created
  pod_created-IsStuck j pod p n s = elim (Bool-cases (lib.has (at p.pods j) pod)) [
    | inl t ↦ rw t s
    | inr f ↦ rw f (record {
      some_pods = s.some_pods;
      pods = s.pods;
      terminating = s.terminating;
      creating = lookup-insert node j _ p.pods_creating ∙ rw n s.creating;
      active = state_elsewhere _ j node _ p.nodes (λ e. cc (==_refl node, e, n)) ∙ s.active;
    })
  ]

  pod_terminating-IsStuck :
      (j pod : String) (p : ParticipatingSpec)
      → (j == node) ≡ false
      → IsStuck node listed p
      → IsStuck node listed (pod_terminating lib j pod p)
  unfolding pod_terminating
  pod_terminating-IsStuck j pod p n s = record {
    some_pods = s.some_pods;
    pods = s.pods;
    terminating = at-insert j node _ p.pods_terminating ∙ rw n s.terminating;
    creating = s.creating;
    active = state_elsewhere _ j node _ p.nodes (λ e. cc (==_refl node, e, n)) ∙ s.active;
  }

module _ {W : Type 0} {F : Type 0} (jsm : Jsm W) (std : Std F) (lib : SliceLib)
    (laws : IsSliceLib lib) (retry : Retry W) (node : String) (listed : List String) where
  Step-IsStuck :
      {p q : ParticipatingSpec} {e : Event}
      → IsWellFormed p
      → IsStuck node listed p
      → Step jsm std lib retry p q e
      → elsewhere node e ≡ true
      → IsStuck node listed q
  Step-IsStuck {p} {q} wf s (creates j pod e) h =
      rw e (pod_created-IsStuck lib node listed j pod p (ground arith) s)
  Step-IsStuck {p} {q} wf s (terminates j pod e) h =
      rw e (pod_terminating-IsStuck lib node listed j pod p (ground arith) s)
  Step-IsStuck {p} {q} wf s (reconciles (round js nodes network work result w e run e2)) h =
      let keeps =
        reconcile_nodes-IsRound jsm std js lib retry (KeepsStuck-IsRound node listed lib laws) nodes
          network work result w (rw e at wf) run in
      rw e2 (keeps.stuck (rw e at s))
  Step-IsStuck {p} {q} wf s (changes_components components e) h = rw e (record {
    some_pods = s.some_pods;
    pods = s.pods;
    terminating = s.terminating;
    creating = s.creating;
    active = s.active;
  })

  -- A node that is stuck stays so, whatever happens on other nodes and however often the network is
  -- reconciled.
  pub Steps-IsStuck :
      {p : ParticipatingSpec} {es : List Event} {q : ParticipatingSpec}
      → Steps jsm std lib retry p es q
      → IsWellFormed p
      → IsStuck node listed p
      → all_elsewhere node es ≡ true
      → IsWellFormed q × IsStuck node listed q
  Steps-IsStuck no_step wf s h = (wf, s)
  Steps-IsStuck (then_step steps step) wf s h =
      let (formed, stuck) = Steps-IsStuck steps wf s (ground arith) in
      (
        (Step-Spec jsm std lib laws retry formed step).0,
        Step-IsStuck formed stuck step (ground arith),
      )
