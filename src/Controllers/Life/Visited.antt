-- ===== src/Controllers/Life/Visited.antt =====
-- The reconciler, which ranges over the nodes that have a state, visits every node that has a pod.
use anck.Prelude.{String, true, List, string_eq, ◌≡◌, ◌∙◌, contains}
use anck.Prelude.Dict.{lookup, keys, contains-keys}
use anck.Api.{ParticipatingSpec}
use anck.Jetstreams.Duration.{Std}
use anck.Jetstreams.Jsm.{Jsm}
use anck.Controllers.SliceLib.{SliceLib, IsSliceLib}
use anck.Controllers.Participating.{at}
use anck.Controllers.Participating.Invariant.{
  IsWellFormed, remove_pods-IsWellFormed, leave-IsWellFormed, activate-IsWellFormed,
  move_created-IsWellFormed,
}
use anck.Controllers.Participating.Kept.{present}
use anck.Controllers.NodeStreams.{Retry}
use anck.Controllers.NodeStreams.Rounds.{IsRound, reconcile_nodes-IsRound}
use anck.Controllers.Life.{
  Event, Run, start, next, Step, creates, terminates, reconciles, changes_components, round,
}
use anck.Controllers.Life.Refinement.{Run-SpecRun}
use anck.Controllers.Participating.Visited.{
  IsVisited, activate-IsVisited, move_all-IsVisited, pod_created-IsVisited,
  pod_terminating-IsVisited, remove_pods-IsVisited, leave-IsVisited,
}

-- The round keeps the lists free of duplicates, and visited nodes visited.
record Visits (p q : ParticipatingSpec) : Type 0 where
  formed : IsWellFormed q
  visited : IsVisited p → IsVisited q

Visits-IsRound : (lib : SliceLib) (laws : IsSliceLib lib) → IsRound lib IsWellFormed Visits
Visits-IsRound lib laws = record {
  invariant = λ p q wf s. s.formed;
  same = λ p wf. record { formed = wf; visited = λ v. v };
  next = λ p q r s t. record { formed = t.formed; visited = λ v. t.visited (s.visited v) };
  activates = λ node p wf e s. record {
    formed = activate-IsWellFormed lib laws node p wf;
    visited = activate-IsVisited lib laws node p;
  };
  moves = λ node p wf e. record {
    formed = move_created-IsWellFormed lib laws p.pods_creating p wf;
    visited = move_all-IsVisited lib laws p wf;
  };
  leaves = λ node p wf e. record {
    formed = leave-IsWellFormed node p wf;
    visited = leave-IsVisited node p e;
  };
  removes = λ node p wf e. record {
    formed = remove_pods-IsWellFormed node (at p.pods_terminating node) p wf;
    visited = remove_pods-IsVisited node p wf;
  };
}

module _ {W : Type 0} {F : Type 0} (jsm : Jsm W) (std : Std F) (lib : SliceLib)
    (laws : IsSliceLib lib) (retry : Retry W) where
  Step-IsVisited :
      {p q : ParticipatingSpec} {e : Event}
      → IsWellFormed p
      → IsVisited p
      → Step jsm std lib retry p q e
      → IsVisited q
  Step-IsVisited {p} {q} wf v (creates node pod e) =
      rw e (pod_created-IsVisited lib laws node pod p v)
  Step-IsVisited {p} {q} wf v (terminates node pod e) =
      rw e (pod_terminating-IsVisited lib laws node pod p v)
  Step-IsVisited {p} {q} wf v (reconciles (round js nodes network work result w e run e2)) =
      let visits =
        reconcile_nodes-IsRound jsm std js lib retry (Visits-IsRound lib laws) nodes network work
          result w (rw e at wf) run in
      rw e2 (visits.visited (rw e at v))
  Step-IsVisited {p} {q} wf v (changes_components components e) = rw e v

  Run-IsVisited :
      {es : List Event} {p : ParticipatingSpec} → Run jsm std lib retry es p → IsVisited p
  unfolding lookup
  Run-IsVisited start = λ j a h. cc
  Run-IsVisited (next run step) =
      Step-IsVisited (Run-SpecRun jsm std lib laws retry run).0 (Run-IsVisited run) step

  -- After every history, each node that has a pod, or a pod in creation, is among the nodes that the
  -- reconciliation of the network ranges over.
  pub Run-visits :
      (node pod : String) {es : List Event} {p : ParticipatingSpec}
      → Run jsm std lib retry es p
      → present p node pod ≡ true
      → contains (keys p.nodes) node ≡ true
  Run-visits node pod {es} {p} run h = contains-keys node p.nodes ∙ Run-IsVisited run node pod h
