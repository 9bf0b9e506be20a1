-- ===== src/Controllers/NodeStreams/Laws.antt =====
-- What the loop over the nodes does to the pods of a network.
use anck.Prelude.{String, List, ◌≡◌}
use anck.Prelude.Exec.{ok}
use anck.Api.{Network, ParticipatingSpec}
use anck.Jetstreams.Duration.{Std}
use anck.Jetstreams.Jsm.{Jsm}
use anck.Jetstreams.Controller.{JetstreamController}
use anck.Controllers.SliceLib.{SliceLib, IsSliceLib}
use anck.Controllers.Participating.{at}
use anck.Controllers.Participating.Invariant.{
  IsWellFormed, remove_pods-IsWellFormed, leave-IsWellFormed, activate-IsWellFormed,
  move_created-IsWellFormed,
}
use anck.Controllers.Participating.Kept.{
  Kept, Kept-refl, Kept-trans, move_all-Kept, activate-Kept, remove_pods-Kept, leave-Kept,
}
use anck.Controllers.Participating.Roster.{
  Tidies, Tidies-refl, Tidied-trans, move_all-Tidies, activate-Tidies, remove_pods-Tidies,
  leave-Tidies,
}
use anck.Controllers.NodeStreams.{Retry, Work, reconcile_nodes}
use anck.Controllers.NodeStreams.Rounds.{IsRound, reconcile_nodes-IsRound}

-- The lists of pods stay free of duplicates, no pod is lost, and none but the leaving ones changes.
pub record Safe (p q : ParticipatingSpec) : Type 0 where
  pub formed : IsWellFormed q
  pub kept : Kept p q
  pub tidied : Tidies p q

Safe-IsRound : (lib : SliceLib) (laws : IsSliceLib lib) → IsRound lib IsWellFormed Safe
Safe-IsRound lib laws = record {
  invariant = λ p q wf s. s.formed;
  same = λ p wf. record { formed = wf; kept = Kept-refl p; tidied = Tidies-refl p };
  next = λ p q r s t. record {
    formed = t.formed;
    kept = Kept-trans s.kept t.kept;
    tidied = λ j a. Tidied-trans (s.tidied j a) (t.tidied j a);
  };
  activates = λ node p wf e s. record {
    formed = activate-IsWellFormed lib laws node p wf;
    kept = activate-Kept lib laws node p;
    tidied = activate-Tidies lib laws node p;
  };
  moves = λ node p wf e. record {
    formed = move_created-IsWellFormed lib laws p.pods_creating p wf;
    kept = move_all-Kept lib laws p wf;
    tidied = move_all-Tidies lib laws p wf;
  };
  leaves = λ node p wf e. record {
    formed = leave-IsWellFormed node p wf;
    kept = leave-Kept node p e;
    tidied = leave-Tidies node p e;
  };
  removes = λ node p wf e. record {
    formed = remove_pods-IsWellFormed node (at p.pods_terminating node) p wf;
    kept = remove_pods-Kept node p wf;
    tidied = remove_pods-Tidies node p wf e;
  };
}

module _ {W : Type 0} {F : Type 0} (jsm : Jsm W) (std : Std F) (js : JetstreamController)
    (lib : SliceLib) (laws : IsSliceLib lib) (retry : Retry W) where
  -- One round over the nodes of a network that returns, whichever nodes and in whatever order: no pod
  -- is listed twice at a node, in any of the three lists, if none was before (and the map of the pods
  -- in creation has each node once); every pod that was in creation or there still is, unless it was
  -- terminating; no pod starts to terminate; no pod appears; and a pod that was terminating still is, or
  -- it is neither there nor in creation any more.
  pub reconcile_nodes-Safe :
      (nodes : List String) (network : Network) (work result : Work) (w : W)
      → IsWellFormed work.participating
      → (reconcile_nodes jsm std js lib retry nodes network work w).0 ≡ ok result
      → Safe work.participating result.participating
  reconcile_nodes-Safe = reconcile_nodes-IsRound jsm std js lib retry (Safe-IsRound lib laws)
