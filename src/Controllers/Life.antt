-- ===== src/Controllers/Life.antt =====
-- The pod controller and the network controller together: the histories of a network's
-- `Info.Participating`, in which pods are created and terminate on nodes (pod_controller.go), the network
-- is reconciled (`reconcileJetstreams` of network_controller.go), and components join and leave
-- (participants_controller.go, and `reconcileCreateNetwork` for anck's own), in any order.
pub mod Refinement
pub mod Stuck
pub mod Early
pub mod Settles
pub mod Visited
pub mod Interleaved
use anck.Prelude.{String, Bool, List, [], ◌∷◌, ◌++◌, ◌≡◌}
use anck.Prelude.Dict.{Dict}
use anck.Prelude.Exec.{ok}
use anck.Api.{Network, ParticipatingSpec}
use anck.Jetstreams.Duration.{Std}
use anck.Jetstreams.Jsm.{Jsm}
use anck.Jetstreams.Controller.{JetstreamController}
use anck.Controllers.SliceLib.{SliceLib}
use anck.Controllers.Participating.{pod_created, pod_terminating}
use anck.Controllers.NodeStreams.{Retry, Work, reconcile_nodes}

-- what happens to a network: a pod is created or terminates on a node, the network is reconciled, or its
-- components change
pub data Event : Type 0 where
  created terminated : String → String → Event
  reconciled components_changed : Event

-- the status of a network that was just created
abbrev pub no_participants : ParticipatingSpec
no_participants = record {
  nodes = [];
  pods = [];
  pods_creating = [];
  pods_terminating = [];
  components = [];
}

module _ {W : Type 0} {F : Type 0} (jsm : Jsm W) (std : Std F) (lib : SliceLib)
    (retry : Retry W) where
  -- A reconciliation visits any nodes, in any world and with any connection, and counts where it returns;
  -- `work` holds what it starts with beside the status.
  pub data Reconciles (p q : ParticipatingSpec) : Type 0 where
    round :
        (js : JetstreamController) (nodes : List String) (network : Network) (work result : Work)
        (w : W)
        → p ≡ work.participating
        → (reconcile_nodes jsm std js lib retry nodes network work w).0 ≡ ok result
        → q ≡ result.participating
        → Reconciles p q

  pub data Step (p q : ParticipatingSpec) : Event → Type 0 where
    creates : (node pod : String) → q ≡ pod_created lib node pod p → Step p q (created node pod)
    terminates :
        (node pod : String) → q ≡ pod_terminating lib node pod p → Step p q (terminated node pod)
    reconciles : Reconciles p q → Step p q reconciled
    -- `addParticipant`, `removeParticipant`, and the entry that `reconcileCreateNetwork` makes
    changes_components :
        (components : Dict String)
        → q ≡ record p { components = components }
        → Step p q components_changed

  -- what happens one after the other, the latest event first
  pub data Steps (p : ParticipatingSpec) : List Event → ParticipatingSpec → Type 0 where
    no_step : Steps p [] p
    then_step :
        {es : List Event} {q r : ParticipatingSpec} {e : Event}
        → Steps p es q
        → Step q r e
        → Steps p (e ∷ es) r

  -- a history, the latest event first, and the status that it leads to
  pub data Run : List Event → ParticipatingSpec → Type 0 where
    start : Run [] no_participants
    next :
        {es : List Event} {p q : ParticipatingSpec} {e : Event}
        → Run es p
        → Step p q e
        → Run (e ∷ es) q

  -- a history goes on
  pub Run-Steps :
      {es : List Event} {p : ParticipatingSpec} {fs : List Event} {q : ParticipatingSpec}
      → Run es p
      → Steps p fs q
      → Run (fs ++ es) q
  Run-Steps run no_step = run
  Run-Steps run (then_step steps step) = next (Run-Steps run steps) step
