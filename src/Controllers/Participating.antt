-- ===== src/Controllers/Participating.antt =====
-- The nodes and pods of a network: `networkNodeState` and what the cases of `reconcileJetstreams`
-- (controllers/network/network_controller.go) and the pod handlers (pod_controller.go) do to
-- `network.Info.Participating`.
pub mod Moves
pub mod Pending
pub mod Invariant
pub mod Kept
pub mod Elsewhere
pub mod Roster
pub mod PodEvents
pub mod Visited
use anck.Prelude.{
  ℕ, suc, String, Bool, true, false, not, ◌&&◌, ◌||◌, Option, none, some, List, [], ◌∷◌, ◌++◌,
  if◌then◌else◌, ◌==◌, string_eq, contains, length, is_empty, leb, nat_eq, remove_first,
}
use anck.Prelude.Dict.{Dict, lookup, insert, erase, or_zero}
use anck.Common.Slice.{slice_equal}
use anck.Api.{ParticipatingSpec}
use anck.Controllers.SliceLib.{SliceLib}

-- `nodeNetworkStateType`
pub data NodeNetworkState : Type 0 where
  new still_participating_create still_participating_delete deleted invalid : NodeNetworkState

abbrev pub state_pending : String
state_pending = "pending"

abbrev pub state_active : String
state_active = "active"

abbrev pub state_terminating : String
state_terminating = "terminating"

-- `m[node]`: the empty slice, or the empty text, for a node that is not there
abbrev pub at : Dict (List String) → String → List String
at m node = or_zero [] (lookup node m)

abbrev pub state_at : Dict String → String → String
state_at m node = or_zero "" (lookup node m)

-- `networkNodeState`
unfoldable pub network_node_state : ParticipatingSpec → String → NodeNetworkState
network_node_state p node =
    let creating = at p.pods_creating node in
    let pods = at p.pods node in
    let terminating = at p.pods_terminating node in
    if leb 1 (length creating) && nat_eq (length pods) 0
    then new
    else if leb 1 (length creating) && leb 1 (length pods)
    then still_participating_create
    else if slice_equal terminating pods && leb 1 (length pods)
    then still_participating_delete
    else if leb 1 (length terminating)
    then deleted
    else invalid

-- case `deleted`: the loop over the terminating pods
unfoldable pub remove_pods : String → List String → ParticipatingSpec → ParticipatingSpec
remove_pods node [] p = p
remove_pods node (pod ∷ terminating) p = remove_pods node terminating (record p {
  pods =
      if contains (at p.pods node) pod
      then insert node (remove_first pod (at p.pods node)) p.pods
      else p.pods;
  pods_terminating = erase node p.pods_terminating;
})

-- case `stillPartitipatingDelete`; whether the node has left, too
unfoldable pub leave : String → ParticipatingSpec → ParticipatingSpec × Bool
leave node p =
    if state_at p.nodes node == state_terminating
    then (
      record p {
        pods = erase node p.pods;
        nodes = erase node p.nodes;
        pods_terminating = erase node p.pods_terminating;
      },
      true,
    )
    else (p, false)

module _ (lib : SliceLib) where
  -- case `new`, after the streams were created
  unfoldable pub activate : String → ParticipatingSpec → ParticipatingSpec
  activate node p = record p {
    nodes = insert node state_active p.nodes;
    pods = insert node (lib.unique (at p.pods node ++ at p.pods_creating node)) p.pods;
    pods_creating = erase node p.pods_creating;
  }

  -- case `stillPartitipatingCreate`: the loop over all nodes with pods in creation
  unfoldable pub move_created : List (String × List String) → ParticipatingSpec → ParticipatingSpec
  move_created [] p = p
  move_created ((node, pods) ∷ entries) p = move_created entries (record p {
    pods = insert node (lib.unique (at p.pods node ++ pods)) p.pods;
    pods_creating = erase node p.pods_creating;
  })

  abbrev pub move_all : ParticipatingSpec → ParticipatingSpec
  move_all p = move_created p.pods_creating p

  -- `reconcileCreatePod` on one network: a pod that is not there yet is in creation, and its node is
  -- pending unless it is active
  unfoldable pub pod_created : String → String → ParticipatingSpec → ParticipatingSpec
  pod_created node pod p =
      if lib.has (at p.pods node) pod
      then p
      else (let creating = lib.unique (at p.pods_creating node ++ pod ∷ []) in
          record p {
            pods_creating = insert node creating p.pods_creating;
            nodes =
                if not (state_at p.nodes node == state_active) && leb 1 (length creating)
                then insert node state_pending p.nodes
                else p.nodes;
          })

  -- `reconcileDeletePod` on one network: the pod is terminating, and with the last pods of the node the
  -- node is, unless the pod is still in creation there
  unfoldable pub pod_terminating : String → String → ParticipatingSpec → ParticipatingSpec
  pod_terminating node pod p =
      let terminating = lib.unique (at p.pods_terminating node ++ pod ∷ []) in
      record p {
        pods_terminating = insert node terminating p.pods_terminating;
        nodes =
            if slice_equal terminating (at p.pods node)
              && not (lib.has (at p.pods_creating node) pod)
            then insert node state_terminating p.nodes
            else p.nodes;
      }
