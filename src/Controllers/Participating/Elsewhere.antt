-- ===== src/Controllers/Participating/Elsewhere.antt =====
-- What the pod handlers do to a node that they are not about.
use anck.Prelude.{
  String, Bool, List, if◌then◌else◌, string_eq, ◌≡◌, ◌≢◌, refl, ◌∙◌, arith, Bool-cases, inl, inr,
}
use anck.Prelude.Dict.{Dict, insert, lookup-insert}
use anck.Api.{ParticipatingSpec}
use anck.Controllers.SliceLib.{SliceLib}
use anck.Controllers.Participating.{at, state_at, network_node_state, pod_created, pod_terminating}
use anck.Controllers.Participating.Moves.{at-insert}

same_lists :
    (p q : ParticipatingSpec) (j : String)
    → at q.pods j ≡ at p.pods j
    → at q.pods_creating j ≡ at p.pods_creating j
    → at q.pods_terminating j ≡ at p.pods_terminating j
    → network_node_state q j ≡ network_node_state p j
unfolding network_node_state
same_lists p q j a b c = rw (a, b, c) refl

pub state_elsewhere :
    (test : Bool) (node j state : String) (m : Dict String)
    → j ≢ node
    → state_at (if test then insert node state m else m) j ≡ state_at m j
state_elsewhere test node j state m n = ground (arith, lookup-insert j node state m)

list_elsewhere :
    (node j : String) (xs : List String) (m : Dict (List String))
    → j ≢ node
    → at (insert node xs m) j ≡ at m j
list_elsewhere node j xs m n = at-insert node j xs m ∙ ground arith

module _ (lib : SliceLib) where
  -- A pod that is created or that terminates on a node changes neither the state of another node nor the
  -- case in which the reconciler finds it; so a pod that was listed under `main` when it was created, and
  -- under its node's name when it is deleted, does not make `main` leave.
  pub pod_elsewhere :
      (node pod j : String) (p : ParticipatingSpec)
      → j ≢ node
      → (network_node_state (pod_created lib node pod p) j ≡ network_node_state p j)
        × (state_at (pod_created lib node pod p).nodes j ≡ state_at p.nodes j)
        × (network_node_state (pod_terminating lib node pod p) j ≡ network_node_state p j)
        × (state_at (pod_terminating lib node pod p).nodes j ≡ state_at p.nodes j)
  unfolding pod_created pod_terminating
  pod_elsewhere node pod j p n =
      let terminating =
        same_lists p (pod_terminating lib node pod p) j refl refl
          (list_elsewhere node j _ p.pods_terminating n) in
      elim (Bool-cases (lib.has (at p.pods node) pod)) [
        | inl t ↦ rw t (refl, refl, terminating, state_elsewhere _ node j _ p.nodes n)
        | inr f ↦
            let created =
              same_lists p (pod_created lib node pod p) j (rw f refl)
                (rw f (list_elsewhere node j _ p.pods_creating n)) (rw f refl) in
            (
              created,
              rw f (state_elsewhere _ node j _ p.nodes n),
              terminating,
              state_elsewhere _ node j _ p.nodes n,
            )
      ]
