-- ===== src/Controllers/Participating/Visited.antt =====
-- Every node that has a pod has a state, through each change to a network's pods.
use anck.Prelude.{
  String, true, false, not, ◌&&◌, ◌||◌, none, List, [], ◌∷◌, ◌++◌, if◌then◌else◌, ◌==◌, string_eq,
  ◌≡◌, ◌≢◌, refl, ap, ◌∙◌, subst, contains, length, leb, arith, Bool-cases, inl, inr, ==_iff,
  ==_refl,
}
use anck.Prelude.Dict.{Dict, lookup, insert, has_key, lookup-insert}
use anck.Api.{ParticipatingSpec}
use anck.Controllers.SliceLib.{SliceLib, IsSliceLib}
use anck.Controllers.Participating.{
  still_participating_delete, at, state_at, state_pending, state_active, state_terminating,
  network_node_state, remove_pods, leave, activate, move_all, pod_created, pod_terminating,
}
use anck.Controllers.Participating.Invariant.{IsWellFormed}
use anck.Controllers.Participating.Kept.{present, leave-creating}
use anck.Controllers.Participating.Moves.{
  at-insert, remove_pods-Removed, leave_lem, activate_lem, move_all_lem,
}
use anck.Controllers.Participating.Pending.{network_node_state_iff}
use anck.Controllers.Participating.PodEvents.{contains-added}

pub listed_key : (d : Dict (List String)) (node : String) → at d node ≢ [] → has_key node d ≡ true
listed_key d node h = ground arith

pub stated_key : (d : Dict String) (node : String) → state_at d node ≢ "" → has_key node d ≡ true
stated_key d node h = ground arith

-- every node that has a pod, or one in creation, has a state
abbrev pub IsVisited : ParticipatingSpec → Type 0
IsVisited p = (node pod : String) → present p node pod ≡ true → has_key node p.nodes ≡ true

has_key-insert :
    (j k v : String) (d : Dict String) → has_key j (insert k v d) ≡ ((k == j) || has_key j d)
has_key-insert j k v d = ground (arith, lookup-insert j k v d)

some_length : (xs : List String) (a : String) → contains xs a ≡ true → leb 1 (length xs) ≡ true
some_length [] a h = cc
some_length (x ∷ xs) a h = ground arith

is_active :
    (node : String) (nodes : Dict String)
    → (state_at nodes node == state_active) ≡ true
    → state_at nodes node ≢ ""
is_active node nodes e n = cc ((==_iff (state_at nodes node) state_active).0 e)

module _ (lib : SliceLib) (laws : IsSliceLib lib) where
  pub activate-IsVisited :
      (node : String) (p : ParticipatingSpec) → IsVisited p → IsVisited (activate lib node p)
  unfolding activate
  activate-IsVisited node p v j a h =
      let (active, none_left, moved, others) = activate_lem lib laws node p in
      elim (Bool-cases (node == j)) [
        | inl t ↦ ground (arith, has_key-insert j node state_active p.nodes)
        | inr f ↦
            let (pods, creating, state) = others j (ground arith) in
            ground (
              arith,
              has_key-insert j node state_active p.nodes,
              v j a,
              ap (λ l. contains l a) pods,
              ap (λ l. contains l a) creating,
            )
      ]

  pub move_all-IsVisited :
      (p : ParticipatingSpec) → IsWellFormed p → IsVisited p → IsVisited (move_all lib p)
  move_all-IsVisited p wf v j a h =
      let (moved, none_left, nodes, same) = move_all_lem lib laws p j wf.nodes_once in
      ground (arith, moved a, v j a, ap (λ d. has_key j d) nodes)

  -- the state of a node with a pod in creation, and of another one
  here :
      (node j : String) (creating : List String) (nodes : Dict String)
      → node ≡ j
      → leb 1 (length creating) ≡ true
      → has_key j (
          if not (state_at nodes node == state_active) && leb 1 (length creating)
          then insert node state_pending nodes
          else nodes)
        ≡ true
  here node j creating nodes e h =
      subst
        (λ k.
          has_key k (
            if not (state_at nodes node == state_active) && leb 1 (length creating)
            then insert node state_pending nodes
            else nodes)
          ≡ true)
        e
        (elim (Bool-cases (state_at nodes node == state_active)) [
          | inl t ↦ rw t (stated_key nodes node (is_active node nodes t))
          | inr f ↦
              rw (f, h) (has_key-insert node node state_pending nodes ∙ rw (==_refl node) refl)
        ])

  elsewhere :
      (node j : String) (creating : List String) (nodes : Dict String)
      → has_key j nodes ≡ true
      → has_key j (
          if not (state_at nodes node == state_active) && leb 1 (length creating)
          then insert node state_pending nodes
          else nodes)
        ≡ true
  elsewhere node j creating nodes h =
      elim (Bool-cases (not (state_at nodes node == state_active) && leb 1 (length creating))) [
        | inl t ↦ rw t (has_key-insert j node state_pending nodes ∙ ground arith)
        | inr f ↦ rw f h
      ]

  pub pod_created-IsVisited :
      (node pod : String) (p : ParticipatingSpec)
      → IsVisited p
      → IsVisited (pod_created lib node pod p)
  unfolding pod_created
  pod_created-IsVisited node pod p v = elim (Bool-cases (lib.has (at p.pods node) pod)) [
    | inl t ↦ rw t v
    | inr f ↦ rw f (λ j a h.
        let creating : List String = lib.unique (at p.pods_creating node ++ pod ∷ []) in
        let some_one = some_length creating pod (
          contains-added lib laws (at p.pods_creating node) pod pod
          ∙ ground (arith, ==_refl pod)) in
        elim (Bool-cases (node == j)) [
          | inl t ↦ here node j creating p.nodes ((==_iff node j).0 t) some_one
          | inr n ↦
              elsewhere node j creating p.nodes
                (v j a (ground (arith, at-insert node j creating p.pods_creating)))
        ])
  ]

  pub pod_terminating-IsVisited :
      (node pod : String) (p : ParticipatingSpec)
      → IsVisited p
      → IsVisited (pod_terminating lib node pod p)
  unfolding pod_terminating
  pod_terminating-IsVisited node pod p v j a h =
      ground (arith, v j a h, has_key-insert j node state_terminating p.nodes)

pub remove_pods-IsVisited :
    (node : String) (p : ParticipatingSpec)
    → IsWellFormed p
    → IsVisited p
    → IsVisited (remove_pods node (at p.pods_terminating node) p)
remove_pods-IsVisited node p wf v j a h =
    let r = remove_pods-Removed node (at p.pods_terminating node) p (wf.pods node) in
    let before : present p j a ≡ true = elim (Bool-cases (j == node)) [
      | inl t ↦
          let eq : j ≡ node = (==_iff j node).0 t in
          ground (
            arith,
            r.left a,
            ap (λ k. present p k a) eq,
            ap (λ k. present (remove_pods node (at p.pods_terminating node) p) k a) eq,
            ap (λ m. contains (at m node) a) r.creating,
          )
      | inr f ↦ ground (
        arith,
        ap (λ l. contains l a) (r.others j (ground arith)),
        ap (λ m. contains (at m j) a) r.creating,
      )
    ] in
    ap (λ d. has_key j d) r.nodes ∙ v j a before

gone :
    (q : ParticipatingSpec) (j a : String)
    → at q.pods j ≡ []
    → at q.pods_creating j ≡ []
    → present q j a ≡ true
    → false ≡ true
gone q j a x y h = ground (arith, ap (λ l. contains l a) x, ap (λ l. contains l a) y)

kept_key :
    (node : String) (d e : Dict String) (j : String)
    → lookup j e ≡ (if node == j then none else lookup j d)
    → (node == j) ≡ false
    → has_key j d ≡ true
    → has_key j e ≡ true
kept_key node d e j x f h = ground arith

pub leave-IsVisited :
    (node : String) (p : ParticipatingSpec)
    → network_node_state p node ≡ still_participating_delete
    → IsVisited p
    → IsVisited (leave node p).0
leave-IsVisited node p h v =
    let (none_new, some_pods, n, m) = (network_node_state_iff p node).0.0 h in
    elim (leave_lem node p) [
      | inl (state, left, at_node) ↦ λ j a e.
          let (nodes, pods, terminating) = at_node j in
          elim (Bool-cases (node == j)) [
            | inl t ↦
                let eq : node ≡ j = (==_iff node j).0 t in
                cc (
                  gone (leave node p).0 j a (rw t at pods)
                    (ap (λ d. at d j) (leave-creating node p)
                      ∙ subst (λ k. at p.pods_creating k ≡ []) eq none_new)
                    e)
            | inr f ↦ kept_key node p.nodes (leave node p).0.nodes j nodes f (
                v j a (
                  ground (
                    arith,
                    ap (λ l. contains l a) pods,
                    ap (λ d. contains (at d j) a) (leave-creating node p),
                  )))
          ]
      | inr (state, eq) ↦ rw eq v
    ]
