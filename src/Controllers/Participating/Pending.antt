-- ===== src/Controllers/Participating/Pending.antt =====
-- What `networkNodeState` says of a node, and the nodes that the move of another node's pods leaves
-- pending.
use anck.Prelude.{
  String, Bool, true, ◌&&◌, List, [], ◌∷◌, if◌then◌else◌, string_eq, ◌≡◌, ◌≢◌, ◌↔◌, refl, sym, ◌∙◌,
  contains, length, IsNodup, arith, leb, nat_eq,
}
use anck.Prelude.Dict.{keys}
use anck.Common.Slice.{slice_equal}
use anck.Common.Slice.Laws.{slice_equal_iff}
use anck.Api.{ParticipatingSpec}
use anck.Controllers.SliceLib.{SliceLib, IsSliceLib}
use anck.Controllers.Participating.{
  NodeNetworkState, new, still_participating_create, still_participating_delete, deleted, invalid,
  at, state_at, state_pending, network_node_state, move_all,
}
use anck.Controllers.Participating.Moves.{move_all_lem}

-- the decision on the three lists
abbrev decided : List String → List String → List String → Bool → NodeNetworkState
decided [] [] [] same = invalid
decided [] [] (t ∷ ts) same = deleted
decided [] (x ∷ xs) [] same = if same then still_participating_delete else invalid
decided [] (x ∷ xs) (t ∷ ts) same = if same then still_participating_delete else deleted
decided (c ∷ cs) [] ts same = new
decided (c ∷ cs) (x ∷ xs) ts same = still_participating_create

state-eq-decided :
    (p : ParticipatingSpec) (node : String)
    → network_node_state p node
      ≡ decided
          (at p.pods_creating node)
          (at p.pods node)
          (at p.pods_terminating node)
          (slice_equal (at p.pods_terminating node) (at p.pods node))
unfolding network_node_state
state-eq-decided p node =
    go (at p.pods_creating node) (at p.pods node) (at p.pods_terminating node)
      (slice_equal (at p.pods_terminating node) (at p.pods node))
  where
    go :
        (cs xs ts : List String) (same : Bool)
        → (if leb 1 (length cs) && nat_eq (length xs) 0
            then new
            else if leb 1 (length cs) && leb 1 (length xs)
            then still_participating_create
            else if same && leb 1 (length xs)
            then still_participating_delete
            else if leb 1 (length ts)
            then deleted
            else invalid)
          ≡ decided cs xs ts same
    go [] [] [] same = ground arith
    go [] [] (t ∷ ts) same = ground arith
    go [] (x ∷ xs) [] same = ground arith
    go [] (x ∷ xs) (t ∷ ts) same = ground arith
    go (c ∷ cs) [] ts same = ground arith
    go (c ∷ cs) (x ∷ xs) ts same = ground arith

leaving_iff :
    (cs xs ts : List String) (same : Bool)
    → (decided cs xs ts same ≡ still_participating_delete) ↔ ((cs ≡ []) × (xs ≢ []) × (same ≡ true))
leaving_iff [] [] [] same = ground arith
leaving_iff [] [] (t ∷ ts) same = ground arith
leaving_iff [] (x ∷ xs) [] same = ground arith
leaving_iff [] (x ∷ xs) (t ∷ ts) same = ground arith
leaving_iff (c ∷ cs) [] ts same = ground arith
leaving_iff (c ∷ cs) (x ∷ xs) ts same = ground arith

new_iff :
    (cs xs ts : List String) (same : Bool) → (decided cs xs ts same ≡ new) ↔ ((cs ≢ []) × (xs ≡ []))
new_iff [] [] [] same = ground arith
new_iff [] [] (t ∷ ts) same = ground arith
new_iff [] (x ∷ xs) [] same = ground arith
new_iff [] (x ∷ xs) (t ∷ ts) same = ground arith
new_iff (c ∷ cs) [] ts same = ground arith
new_iff (c ∷ cs) (x ∷ xs) ts same = ground arith

removes_creating :
    (cs xs ts : List String) (same : Bool) → decided cs xs ts same ≡ deleted → cs ≡ []
removes_creating [] xs ts same h = refl
removes_creating (c ∷ cs) [] ts same h = cc
removes_creating (c ∷ cs) (x ∷ xs) ts same h = cc

-- A node whose terminating pods are taken away has no pods in creation.
pub deleted_creating :
    (p : ParticipatingSpec) (node : String)
    → network_node_state p node ≡ deleted
    → at p.pods_creating node ≡ []
deleted_creating p node h = removes_creating _ _ _ _ (sym (state-eq-decided p node) ∙ h)

removes_terminating :
    (cs xs ts : List String) (same : Bool) → decided cs xs ts same ≡ deleted → ts ≢ []
removes_terminating [] [] [] same h e = cc
removes_terminating [] [] (t ∷ ts) same h e = cc
removes_terminating [] (x ∷ xs) [] same h e = ground arith
removes_terminating [] (x ∷ xs) (t ∷ ts) same h e = cc
removes_terminating (c ∷ cs) [] ts same h e = cc
removes_terminating (c ∷ cs) (x ∷ xs) ts same h e = cc

-- It has terminating pods.
pub deleted_terminating :
    (p : ParticipatingSpec) (node : String)
    → network_node_state p node ≡ deleted
    → at p.pods_terminating node ≢ []
deleted_terminating p node h = removes_terminating _ _ _ _ (sym (state-eq-decided p node) ∙ h)

moves_creating :
    (cs xs ts : List String) (same : Bool)
    → decided cs xs ts same ≡ still_participating_create
    → cs ≢ []
moves_creating [] [] [] same h e = cc
moves_creating [] [] (t ∷ ts) same h e = cc
moves_creating [] (x ∷ xs) [] same h e = ground arith
moves_creating [] (x ∷ xs) (t ∷ ts) same h e = ground arith
moves_creating (c ∷ cs) xs ts same h e = cc

-- A node whose pods are moved has pods in creation.
pub create_creating :
    (p : ParticipatingSpec) (node : String)
    → network_node_state p node ≡ still_participating_create
    → at p.pods_creating node ≢ []
create_creating p node h = moves_creating _ _ _ _ (sym (state-eq-decided p node) ∙ h)

invalid_of_empty : (xs : List String) → decided [] xs [] (slice_equal [] xs) ≡ invalid
unfolding slice_equal
invalid_of_empty [] = refl
invalid_of_empty (x ∷ xs) = ground arith

-- A node is leaving exactly if none of its pods is in creation, it has pods, and the terminating pods are
-- as many as they are and the same ones; it is new exactly if it has pods in creation and no others.
pub network_node_state_iff :
    (p : ParticipatingSpec) (node : String)
    → ((network_node_state p node ≡ still_participating_delete) ↔ (
        (at p.pods_creating node ≡ [])
        × (at p.pods node ≢ [])
        × (length (at p.pods_terminating node) ≡ length (at p.pods node))
        × ((a : String) → contains (at p.pods_terminating node) a ≡ contains (at p.pods node) a)))
      × ((network_node_state p node ≡ new)
          ↔ ((at p.pods_creating node ≢ []) × (at p.pods node ≡ [])))
network_node_state_iff p node =
    let cs : List String = at p.pods_creating node in
    let xs : List String = at p.pods node in
    let ts : List String = at p.pods_terminating node in
    let e = state-eq-decided p node in
    let same = slice_equal_iff ts xs in
    let leaving = leaving_iff cs xs ts (slice_equal ts xs) in
    let fresh = new_iff cs xs ts (slice_equal ts xs) in
    (
      (
        λ h.
            let (none_new, some_pods, eq) = leaving.0 (sym e ∙ h) in
            (none_new, some_pods, (same.0 eq).0, (same.0 eq).1),
        λ (none_new, some_pods, n, m). e ∙ leaving.1 (none_new, some_pods, same.1 (n, m)),
      ),
      (λ h. fresh.0 (sym e ∙ h), λ h. e ∙ fresh.1 h),
    )

-- A pending node that waits for its streams, and that has no terminating pods, stays pending when the
-- pods of another node are moved, but with no pod in creation: it is then in no state that the
-- reconciler acts on, and its streams are not created. (The map of the pods in creation has each node
-- once.)
pub pending_node_is_stuck :
    (lib : SliceLib) (laws : IsSliceLib lib) (p : ParticipatingSpec) (node : String)
    → IsNodup (keys p.pods_creating)
    → network_node_state p node ≡ new
    → state_at p.nodes node ≡ state_pending
    → at p.pods_terminating node ≡ []
    → (state_at (move_all lib p).nodes node ≡ state_pending)
      × (network_node_state (move_all lib p) node ≡ invalid)
pending_node_is_stuck lib laws p node h n s t =
    let (contents, none_left, same_nodes, same_ts) = move_all_lem lib laws p node h in
    (
      rw same_nodes s,
      state-eq-decided (move_all lib p) node
          ∙ rw (none_left, same_ts, t) (invalid_of_empty (at (move_all lib p).pods node)),
    )
