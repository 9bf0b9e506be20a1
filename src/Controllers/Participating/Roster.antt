-- ===== src/Controllers/Participating/Roster.antt =====
-- The roster of a network's pods: what `network.Info.Participating` says of each pod at each node, and
-- what the cases of `reconcileJetstreams` and the pod handlers do to it.
use anck.Prelude.{
  String, Bool, true, false, ◌||◌, List, [], ◌∷◌, ◌==◌, string_eq, ◌≡◌, ◌≢◌, refl, sym, ap, ◌∙◌,
  subst, contains, arith, Bool-cases, inl, inr, ==_iff,
}
use anck.Api.{ParticipatingSpec}
use anck.Controllers.SliceLib.{SliceLib, IsSliceLib}
use anck.Controllers.Participating.{
  still_participating_delete, deleted, at, network_node_state, remove_pods, leave, activate,
  move_all,
}
use anck.Controllers.Participating.Invariant.{IsWellFormed}
use anck.Controllers.Participating.Moves.{
  at-erase, remove_pods-Removed, activate_lem, move_all_lem, leave_lem,
}
use anck.Controllers.Participating.Pending.{network_node_state_iff, deleted_creating}
use anck.Controllers.Participating.Kept.{
  present, ending, Kept, leave-creating, move_all-Kept, activate-Kept, remove_pods-Kept, leave-Kept,
}

pub data Status : Type 0 where
  absent joined leaving : Status

abbrev pub status_of : Bool → Bool → Status
status_of here true = leaving
status_of true false = joined
status_of false false = absent

abbrev pub Roster : Type 0
Roster = String → String → Status

-- a pod that terminates is leaving, one that is in creation or there has joined
abbrev pub status : ParticipatingSpec → Roster
status p node pod = status_of (present p node pod) (ending p node pod)

-- What a reconciliation may do to a pod: one that is leaving may be gone afterwards.
pub data Tidied : Status → Status → Type 0 where
  still : (s : Status) → Tidied s s
  gone : Tidied leaving absent

pub Tidied-trans : {s t u : Status} → Tidied s t → Tidied t u → Tidied s u
Tidied-trans (still s) h = h
Tidied-trans gone (still _) = gone

status_of-Tidied :
    (here there going went : Bool)
    → (here ≡ true → (there || going) ≡ true)
    → (went ≡ true → going ≡ true)
    → (there ≡ true → (here || going) ≡ true)
    → (going ≡ true → there ≡ true → went ≡ true)
    → Tidied (status_of here going) (status_of there went)
status_of-Tidied here there true true a b c d = still leaving
status_of-Tidied here false true false a b c d = gone
status_of-Tidied here true true false a b c d = cc (d refl refl)
status_of-Tidied here there false true a b c d = cc (b refl)
status_of-Tidied true true false false a b c d = still joined
status_of-Tidied true false false false a b c d = cc (a refl)
status_of-Tidied false true false false a b c d = cc (c refl)
status_of-Tidied false false false false a b c d = still absent

abbrev pub Tidies : ParticipatingSpec → ParticipatingSpec → Type 0
Tidies p q = (node pod : String) → Tidied (status p node pod) (status q node pod)

pub Tidies-refl : (p : ParticipatingSpec) → Tidies p p
Tidies-refl p node pod = still (status p node pod)

-- No pod appears, and a pod that was terminating and is not any more is gone.
record Loses (p q : ParticipatingSpec) : Type 0 where
  enters :
      (node pod : String)
      → present q node pod ≡ true
      → (present p node pod || ending p node pod) ≡ true
  leaves :
      (node pod : String)
      → ending p node pod ≡ true
      → present q node pod ≡ true
      → ending q node pod ≡ true

Kept-Tidies : {p q : ParticipatingSpec} → Kept p q → Loses p q → Tidies p q
Kept-Tidies {p} {q} k l node pod =
    status_of-Tidied (present p node pod) (present q node pod) (ending p node pod)
      (ending q node pod) (k.stays node pod) (k.ends node pod) (l.enters node pod)
      (l.leaves node pod)

module _ (lib : SliceLib) (laws : IsSliceLib lib) where
  pub activate-Tidies : (node : String) (p : ParticipatingSpec) → Tidies p (activate lib node p)
  activate-Tidies node p = Kept-Tidies (activate-Kept lib laws node p) (record {
    enters = λ j a e.
        let (active, none_left, moved, others) = activate_lem lib laws node p in
        elim (Bool-cases (j == node)) [
          | inl same ↦
              let eq : j ≡ node = (==_iff j node).0 same in
              subst (λ k. (present p k a || ending p k a) ≡ true) (sym eq)
                (ground (arith, moved a, ap (λ k. present (activate lib node p) k a) eq))
          | inr differ ↦ let (pods, creating, state) = others j (ground arith) in ground (arith)
        ];
    leaves = unfold activate in λ j a e h. e;
  })

  pub move_all-Tidies : (p : ParticipatingSpec) → IsWellFormed p → Tidies p (move_all lib p)
  move_all-Tidies p wf = Kept-Tidies (move_all-Kept lib laws p wf) (record {
    enters = λ j a e.
        let (moved, none_left, nodes, same) = move_all_lem lib laws p j wf.nodes_once in
        ground (arith, moved a);
    leaves = λ j a e h.
        let (moved, none_left, nodes, same) = move_all_lem lib laws p j wf.nodes_once in rw same e;
  })

pub remove_pods-elsewhere :
    (node : String) (ts : List String) (p : ParticipatingSpec) (j : String)
    → j ≢ node
    → at (remove_pods node ts p).pods_terminating j ≡ at p.pods_terminating j
unfolding remove_pods
remove_pods-elsewhere node [] p j n = refl
remove_pods-elsewhere node (pod ∷ ts) p j n =
    remove_pods-elsewhere node ts _ j n ∙ at-erase node j p.pods_terminating ∙ ground arith

pub remove_pods-Tidies :
    (node : String) (p : ParticipatingSpec)
    → IsWellFormed p
    → network_node_state p node ≡ deleted
    → Tidies p (remove_pods node (at p.pods_terminating node) p)
remove_pods-Tidies node p wf h =
    let r = remove_pods-Removed node (at p.pods_terminating node) p (wf.pods node) in
    let q : ParticipatingSpec = remove_pods node (at p.pods_terminating node) p in
    let none_new = deleted_creating p node h in
    Kept-Tidies (remove_pods-Kept node p wf) (record {
      enters = λ j a e. elim (Bool-cases (j == node)) [
        | inl same ↦
            let eq : j ≡ node = (==_iff j node).0 same in
            subst (λ k. (present p k a || ending p k a) ≡ true) (sym eq)
              (ground (
                arith,
                r.left a,
                ap (λ k. present q k a) eq,
                ap (λ m. contains (at m node) a) r.creating,
              ))
        | inr differ ↦ ground (
          arith,
          ap (λ l. contains l a) (r.others j (ground arith)),
          ap (λ m. contains (at m j) a) r.creating,
        )
      ];
      leaves = λ j a e h2. elim (Bool-cases (j == node)) [
        | inl same ↦
            let eq : j ≡ node = (==_iff j node).0 same in
            ground (
              arith,
              r.left a,
              ap (λ k. present q k a) eq,
              ap (λ k. ending p k a) eq,
              ap (λ m. contains (at m node) a) r.creating,
              ap (λ l. contains l a) none_new,
            )
        | inr differ ↦ ground (
          arith,
          ap (λ l. contains l a)
              (remove_pods-elsewhere node (at p.pods_terminating node) p j (ground arith)),
        )
      ];
    })

pub leave-Tidies :
    (node : String) (p : ParticipatingSpec)
    → network_node_state p node ≡ still_participating_delete
    → Tidies p (leave node p).0
leave-Tidies node p h =
    let (none_new, some_pods, n, m) = (network_node_state_iff p node).0.0 h in
    elim (leave_lem node p) [
      | inl (state, left, at_node) ↦ Kept-Tidies (leave-Kept node p h) (record {
        enters = λ j a e.
            let (nodes, pods, terminating) = at_node j in
            ground (
              arith,
              ap (λ l. contains l a) pods,
              ap (λ l. contains (at l j) a) (leave-creating node p),
            );
        leaves = λ j a e h2.
            let (nodes, pods, terminating) = at_node j in
            elim (Bool-cases (node == j)) [
              | inl same ↦
                  let eq : node ≡ j = (==_iff node j).0 same in
                  ground (
                    arith,
                    ap (λ l. contains l a) pods,
                    ap (λ l. contains (at l j) a) (leave-creating node p),
                    ap (λ l. contains l a) none_new,
                    ap (λ k. contains (at p.pods_creating k) a) eq,
                  )
              | inr differ ↦ ground (arith, ap (λ l. contains l a) terminating)
            ];
      })
      | inr (state, eq) ↦ rw eq (λ j a. still (status p j a))
    ]
