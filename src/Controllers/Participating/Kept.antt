-- ===== src/Controllers/Participating/Kept.antt =====
-- No case of `reconcileJetstreams` loses a pod that is not terminating.
use anck.Prelude.{
  String, Bool, true, ◌||◌, List, [], ◌∷◌, ◌==◌, string_eq, ◌≡◌, sym, ap, subst, contains, arith,
  Bool-cases, inl, inr, ==_iff,
}
use anck.Api.{ParticipatingSpec}
use anck.Controllers.SliceLib.{SliceLib, IsSliceLib}
use anck.Controllers.Participating.{
  still_participating_delete, at, network_node_state, remove_pods, leave, activate, move_all,
}
use anck.Controllers.Participating.Invariant.{IsWellFormed}
use anck.Controllers.Participating.Moves.{
  at-erase, remove_pods-Removed, activate_lem, move_all_lem, leave_lem,
}
use anck.Controllers.Participating.Pending.{network_node_state_iff}

-- the node has the pod, or it is in creation there
abbrev pub present : ParticipatingSpec → String → String → Bool
present p node pod = contains (at p.pods node) pod || contains (at p.pods_creating node) pod

abbrev pub ending : ParticipatingSpec → String → String → Bool
ending p node pod = contains (at p.pods_terminating node) pod

-- Every pod that is present stays so or is terminating, and none starts to terminate.
pub record Kept (p q : ParticipatingSpec) : Type 0 where
  pub stays :
      (node pod : String)
      → present p node pod ≡ true
      → (present q node pod || ending p node pod) ≡ true
  pub ends : (node pod : String) → ending q node pod ≡ true → ending p node pod ≡ true

pub Kept-refl : (p : ParticipatingSpec) → Kept p p
Kept-refl p = record { stays = λ j a h. ground arith; ends = λ j a h. h }

pub Kept-trans : {p q r : ParticipatingSpec} → Kept p q → Kept q r → Kept p r
Kept-trans {p} {q} {r} h k = record {
  stays = λ j a e. ground (arith, h.stays j a, k.stays j a, h.ends j a);
  ends = λ j a e. h.ends j a (k.ends j a e);
}

pub move_all-Kept :
    (lib : SliceLib) (laws : IsSliceLib lib) (p : ParticipatingSpec)
    → IsWellFormed p
    → Kept p (move_all lib p)
move_all-Kept lib laws p wf = record {
  stays = λ j a e.
      let (moved, none_left, nodes, same) = move_all_lem lib laws p j wf.nodes_once in
      ground (arith, moved a);
  ends = λ j a e.
      let (moved, none_left, nodes, same) = move_all_lem lib laws p j wf.nodes_once in rw same at e;
}

pub activate-Kept :
    (lib : SliceLib) (laws : IsSliceLib lib) (node : String) (p : ParticipatingSpec)
    → Kept p (activate lib node p)
activate-Kept lib laws node p = record {
  stays = λ j a e.
      let (active, none_left, moved, others) = activate_lem lib laws node p in
      elim (Bool-cases (j == node)) [
        | inl same ↦
            let eq : j ≡ node = (==_iff j node).0 same in
            subst (λ k. (present (activate lib node p) k a || ending p k a) ≡ true) (sym eq)
              (ground (arith, moved a, ap (λ k. present p k a) eq))
        | inr differ ↦ let (pods, creating, state) = others j (ground arith) in ground (arith)
      ];
  ends = unfold activate in λ j a e. e;
}

remove_pods-terminating :
    (node : String) (ts : List String) (p : ParticipatingSpec) (j a : String)
    → contains (at (remove_pods node ts p).pods_terminating j) a ≡ true
    → contains (at p.pods_terminating j) a ≡ true
unfolding remove_pods
remove_pods-terminating node [] p j a h = h
remove_pods-terminating node (pod ∷ ts) p j a h = ground (
  arith,
  remove_pods-terminating node ts _ j a h,
  ap (λ l. contains l a) (at-erase node j p.pods_terminating),
)

pub leave-creating :
    (node : String) (p : ParticipatingSpec) → (leave node p).0.pods_creating ≡ p.pods_creating
unfolding leave
leave-creating node p = ground arith

-- the pods that the node loses are the ones that are terminating
pub remove_pods-Kept :
    (node : String) (p : ParticipatingSpec)
    → IsWellFormed p
    → Kept p (remove_pods node (at p.pods_terminating node) p)
remove_pods-Kept node p wf =
    let r = remove_pods-Removed node (at p.pods_terminating node) p (wf.pods node) in
    let q : ParticipatingSpec = remove_pods node (at p.pods_terminating node) p in
    record {
      stays = λ j a e. elim (Bool-cases (j == node)) [
        | inl same ↦
            let eq : j ≡ node = (==_iff j node).0 same in
            subst (λ k. (present q k a || ending p k a) ≡ true) (sym eq)
              (ground (
                arith,
                r.left a,
                ap (λ k. present p k a) eq,
                ap (λ m. contains (at m node) a) r.creating,
              ))
        | inr differ ↦ ground (
          arith,
          ap (λ l. contains l a) (r.others j (ground arith)),
          ap (λ m. contains (at m j) a) r.creating,
        )
      ];
      ends =
          λ j a e. ground (arith, remove_pods-terminating node (at p.pods_terminating node) p j a);
    }

pub leave-Kept :
    (node : String) (p : ParticipatingSpec)
    → network_node_state p node ≡ still_participating_delete
    → Kept p (leave node p).0
leave-Kept node p h =
    let (none_new, some_pods, n, m) = (network_node_state_iff p node).0.0 h in
    elim (leave_lem node p) [
      | inl (state, left, at_node) ↦ record {
        stays = λ j a e.
            let (nodes, pods, terminating) = at_node j in
            elim (Bool-cases (node == j)) [
              | inl same ↦
                  let eq : node ≡ j = (==_iff node j).0 same in
                  subst (λ k. (present (leave node p).0 k a || ending p k a) ≡ true) eq
                    (ground
                      (arith, m a, ap (λ k. present p k a) eq, ap (λ l. contains l a) none_new))
              | inr differ ↦ ground (arith, ap (λ l. contains l a) pods, leave-creating node p)
            ];
        ends = λ j a e.
            let (nodes, pods, terminating) = at_node j in
            ground (arith, ap (λ l. contains l a) terminating);
      }
      | inr (state, same) ↦ rw same (Kept-refl p)
    ]
