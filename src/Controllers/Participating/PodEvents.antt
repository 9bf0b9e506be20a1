-- ===== src/Controllers/Participating/PodEvents.antt =====
-- What the pod handlers do to the roster of a network's pods.
use anck.Prelude.{
  String, false, ◌&&◌, ◌||◌, List, [], ◌∷◌, ◌++◌, if◌then◌else◌, ◌==◌, string_eq, ◌≡◌, ◌∙◌, subst,
  contains, contains-append, arith, Bool-cases, inl, inr, ==_iff,
}
use anck.Prelude.Dict.{insert}
use anck.Api.{ParticipatingSpec}
use anck.Controllers.SliceLib.{SliceLib, IsSliceLib}
use anck.Controllers.Participating.{at, pod_created, pod_terminating}
use anck.Controllers.Participating.Moves.{at-insert}
use anck.Controllers.Participating.Kept.{ending}
use anck.Controllers.Participating.Roster.{Status, absent, joined, leaving, status_of, status}

-- a pod that is created joins, unless the network has it, even as one that is leaving
abbrev pub joining : Status → Status
joining absent = joined
joining joined = joined
joining leaving = leaving

-- what holds of the node, and of every other one, holds of every node
pub at_each_node :
    (P : String → Type 0) (node : String)
    → P node
    → ((j : String) → (node == j) ≡ false → P j)
    → (j : String) → P j
at_each_node P node here elsewhere j = elim (Bool-cases (node == j)) [
  | inl t ↦ subst P ((==_iff node j).0 t) here
  | inr f ↦ elsewhere j f
]

module _ (lib : SliceLib) (laws : IsSliceLib lib) where
  pub contains-added :
      (xs : List String) (pod a : String)
      → contains (lib.unique (xs ++ pod ∷ [])) a ≡ (contains xs a || (pod == a))
  contains-added xs pod a =
      laws.contains-unique (xs ++ pod ∷ []) a ∙ contains-append xs (pod ∷ []) a ∙ ground arith

  pub status-pod_created :
      (node pod : String) (p : ParticipatingSpec) (j a : String)
      → status (pod_created lib node pod p) j a
        ≡ (if (node == j) && (pod == a) then joining (status p j a) else status p j a)
  unfolding pod_created
  status-pod_created node pod p j a = elim (Bool-cases (lib.has (at p.pods node) pod)) [
    | inl t ↦ rw t (
        at_each_node
          (λ k.
            status p k a
            ≡ (if (node == k) && (pod == a) then joining (status p k a) else status p k a))
          node (ground (arith, laws.has_lem (at p.pods node) pod, (==_iff pod a).0))
          (λ k n. ground arith) j)
    | inr f ↦ rw f (
        at_each_node
          (λ k.
            status_of
              (contains (at p.pods k) a
                || contains
                    (at
                      (insert node (lib.unique (at p.pods_creating node ++ pod ∷ []))
                        p.pods_creating)
                      k)
                    a)
              (ending p k a)
            ≡ (if (node == k) && (pod == a) then joining (status p k a) else status p k a))
          node
          (ground (
            arith,
            at-insert node node (lib.unique (at p.pods_creating node ++ pod ∷ [])) p.pods_creating,
            contains-added (at p.pods_creating node) pod a,
            laws.has_lem (at p.pods node) pod,
            (==_iff pod a).0,
          ))
          (λ k n. ground (
            arith,
            at-insert node k (lib.unique (at p.pods_creating node ++ pod ∷ [])) p.pods_creating,
          ))
          j)
  ]

  pub status-pod_terminating :
      (node pod : String) (p : ParticipatingSpec) (j a : String)
      → status (pod_terminating lib node pod p) j a
        ≡ (if (node == j) && (pod == a) then leaving else status p j a)
  unfolding pod_terminating
  status-pod_terminating node pod p j a =
      at_each_node
        (λ k.
          status (pod_terminating lib node pod p) k a
          ≡ (if (node == k) && (pod == a) then leaving else status p k a))
        node
        (ground (
          arith,
          at-insert node node (lib.unique (at p.pods_terminating node ++ pod ∷ []))
              p.pods_terminating,
          contains-added (at p.pods_terminating node) pod a,
        ))
        (λ k n. ground (
          arith,
          at-insert node k (lib.unique (at p.pods_terminating node ++ pod ∷ [])) p.pods_terminating,
        ))
        j
