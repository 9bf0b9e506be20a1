-- ===== src/Controllers/Participating/Moves.antt =====
-- Where the pods of a node go in each case of `reconcileJetstreams`.
use anck.Prelude.{
  String, Bool, true, false, not, ◌&&◌, ◌||◌, none, List, [], ◌∷◌, ◌++◌, if◌then◌else◌, ◌==◌,
  string_eq, ◌≡◌, ◌≢◌, refl, ap, ◌∙◌, contains, contains-append, IsNodup, remove_first,
  IsNodup-remove_first, contains-remove_first, contains-remove_first_self, arith, Bool-cases, inl,
  inr, ==_refl, ==_iff, ◌⊎◌,
}
use anck.Prelude.Dict.{
  Dict, lookup, insert, erase, lookup-insert, lookup-erase, keys, contains-keys,
}
use anck.Api.{ParticipatingSpec}
use anck.Controllers.SliceLib.{SliceLib, IsSliceLib}
use anck.Controllers.Participating.{
  at, state_at, state_active, state_terminating, remove_pods, leave, activate, move_created,
  move_all,
}

pub at-insert :
    (node j : String) (xs : List String) (m : Dict (List String))
    → at (insert node xs m) j ≡ (if node == j then xs else at m j)
at-insert node j xs m = ground (arith, lookup-insert j node xs m)

pub at-erase :
    (node j : String) (m : Dict (List String))
    → at (erase node m) j ≡ (if node == j then [] else at m j)
at-erase node j m = ground (arith, lookup-erase j node m)

-- Each map of lists at each node, after the change.
pub record Removed (node : String) (gone : List String) (p q : ParticipatingSpec) : Type 0 where
  pub left :
      (a : String)
      → contains (at q.pods node) a ≡ (contains (at p.pods node) a && not (contains gone a))
  pub others : (j : String) → j ≢ node → at q.pods j ≡ at p.pods j
  pub creating : q.pods_creating ≡ p.pods_creating
  pub nodes : q.nodes ≡ p.nodes

one_less :
    (pod a : String) (ts xs : List String)
    → IsNodup xs
    → (contains (remove_first pod xs) a && not (contains ts a))
      ≡ (contains xs a && not (contains (pod ∷ ts) a))
one_less pod a ts xs h =
    ground (arith, contains-remove_first pod a xs, contains-remove_first_self pod xs h)

not_there :
    (pod a : String) (ts xs : List String)
    → contains xs pod ≡ false
    → (contains xs a && not (contains ts a)) ≡ (contains xs a && not (contains (pod ∷ ts) a))
not_there pod a ts xs h = ground arith

-- Where no pod is listed twice, the case `deleted` takes exactly the terminating pods out of the node's
-- list, and touches neither other nodes nor the pods in creation nor the state of any node.
pub remove_pods-Removed :
    (node : String) (terminating : List String) (p : ParticipatingSpec)
    → IsNodup (at p.pods node)
    → Removed node terminating p (remove_pods node terminating p)
unfolding remove_pods
remove_pods-Removed node [] p h = record {
  left = λ a. ground arith;
  others = λ j n. refl;
  creating = refl;
  nodes = refl;
}
remove_pods-Removed node (pod ∷ ts) p h = elim (Bool-cases (contains (at p.pods node) pod)) [
  | inl e ↦ rw e (
      let xs : List String = remove_first pod (at p.pods node) in
      let here : at (insert node xs p.pods) node ≡ xs =
        at-insert node node xs p.pods ∙ (rw (==_refl node)) in
      let rest =
        remove_pods-Removed node ts
          (record p {
            pods = insert node xs p.pods;
            pods_terminating = erase node p.pods_terminating;
          })
          (rw here (IsNodup-remove_first pod _ h)) in
      record {
        left = λ a. rest.left a ∙ (rw here (one_less pod a ts (at p.pods node) h));
        others = λ j n. rest.others j n ∙ at-insert node j xs p.pods ∙ (ground arith);
        creating = rest.creating;
        nodes = rest.nodes;
      })
  | inr e ↦ rw e (
      let rest =
        remove_pods-Removed node ts (record p { pods_terminating = erase node p.pods_terminating })
          h in
      record {
        left = λ a. rest.left a ∙ not_there pod a ts (at p.pods node) e;
        others = rest.others;
        creating = rest.creating;
        nodes = rest.nodes;
      })
]

-- A terminating node leaves the network: its state, its pods and its terminating pods are gone, and the
-- entries of all other nodes stay; a node in another state stays as it is.
pub leave_lem :
    (node : String) (p : ParticipatingSpec)
    → ((state_at p.nodes node ≡ state_terminating)
        × ((leave node p).1 ≡ true)
        × ((j : String)
            → (lookup j (leave node p).0.nodes ≡ (if node == j then none else lookup j p.nodes))
              × (at (leave node p).0.pods j ≡ (if node == j then [] else at p.pods j))
              × (at (leave node p).0.pods_terminating j
                  ≡ (if node == j then [] else at p.pods_terminating j))))
      ⊎ ((state_at p.nodes node ≢ state_terminating) × (leave node p ≡ (p, false)))
unfolding leave
leave_lem node p = elim (Bool-cases (state_at p.nodes node == state_terminating)) [
  | inl e ↦ inl (
    (==_iff _ _).0 e,
    rw e,
    rw e (λ j.
        (lookup-erase j node p.nodes, at-erase node j p.pods, at-erase node j p.pods_terminating)),
  )
  | inr e ↦ inr (ground arith, rw e)
]

module _ (lib : SliceLib) (laws : IsSliceLib lib) where
  -- A node that becomes active has exactly the pods that it had and those that were in creation, none of
  -- which is in creation any more; the pods of the other nodes, and their states, stay.
  pub activate_lem :
      (node : String) (p : ParticipatingSpec)
      → (state_at (activate lib node p).nodes node ≡ state_active)
        × (at (activate lib node p).pods_creating node ≡ [])
        × ((a : String)
            → contains (at (activate lib node p).pods node) a
              ≡ (contains (at p.pods node) a || contains (at p.pods_creating node) a))
        × ((j : String)
            → j ≢ node
            → (at (activate lib node p).pods j ≡ at p.pods j)
              × (at (activate lib node p).pods_creating j ≡ at p.pods_creating j)
              × (lookup j (activate lib node p).nodes ≡ lookup j p.nodes))
  unfolding activate
  activate_lem node p = (
    ground (arith, lookup-insert node node state_active p.nodes),
    ground (arith, at-erase node node p.pods_creating),
    λ a.
        ap (λ l. contains l a) (at-insert node node _ p.pods ∙ rw (==_refl node))
        ∙ laws.contains-unique _ a
        ∙ contains-append (at p.pods node) (at p.pods_creating node) a,
    λ j n. (
      at-insert node j _ p.pods ∙ ground arith,
      at-erase node j p.pods_creating ∙ ground arith,
      lookup-insert j node state_active p.nodes ∙ ground arith,
    ),
  )

  -- some entry for the node lists the pod
  abbrev pub listed : String → String → List (String × List String) → Bool
  listed j a [] = false
  listed j a ((node, pods) ∷ entries) = ((node == j) && contains pods a) || listed j a entries

  -- one round of the loop
  abbrev moved : String → List String → ParticipatingSpec → ParticipatingSpec
  moved node pods p = record p {
    pods = insert node (lib.unique (at p.pods node ++ pods)) p.pods;
    pods_creating = erase node p.pods_creating;
  }

  contains-moved :
      (node : String) (pods : List String) (p : ParticipatingSpec) (j a : String)
      → contains (at (moved node pods p).pods j) a
        ≡ (contains (at p.pods j) a || ((node == j) && contains pods a))
  contains-moved node pods p j a =
      rw (at-insert node j (lib.unique (at p.pods node ++ pods)) p.pods) (
        ground (
          arith,
          laws.contains-unique (at p.pods node ++ pods) a,
          contains-append (at p.pods node) pods a,
        ))

  contains-move_created :
      (entries : List (String × List String)) (p : ParticipatingSpec) (j a : String)
      → contains (at (move_created lib entries p).pods j) a
        ≡ (contains (at p.pods j) a || listed j a entries)
  unfolding move_created
  contains-move_created [] p j a = ground arith
  contains-move_created ((node, pods) ∷ entries) p j a =
      ground (
        arith,
        contains-move_created entries (moved node pods p) j a,
        contains-moved node pods p j a,
      )

  creating-move_created :
      (entries : List (String × List String)) (p : ParticipatingSpec) (j : String)
      → at (move_created lib entries p).pods_creating j
        ≡ (if contains (keys entries) j then [] else at p.pods_creating j)
  unfolding move_created
  creating-move_created [] p j = refl
  creating-move_created ((node, pods) ∷ entries) p j =
      ground (
        arith,
        creating-move_created entries (moved node pods p) j,
        at-erase node j p.pods_creating,
      )

  kept-move_created :
      (entries : List (String × List String)) (p : ParticipatingSpec)
      → ((move_created lib entries p).nodes ≡ p.nodes)
        × ((move_created lib entries p).pods_terminating ≡ p.pods_terminating)
  unfolding move_created
  kept-move_created [] p = (refl, refl)
  kept-move_created ((node, pods) ∷ entries) p = kept-move_created entries (moved node pods p)

  absent-listed :
      (j a : String) (d : List (String × List String))
      → contains (keys d) j ≡ false
      → listed j a d ≡ false
  absent-listed j a [] h = refl
  absent-listed j a ((node, pods) ∷ d) h = ground (arith, absent-listed j a d)

  listed-eq-at :
      (j a : String) (d : List (String × List String))
      → IsNodup (keys d)
      → listed j a d ≡ contains (at d j) a
  unfolding lookup
  listed-eq-at j a [] h = refl
  listed-eq-at j a ((node, pods) ∷ d) (fresh, h) =
      ground (arith, listed-eq-at j a d h, absent-listed j a d)

  all_erased :
      (d : Dict (List String)) (j : String) → (if contains (keys d) j then [] else at d j) ≡ []
  all_erased d j = ground (arith, contains-keys j d)

  -- The case `stillPartitipatingCreate` moves the pods in creation of every node, not only of the one
  -- that it is about, to the pods of that node: none is lost, none is left in creation, and no node
  -- changes its state. (The map of the pods in creation has each node once, as every map.)
  pub move_all_lem :
      (p : ParticipatingSpec) (j : String)
      → IsNodup (keys p.pods_creating)
      → ((a : String)
          → contains (at (move_all lib p).pods j) a
            ≡ (contains (at p.pods j) a || contains (at p.pods_creating j) a))
        × (at (move_all lib p).pods_creating j ≡ [])
        × ((move_all lib p).nodes ≡ p.nodes)
        × ((move_all lib p).pods_terminating ≡ p.pods_terminating)
  move_all_lem p j h = (
    λ a.
        contains-move_created p.pods_creating p j a
        ∙ ap (λ b. contains (at p.pods j) a || b) (listed-eq-at j a p.pods_creating h),
    creating-move_created p.pods_creating p j ∙ all_erased p.pods_creating j,
    (kept-move_created p.pods_creating p).0,
    (kept-move_created p.pods_creating p).1,
  )
