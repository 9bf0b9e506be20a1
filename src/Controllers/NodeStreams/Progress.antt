-- ===== src/Controllers/NodeStreams/Progress.antt =====
-- Each round over the nodes leaves the pods of a network as they are, or comes closer to an end.
use anck.Prelude.{
  ℕ, ◌+◌, ◌<◌, ◌≤◌, String, true, List, [], ◌∷◌, ◌==◌, string_eq, ◌≡◌, ◌≢◌, ◌⊎◌, refl, ap, ◌∙◌,
  length, arith, Bool-cases, inl, inr, ==_iff, ==_refl,
}
use anck.Prelude.Dict.{Dict, lookup, insert, erase, has_key}
use anck.Prelude.Exec.{ok}
use anck.Api.{Network, ParticipatingSpec}
use anck.Jetstreams.Duration.{Std}
use anck.Jetstreams.Jsm.{Jsm}
use anck.Jetstreams.Controller.{JetstreamController}
use anck.Controllers.SliceLib.{SliceLib}
use anck.Controllers.Participating.{
  state_pending, state_active, state_terminating, at, state_at, remove_pods, leave, activate,
  move_created, move_all,
}
use anck.Controllers.Participating.Pending.{
  network_node_state_iff, deleted_terminating, create_creating,
}
use anck.Controllers.Participating.Visited.{listed_key, stated_key}
use anck.Controllers.NodeStreams.Rounds.{IsRound, reconcile_nodes-IsRound}
use anck.Controllers.NodeStreams.{Retry, Work, reconcile_nodes}

module _ {ℓ} {V : Type ℓ} where
  erase-le : (k : String) (d : Dict V) → length (erase k d) ≤ length d
  unfolding erase
  erase-le k [] = omega arith
  erase-le k (_ ∷ d) = ground (arith, erase-le k d)

  erase-lt : (k : String) (d : Dict V) → has_key k d ≡ true → length (erase k d) < length d
  unfolding erase lookup
  erase-lt k [] h = cc
  erase-lt k (_ ∷ d) h = ground (arith, erase-lt k d, erase-le k d)

  insert-same :
      (k : String) (v : V) (d : Dict V) → has_key k d ≡ true → length (insert k v d) ≡ length d
  unfolding insert lookup
  insert-same k v [] h = cc
  insert-same k v (_ ∷ d) h = ground (arith, insert-same k v d)

-- the entries that a round may take away
pub measure : ParticipatingSpec → ℕ
measure p = length p.nodes + length p.pods_creating + length p.pods_terminating

-- nothing of the pods is changed, or there is less left to do
abbrev pub Progress : ParticipatingSpec → ParticipatingSpec → Type 0
Progress p q = (q ≡ p) ⊎ (measure q < measure p)

Progress-trans : {p q r : ParticipatingSpec} → Progress p q → Progress q r → Progress p r
Progress-trans {p} {q} {r} (inl e) (inl e2) = inl (e2 ∙ e)
Progress-trans {p} {q} {r} (inl e) (inr h) = inr (ground (arith, ap measure e))
Progress-trans {p} {q} {r} (inr h) (inl e) = inr (ground (arith, ap measure e))
Progress-trans {p} {q} {r} (inr h) (inr h2) = inr (omega arith)

is_stated :
    (node : String) (p : ParticipatingSpec)
    → (state_at p.nodes node == state_terminating) ≡ true
    → state_at p.nodes node ≢ ""
is_stated node p e n = cc ((==_iff (state_at p.nodes node) state_terminating).0 e)

first_key :
    (node : String) (pods : List String) (d e : Dict (List String))
    → e ≡ (node, pods) ∷ d
    → has_key node e ≡ true
unfolding lookup
first_key node pods d e h = rw h (ground (arith, ==_refl node))

leave-Progress : (node : String) (p : ParticipatingSpec) → Progress p (leave node p).0
unfolding leave measure
leave-Progress node p = elim (Bool-cases (state_at p.nodes node == state_terminating)) [
  | inl e ↦ rw e (
      inr (
        omega (
          arith,
          erase-lt node p.nodes (stated_key p.nodes node (is_stated node p e)),
          erase-le node p.pods_terminating,
        )))
  | inr e ↦ rw e (inl refl)
]

remove_pods-le :
    (node : String) (ts : List String) (p : ParticipatingSpec)
    → measure (remove_pods node ts p) ≤ measure p
unfolding remove_pods measure
remove_pods-le node [] p = omega arith
remove_pods-le node (t ∷ ts) p =
    omega (arith, remove_pods-le node ts _, erase-le node p.pods_terminating)

remove_pods-Progress :
    (node : String) (ts : List String) (p : ParticipatingSpec)
    → at p.pods_terminating node ≢ []
    → Progress p (remove_pods node ts p)
unfolding remove_pods measure
remove_pods-Progress node [] p h = inl refl
remove_pods-Progress node (t ∷ ts) p h = inr (
    omega (
      arith,
      remove_pods-le node ts _,
      erase-lt node p.pods_terminating (listed_key p.pods_terminating node h),
    ))

module _ (lib : SliceLib) where
  activate-Progress :
      (node : String) (p : ParticipatingSpec)
      → at p.pods_creating node ≢ []
      → state_at p.nodes node ≡ state_pending
      → Progress p (activate lib node p)
  unfolding activate measure
  activate-Progress node p h e = inr (
      omega (
        arith,
        insert-same node state_active p.nodes (stated_key p.nodes node (λ n. cc)),
        erase-lt node p.pods_creating (listed_key p.pods_creating node h),
      ))

  move_created-le :
      (entries : List (String × List String)) (p : ParticipatingSpec)
      → measure (move_created lib entries p) ≤ measure p
  unfolding move_created measure
  move_created-le [] p = omega arith
  move_created-le ((node, pods) ∷ entries) p =
      omega (arith, move_created-le entries _, erase-le node p.pods_creating)

  move_created-lt :
      (entries : List (String × List String)) (p : ParticipatingSpec)
      → p.pods_creating ≡ entries
      → entries ≢ []
      → measure (move_created lib entries p) < measure p
  unfolding move_created measure
  move_created-lt [] p e h = absurd (h refl)
  move_created-lt ((node, pods) ∷ entries) p e h = omega (
    arith,
    move_created-le entries _,
    erase-lt node p.pods_creating (first_key node pods entries p.pods_creating e),
  )

  move_all-Progress :
      (node : String) (p : ParticipatingSpec)
      → at p.pods_creating node ≢ []
      → Progress p (move_all lib p)
  move_all-Progress node p h = inr (
      move_created-lt p.pods_creating p refl
        (λ none_there. h (rw none_there (unfold lookup in refl))))

AnyStatus : ParticipatingSpec → Type 0
AnyStatus p = Unit {0}

Progress-IsRound : (lib : SliceLib) → IsRound lib AnyStatus Progress
unfolding AnyStatus
Progress-IsRound lib = record {
  invariant = λ p q i s. tt;
  same = λ p i. inl refl;
  next = λ p q r s t. Progress-trans s t;
  activates =
      λ node p i e s. activate-Progress lib node p ((network_node_state_iff p node).1.0 e).0 s;
  moves = λ node p i e. move_all-Progress lib node p (create_creating p node e);
  leaves = λ node p i e. leave-Progress node p;
  removes = λ node p i e. remove_pods-Progress node _ p (deleted_terminating p node e);
}

module _ {W : Type 0} {F : Type 0} (jsm : Jsm W) (std : Std F) (js : JetstreamController)
    (lib : SliceLib) (retry : Retry W) where
  -- One round over any nodes, in any order, that returns, leaves the status of the pods as it is, or the
  -- entries for nodes, for pods in creation and for terminating pods are fewer than before.
  pub reconcile_nodes-Progress :
      (nodes : List String) (network : Network) (work result : Work) (w : W)
      → (reconcile_nodes jsm std js lib retry nodes network work w).0 ≡ ok result
      → Progress work.participating result.participating
  unfolding AnyStatus
  reconcile_nodes-Progress nodes network work result w h =
      reconcile_nodes-IsRound jsm std js lib retry (Progress-IsRound lib) nodes network work result
        w tt h
