-- ===== src/Controllers/Participating/Invariant.antt =====
-- No node lists a pod twice, and no node has two entries in creation: an invariant of every change to a network's pods.
use anck.Prelude.{
  String, Bool, true, false, List, [], ◌∷◌, if◌then◌else◌, ◌==◌, string_eq, contains, IsNodup,
  remove_first, IsNodup-remove_first, arith, Bool-cases, inl, inr,
}
use anck.Prelude.Dict.{
  Dict, insert, erase, lookup-insert, lookup-erase, keys, keys-erase-IsNodup, keys-insert-IsNodup,
}
use anck.Api.{ParticipatingSpec}
use anck.Controllers.SliceLib.{SliceLib, IsSliceLib}
use anck.Controllers.Participating.{
  at, state_at, state_terminating, remove_pods, leave, activate, move_created, pod_created,
  pod_terminating,
}

-- every list of the map is free of repetitions
abbrev pub EachNodup : Dict (List String) → Type 0
EachNodup m = (node : String) → IsNodup (at m node)

pub record IsWellFormed (p : ParticipatingSpec) : Type 0 where
  pub pods : EachNodup p.pods
  pub creating : EachNodup p.pods_creating
  pub terminating : EachNodup p.pods_terminating
  pub nodes_once : IsNodup (keys p.pods_creating)

insert-EachNodup :
    (node : String) (xs : List String) (m : Dict (List String))
    → IsNodup xs
    → EachNodup m
    → EachNodup (insert node xs m)
insert-EachNodup node xs m h k j = ground (arith, lookup-insert j node xs m, k j)

erase-EachNodup : (node : String) (m : Dict (List String)) → EachNodup m → EachNodup (erase node m)
erase-EachNodup node m k j = ground (arith, lookup-erase j node m, k j)

pub remove_pods-IsWellFormed :
    (node : String) (terminating : List String) (p : ParticipatingSpec)
    → IsWellFormed p
    → IsWellFormed (remove_pods node terminating p)
unfolding remove_pods
remove_pods-IsWellFormed node [] p h = h
remove_pods-IsWellFormed node (pod ∷ ts) p h = remove_pods-IsWellFormed node ts _ (record {
  pods = chosen (contains (at p.pods node) pod);
  creating = h.creating;
  terminating = erase-EachNodup node p.pods_terminating h.terminating;
  nodes_once = h.nodes_once;
})
  where
    chosen :
        (b : Bool)
        → EachNodup (if b then insert node (remove_first pod (at p.pods node)) p.pods else p.pods)
    chosen true = insert-EachNodup node _ p.pods (IsNodup-remove_first pod _ (h.pods node)) h.pods
    chosen false = h.pods

pub leave-IsWellFormed :
    (node : String) (p : ParticipatingSpec) → IsWellFormed p → IsWellFormed (leave node p).0
unfolding leave
leave-IsWellFormed node p h = elim (Bool-cases (state_at p.nodes node == state_terminating)) [
  | inl e ↦ rw e (record {
    pods = erase-EachNodup node p.pods h.pods;
    creating = h.creating;
    terminating = erase-EachNodup node p.pods_terminating h.terminating;
    nodes_once = h.nodes_once;
  })
  | inr e ↦ rw e h
]

module _ (lib : SliceLib) (laws : IsSliceLib lib) where
  pub activate-IsWellFormed :
      (node : String) (p : ParticipatingSpec) → IsWellFormed p → IsWellFormed (activate lib node p)
  unfolding activate
  activate-IsWellFormed node p h = record {
    pods = insert-EachNodup node _ p.pods (laws.unique-IsNodup _) h.pods;
    creating = erase-EachNodup node p.pods_creating h.creating;
    terminating = h.terminating;
    nodes_once = keys-erase-IsNodup node p.pods_creating h.nodes_once;
  }

  pub move_created-IsWellFormed :
      (entries : List (String × List String)) (p : ParticipatingSpec)
      → IsWellFormed p
      → IsWellFormed (move_created lib entries p)
  unfolding move_created
  move_created-IsWellFormed [] p h = h
  move_created-IsWellFormed ((node, pods) ∷ entries) p h =
      move_created-IsWellFormed entries _ (record {
        pods = insert-EachNodup node _ p.pods (laws.unique-IsNodup _) h.pods;
        creating = erase-EachNodup node p.pods_creating h.creating;
        terminating = h.terminating;
        nodes_once = keys-erase-IsNodup node p.pods_creating h.nodes_once;
      })

  pub pod_created-IsWellFormed :
      (node pod : String) (p : ParticipatingSpec)
      → IsWellFormed p
      → IsWellFormed (pod_created lib node pod p)
  unfolding pod_created
  pod_created-IsWellFormed node pod p h = elim (Bool-cases (lib.has (at p.pods node) pod)) [
    | inl e ↦ rw e h
    | inr e ↦ rw e (record {
      pods = h.pods;
      creating = insert-EachNodup node _ p.pods_creating (laws.unique-IsNodup _) h.creating;
      terminating = h.terminating;
      nodes_once = keys-insert-IsNodup node _ p.pods_creating h.nodes_once;
    })
  ]

  pub pod_terminating-IsWellFormed :
      (node pod : String) (p : ParticipatingSpec)
      → IsWellFormed p
      → IsWellFormed (pod_terminating lib node pod p)
  unfolding pod_terminating
  pod_terminating-IsWellFormed node pod p h = record {
    pods = h.pods;
    creating = h.creating;
    terminating = insert-EachNodup node _ p.pods_terminating (laws.unique-IsNodup _) h.terminating;
    nodes_once = h.nodes_once;
  }
