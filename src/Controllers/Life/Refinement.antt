-- ===== src/Controllers/Life/Refinement.antt =====
-- The histories of a network refine a roster in which every pod joins, then leaves, then is gone.
use anck.Prelude.{
  String, Bool, true, false, not, Bool-cases, inl, inr, ◌≢◌, ◌&&◌, ◌||◌, List, [], ◌∷◌,
  if◌then◌else◌, ◌==◌, string_eq, ◌≡◌, refl, sym, ◌∙◌, subst, arith,
}
use anck.Prelude.Dict.{lookup}
use anck.Api.{ParticipatingSpec}
use anck.Jetstreams.Duration.{Std}
use anck.Jetstreams.Jsm.{Jsm}
use anck.Controllers.SliceLib.{SliceLib, IsSliceLib}
use anck.Controllers.Participating.Invariant.{
  IsWellFormed, pod_created-IsWellFormed, pod_terminating-IsWellFormed,
}
use anck.Controllers.Participating.Roster.{
  Status, absent, joined, leaving, Roster, status, Tidied, still, gone,
}
use anck.Controllers.Participating.PodEvents.{joining, status-pod_created, status-pod_terminating}
use anck.Controllers.NodeStreams.{Retry}
use anck.Controllers.NodeStreams.Laws.{reconcile_nodes-Safe}
use anck.Controllers.Life.{
  Event, created, terminated, reconciled, components_changed, no_participants, Step, creates,
  terminates, reconciles, changes_components, round, Run, start, next,
}

-- The specification: what each event does to the roster.
abbrev pub Spec : Event → Roster → Roster → Type 0
Spec (created node pod) r s =
    (j a : String) → s j a ≡ (if (node == j) && (pod == a) then joining (r j a) else r j a)
Spec (terminated node pod) r s =
    (j a : String) → s j a ≡ (if (node == j) && (pod == a) then leaving else r j a)
Spec reconciled r s = (j a : String) → Tidied (r j a) (s j a)
Spec components_changed r s = (j a : String) → s j a ≡ r j a

pub data SpecRun : List Event → Roster → Type 0 where
  nobody : (r : Roster) → ((j a : String) → r j a ≡ absent) → SpecRun [] r
  after :
      {es : List Event} {r s : Roster} {e : Event} → SpecRun es r → Spec e r s → SpecRun (e ∷ es) s

-- the event is the one that is asked about
abbrev is_created : String → String → Event → Bool
is_created node pod (created j a) = (j == node) && (a == pod)
is_created node pod (terminated j a) = false
is_created node pod reconciled = false
is_created node pod components_changed = false

abbrev is_terminated : String → String → Event → Bool
is_terminated node pod (created j a) = false
is_terminated node pod (terminated j a) = (j == node) && (a == pod)
is_terminated node pod reconciled = false
is_terminated node pod components_changed = false

-- the pod was created, or terminated, on the node
abbrev pub was_created : String → String → List Event → Bool
was_created node pod [] = false
was_created node pod (e ∷ es) = is_created node pod e || was_created node pod es

abbrev pub was_terminated : String → String → List Event → Bool
was_terminated node pod [] = false
was_terminated node pod (e ∷ es) = is_terminated node pod e || was_terminated node pod es

-- the latest that happened to the pod on the node is that it terminated
abbrev pub ended : String → String → List Event → Bool
ended node pod [] = false
ended node pod (e ∷ es) =
    is_terminated node pod e || (not (is_created node pod e) && ended node pod es)

-- what the specification says of a pod that has not terminated
abbrev pub stays : Bool → Status
stays true = joined
stays false = absent

Tidied-stays : (b : Bool) (s : Status) → Tidied (stays b) s → s ≡ stays b
Tidied-stays true s h = go s h
  where
    go : (s : Status) → Tidied joined s → s ≡ joined
    go s (still _) = refl
Tidied-stays false s h = go s h
  where
    go : (s : Status) → Tidied absent s → s ≡ absent
    go s (still _) = refl

absent_stays : (b : Bool) (r : Status) → r ≡ stays b → joining r ≡ joined
absent_stays true r e = rw e refl
absent_stays false r e = rw e refl

-- In the specification, a pod that has not terminated on a node has joined there exactly if it was
-- created there.
spec_stays :
    (node pod : String) {es : List Event} {r : Roster}
    → SpecRun es r
    → was_terminated node pod es ≡ false
    → r node pod ≡ stays (was_created node pod es)
spec_stays node pod (nobody r none_yet) h = none_yet node pod
spec_stays node pod (after {es = es} {r = r} {s = s} {e = created j a} run step) h =
    let before = spec_stays node pod run h in
    let now = step node pod in ground (arith, absent_stays (was_created node pod es) (r node pod))
spec_stays node pod (after {es = es} {r = r} {s = s} {e = terminated j a} run step) h =
    let before = spec_stays node pod run (ground arith) in let now = step node pod in ground (arith)
spec_stays node pod (after {es = es} {r = r} {s = s} {e = reconciled} run step) h =
    let before = spec_stays node pod run h in
    Tidied-stays (was_created node pod es) (s node pod)
      (subst (λ t. Tidied t (s node pod)) before (step node pod))
spec_stays node pod (after {es = es} {e = components_changed} run step) h =
    step node pod ∙ spec_stays node pod run h

Tidied-ends : {r s : Status} → Tidied r s → r ≢ joined → s ≢ joined
Tidied-ends (still _) h e = h e
Tidied-ends gone h e = cc

spec_ends :
    (node pod : String) {es : List Event} {r : Roster}
    → SpecRun es r
    → ended node pod es ≡ true
    → r node pod ≢ joined
spec_ends node pod (nobody r none_yet) h = cc
spec_ends node pod (after {es = es} {r = r} {s = s} {e = created j a} run step) h =
    let before = spec_ends node pod run (ground arith) in let now = step node pod in ground arith
spec_ends node pod (after {es = es} {r = r} {s = s} {e = terminated j a} run step) h =
    elim (Bool-cases (is_terminated node pod (terminated j a))) [
      | inl t ↦ let now = step node pod in ground arith
      | inr f ↦
          let before = spec_ends node pod run (ground arith) in
          let now = step node pod in ground arith
    ]
spec_ends node pod (after {es = es} {r = r} {s = s} {e = reconciled} run step) h =
    Tidied-ends (step node pod) (spec_ends node pod run (ground arith))
spec_ends node pod (after {es = es} {s = s} {e = components_changed} run step) h =
    subst (λ t. t ≢ joined) (sym (step node pod)) (spec_ends node pod run (ground arith))

no_one : (j a : String) → status no_participants j a ≡ absent
unfolding lookup
no_one j a = refl

no_participants-IsWellFormed : IsWellFormed no_participants
unfolding lookup
no_participants-IsWellFormed = record {
  pods = λ j. tt;
  creating = λ j. tt;
  terminating = λ j. tt;
  nodes_once = tt;
}

module _ {W : Type 0} {F : Type 0} (jsm : Jsm W) (std : Std F) (lib : SliceLib)
    (laws : IsSliceLib lib) (retry : Retry W) where
  -- Each event does to the status of a well-formed network what the specification says, and the network
  -- stays well-formed.
  pub Step-Spec :
      {p q : ParticipatingSpec} {e : Event}
      → IsWellFormed p
      → Step jsm std lib retry p q e
      → IsWellFormed q × Spec e (status p) (status q)
  Step-Spec {p} {q} wf (creates node pod e) =
      rw e (pod_created-IsWellFormed lib laws node pod p wf, status-pod_created lib laws node pod p)
  Step-Spec {p} {q} wf (terminates node pod e) = rw e (
    pod_terminating-IsWellFormed lib laws node pod p wf,
    status-pod_terminating lib laws node pod p,
  )
  Step-Spec {p} {q} wf (reconciles (round js nodes network work result w e run e2)) =
      let safe =
        reconcile_nodes-Safe jsm std js lib laws retry nodes network work result w (rw e at wf)
          run in
      rw (e, e2) (safe.formed, safe.tidied)
  Step-Spec {p} {q} wf (changes_components components e) = rw e (
    record {
      pods = wf.pods;
      creating = wf.creating;
      terminating = wf.terminating;
      nodes_once = wf.nodes_once;
    },
    λ j a. refl,
  )

  -- Every history of a network, with pods created and terminating on nodes, reconciliations and changes
  -- of its components in any order, leads to a well-formed status that the specification allows.
  pub Run-SpecRun :
      {es : List Event} {p : ParticipatingSpec}
      → Run jsm std lib retry es p
      → IsWellFormed p × SpecRun es (status p)
  Run-SpecRun start = (no_participants-IsWellFormed, nobody _ no_one)
  Run-SpecRun (next run step) =
      let (wf, spec) = Run-SpecRun run in
      let (formed, made) = Step-Spec wf step in (formed, after spec made)

  -- After every history in which a pod has not terminated on a node, the pod has joined there exactly if
  -- it was created there: however pods of any nodes come and go and reconciliations run in between, it
  -- is not lost, and no pod joins that was not created.
  pub Run-stays :
      (node pod : String) {es : List Event} {p : ParticipatingSpec}
      → Run jsm std lib retry es p
      → was_terminated node pod es ≡ false
      → status p node pod ≡ stays (was_created node pod es)
  Run-stays node pod run h = spec_stays node pod (Run-SpecRun run).1 h

  -- After every history in which the latest that happened to a pod on a node is that it terminated
  -- there, it has not joined: it is leaving, or gone.
  pub Run-ends :
      (node pod : String) {es : List Event} {p : ParticipatingSpec}
      → Run jsm std lib retry es p
      → ended node pod es ≡ true
      → status p node pod ≢ joined
  Run-ends node pod run h = spec_ends node pod (Run-SpecRun run).1 h
