-- ===== src/Controllers/Life/Interleaved.antt =====
-- The reconcilers at work at the same time: each reads the network, changes what it read, and sends it back
-- with the version that it read (`r.Get` and `r.Update` of network_controller.go, `resources.GetNetwork` and
-- `resources.UpdateNetwork` of pod_controller.go, `Get` and `Update` of participants_controller.go), while
-- others do the same. `Update` gives back the object with its new version, which is a read of its own.
use anck.Prelude.{ℕ, ◌<◌, ◌≤◌, List, [], ◌∷◌, ◌++◌, ◌⊎◌, inl, inr, ◌≡◌, refl, sym, ap, arith}
use anck.Prelude.Exec.{Exec, Error, ok, err}
use anck.Api.{ParticipatingSpec}
use anck.Jetstreams.Duration.{Std}
use anck.Jetstreams.Jsm.{Jsm}
use anck.Controllers.SliceLib.{SliceLib, IsSliceLib}
use anck.Controllers.Participating.Invariant.{IsWellFormed}
use anck.Controllers.Participating.Roster.{status}
use anck.Controllers.NodeStreams.{Retry}
use anck.Controllers.Life.{Event, no_participants, Steps, Run, start, Run-Steps}
use anck.Controllers.Life.Refinement.{SpecRun, Run-SpecRun}

-- The network as the API server stores it: its status and its `resourceVersion`, and the update of an
-- object that was read with a version.
pub record Store (S : Type 0) : Type 0 where
  pub current : S → ParticipatingSpec
  pub version : S → ℕ
  pub update : ParticipatingSpec → ℕ → Exec S (Unit {0})

-- An update is accepted only with the version that is stored, which then rises; one that is refused changes
-- nothing.
pub record IsStore {S : Type 0} (store : Store S) : Type 0 where
  pub update-ok :
      (p : ParticipatingSpec) (v : ℕ) (s : S)
      → (store.update p v s).0 ≡ ok tt
      → (store.version s ≡ v)
        × (store.current (store.update p v s).1 ≡ p)
        × (store.version s < store.version (store.update p v s).1)
  pub update-err :
      (p : ParticipatingSpec) (v : ℕ) (s : S) (e : Error)
      → (store.update p v s).0 ≡ err e
      → (store.current (store.update p v s).1 ≡ store.current s)
        × (store.version (store.update p v s).1 ≡ store.version s)

-- what a reconciler has read
pub record Snapshot : Type 0 where
  pub status : ParticipatingSpec
  pub version : ℕ

abbrev pub Held : Snapshot → List Snapshot → Type 0
Held h [] = ⊥
Held h (x ∷ xs) = (h ≡ x) ⊎ Held h xs

module _ {W : Type 0} {F : Type 0} (jsm : Jsm W) (std : Std F) (lib : SliceLib) (retry : Retry W)
    {S : Type 0} (store : Store S) where
  abbrev read : S → Snapshot
  read s = record { status = store.current s; version = store.version s }

  -- What the reconcilers do, in any order, to a store with a new network, the events that were written,
  -- the latest first, and everything that was read and may still be used, however old it is.
  pub data Interleaved : List Event → S → List Snapshot → Type 0 where
    begins : (s : S) → store.current s ≡ no_participants → Interleaved [] s []
    reads :
        {es : List Event} {s : S} {hs : List Snapshot}
        → Interleaved es s hs
        → Interleaved es s (read s ∷ hs)
    -- One update may write several changes: `reconcileCreate` adds anck's component before it goes over the
    -- nodes. It may write none of the status, as the one that adds a finalizer.
    writes :
        {es fs : List Event} {s t : S} {hs : List Snapshot} (h : Snapshot) (q : ParticipatingSpec)
        → Interleaved es s hs
        → Held h hs
        → Steps jsm std lib retry h.status fs q
        → store.update q h.version s ≡ (ok tt, t)
        → Interleaved (fs ++ es) t hs
    -- a conflict, or another error
    fails :
        {es : List Event} {s t : S} {hs : List Snapshot} (q : ParticipatingSpec) (v : ℕ) (e : Error)
        → Interleaved es s hs
        → store.update q v s ≡ (err e, t)
        → Interleaved es t hs

  module _ (laws : IsStore store) where
    -- nothing that was read is newer than the store, and what has its version is what it stores
    IsFresh : S → List Snapshot → Type 0
    IsFresh s hs =
        (h : Snapshot)
        → Held h hs
        → (h.version ≤ store.version s) × (h.version ≡ store.version s → h.status ≡ store.current s)

    accepted :
        (p : ParticipatingSpec) (v : ℕ) (s t : S)
        → store.update p v s ≡ (ok tt, t)
        → (store.version s ≡ v) × (store.current t ≡ p) × (store.version s < store.version t)
    accepted p v s t h =
        let (same, now, later) = laws.update-ok p v s (ap (λ x. x.0) h) in
        let eq : (store.update p v s).1 ≡ t = ap (λ x. x.1) h in
        (same, rw eq at now, rw eq at later)

    refused :
        (p : ParticipatingSpec) (v : ℕ) (e : Error) (s t : S)
        → store.update p v s ≡ (err e, t)
        → (store.current t ≡ store.current s) × (store.version t ≡ store.version s)
    refused p v e s t h =
        let (same, version) = laws.update-err p v s e (ap (λ x. x.0) h) in
        let eq : (store.update p v s).1 ≡ t = ap (λ x. x.1) h in (rw eq at same, rw eq at version)

    -- an accepted update leaves everything that was read before behind
    older :
        (s t : S) (hs : List Snapshot)
        → store.version s < store.version t
        → IsFresh s hs
        → IsFresh t hs
    unfolding IsFresh
    older s t hs later fresh h held =
        let (le, same) = fresh h held in (omega arith, λ e. absurd (omega arith))

    read_again : (s : S) (hs : List Snapshot) → IsFresh s hs → IsFresh s (read s ∷ hs)
    unfolding IsFresh
    read_again s hs fresh h (inl e) = rw e (omega arith, λ x. refl)
    read_again s hs fresh h (inr held) = fresh h held

    interleaved_lem :
        {es : List Event} {s : S} {hs : List Snapshot}
        → Interleaved es s hs
        → IsFresh s hs × Run jsm std lib retry es (store.current s)
    unfolding IsFresh
    interleaved_lem (begins s e) = (λ h k. absurd k, rw e start)
    interleaved_lem {s = s} (reads {hs = hs} before) =
        let (fresh, run) = interleaved_lem before in (read_again s hs fresh, run)
    interleaved_lem {s = t} {hs = hs} (writes {s = s} h q before held steps done) =
        let (fresh, run) = interleaved_lem before in
        let (version, now, later) = accepted q h.version s t done in
        let same = (fresh h held).1 (sym version) in
        (older s t hs later fresh, rw now (Run-Steps jsm std lib retry run (rw same at steps)))
    interleaved_lem {s = t} {hs = hs} (fails {s = s} q v e before done) =
        let (fresh, run) = interleaved_lem before in
        let (now, version) = refused q v e s t done in
        (λ h held. let (le, same) = fresh h held in rw (now, version) (le, same), rw now run)

    -- However the reconcilers of pods, networks and participants interleave, however old what they have read
    -- is, whatever changes one update writes, and whatever conflicts and errors the updates meet, over a
    -- store that accepts an update only with the version that it has: the status that is stored is
    -- well-formed, and its roster is one that the specification allows after the events whose updates were
    -- accepted, in the order in which they were: no accepted event is overwritten by another.
    pub Interleaved-SpecRun :
        IsSliceLib lib
        → {es : List Event} {s : S} {hs : List Snapshot} → Interleaved es s hs
        → IsWellFormed (store.current s) × SpecRun es (status (store.current s))
    Interleaved-SpecRun lib_laws i = Run-SpecRun jsm std lib lib_laws retry (interleaved_lem i).1
