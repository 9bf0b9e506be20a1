-- ===== src/Tests/Interleaved.antt =====
-- Two reconcilers that read the same version of a network.
use anck.Prelude.{ℕ, Bool, ◌+◌, ◌<◌, nat_eq, inl, true, false, [], ◌∷◌, ◌≡◌, refl, arith, string_eq}
use anck.Prelude.Exec.{Error, Result, err, conflict, ok}
use anck.Api.{Network, ParticipatingSpec}
use anck.Controllers.Life.{created, no_participants, no_step, then_step, creates}
use anck.Controllers.Life.Refinement.{SpecRun}
use anck.Controllers.Participating.Invariant.{IsWellFormed}
use anck.Controllers.Participating.Roster.{status}
use anck.Controllers.Life.Interleaved.{
  Store, IsStore, Snapshot, Interleaved, begins, reads, writes, fails, Interleaved-SpecRun,
}
use anck.Tests.Slices.{slices, slices-IsSliceLib}
use anck.Tests.NetworkWorld.{whole, empty_jsm, retry_once}
use anck.Tests.Life.{waiting, active, appears}

abbrev conflict_error : Error
conflict_error = record { kind = conflict; text = "conflict" }

-- the status with the number of its updates
accept :
    Bool → ParticipatingSpec → ParticipatingSpec × ℕ → Result (Unit {0}) × (ParticipatingSpec × ℕ)
accept true p (q, n) = (ok tt, (p, n + 1))
accept false p (q, n) = (err conflict_error, (q, n))

unfoldable counted : Store (ParticipatingSpec × ℕ)
unfolding accept
counted = record {
  current = λ s. s.0;
  version = λ s. s.1;
  update = λ p v s. accept (nat_eq s.1 v) p s;
}

counted-IsStore : IsStore counted
unfolding counted
counted-IsStore = record {
  update-ok = λ p v s h. ok_case (nat_eq s.1 v) p v s refl h;
  update-err = λ p v s e h. err_case (nat_eq s.1 v) p s e h;
}
  where
    ok_case :
        (b : Bool) (p : ParticipatingSpec) (v : ℕ) (s : ParticipatingSpec × ℕ)
        → nat_eq s.1 v ≡ b
        → (accept b p s).0 ≡ ok tt
        → (s.1 ≡ v) × ((accept b p s).1.0 ≡ p) × (s.1 < (accept b p s).1.1)
    ok_case true p v (q, n) e h = (ground arith, refl, omega arith)
    ok_case false p v (q, n) e h = cc

    err_case :
        (b : Bool) (p : ParticipatingSpec) (s : ParticipatingSpec × ℕ) (e : Error)
        → (accept b p s).0 ≡ err e
        → ((accept b p s).1.0 ≡ s.0) × ((accept b p s).1.1 ≡ s.1)
    err_case true p (q, n) e h = cc
    err_case false p (q, n) e h = (refl, refl)

-- two reconcilers read the new network; the update of the second one meets a conflict
abbrev fresh_read : Snapshot
fresh_read = record { status = no_participants; version = 0 }

first_accepted : counted.update waiting 0 (no_participants, 0) ≡ (ok tt, (waiting, 1))
unfolding counted
first_accepted = refl

second_refused : counted.update active 0 (waiting, 1) ≡ (err conflict_error, (waiting, 1))
unfolding counted
second_refused = refl

two_readers :
    Interleaved {W = Network} empty_jsm whole slices retry_once counted
      (created "b" "p" ∷ [])
      (waiting, 1)
      (fresh_read ∷ fresh_read ∷ [])
unfolding counted
two_readers =
    fails active 0 conflict_error
      (writes fresh_read waiting (reads (reads (begins (no_participants, 0) refl))) (inl refl)
        (then_step no_step (creates "b" "p" appears)) first_accepted)
      second_refused

Interleaved-SpecRun_example :
    IsWellFormed (counted.current (waiting, 1))
    × SpecRun (created "b" "p" ∷ []) (status (counted.current (waiting, 1)))
Interleaved-SpecRun_example =
    Interleaved-SpecRun empty_jsm whole slices retry_once counted counted-IsStore slices-IsSliceLib
      two_readers
