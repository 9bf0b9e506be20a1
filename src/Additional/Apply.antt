-- ===== src/Additional/Apply.antt =====
-- pkg/additional/apply.go: the two ways to apply an object.

pub mod Laws
use anck.Prelude.{ℕ, ◌⊎◌, inl, inr, if◌then◌else◌}
use anck.Prelude.Exec.{Exec, Error, is_already_exists, attempt, pure, raise, ignoring, ◌>>=◌}
use anck.Additional.Objects.{Object}
use anck.Additional.Client.{Client}

module _ {W : Type 0} (client : Client W) where
  -- what follows the creation
  pub after_creation : Object → Error ⊎ Unit {0} → Exec W (Unit {0})
  after_creation obj (inr _) = pure tt
  after_creation obj (inl e) = if is_already_exists e then client.update obj else raise e

  -- `ApplyOrUpdate`
  unfoldable pub apply_or_update : Object → Exec W (Unit {0})
  unfolding after_creation
  apply_or_update obj = do r ← attempt (client.create obj); after_creation obj r

  -- `ApplyIgnoreExisting`
  unfoldable pub apply_ignore_existing : Object → Exec W (Unit {0})
  apply_ignore_existing obj = ignoring is_already_exists (client.create obj)
