-- ===== src/Nats/Config/Remotes.antt =====
-- Adding and removing remotes.
use anck.Prelude.{
  String, ◌<>◌, Bool, true, false, Option, none, some, List, [], ◌∷◌, ◌++◌, ◌≡◌, refl, ◌⊎◌, inl,
  inr, ◌==◌, ==_refl, string_eq, arith, any, Bool-cases,
}
use anck.Prelude.Exec.{Error, errorf}
use anck.Text.{str_contains}
use anck.Nats.Config.{
  Remote, Config, remotes_of, appended, add_remote, cut_first, remove_from,
  remove_remote_by_account_pub_key, remove_remote_by_credsfile,
}

-- `ys` is `xs` without the first element that passes the test.
pub data IsCut {ℓ} {A : Type ℓ} (p : A → Bool) : List A → List A → Type ℓ where
  here : {x : A} {xs : List A} → p x ≡ true → IsCut p (x ∷ xs) xs
  there : {x : A} {xs ys : List A} → p x ≡ false → IsCut p xs ys → IsCut p (x ∷ xs) (x ∷ ys)

module _ {ℓ} {A : Type ℓ} (p : A → Bool) where
  -- Either nothing passes the test, or the first element that does is cut out.
  pub cut_first_cases :
      (xs : List A)
      → ((cut_first p xs ≡ none) × (any p xs ≡ false))
        ⊎ ((ys : List A) × (cut_first p xs ≡ some ys) × IsCut p xs ys)
  unfolding cut_first
  cut_first_cases [] = inl (refl, refl)
  cut_first_cases (x ∷ xs) = elim (Bool-cases (p x)) [
    | inl h ↦ inr (xs, rw h, IsCut.here h)
    | inr h ↦ elim (cut_first_cases xs) [
      | inl (e, n) ↦ inl (ground arith, ground arith)
      | inr (ys, e, c) ↦ inr (x ∷ ys, ground arith, IsCut.there h c)
    ]
  ]

  pub cut_first-append :
      (xs : List A) (x : A) → any p xs ≡ false → p x ≡ true → cut_first p (xs ++ x ∷ []) ≡ some xs
  unfolding cut_first
  cut_first-append [] x h k = rw k
  cut_first-append (y ∷ xs) x h k = ground (arith, cut_first-append xs x)

-- What a removal by the test `p` may do to a configuration.
pub data Removed (p : Remote → Bool) (c : Config) : Config × Option Error → Type 0 where
  nothing_there : remotes_of c.leafnodes ≡ none → Removed p c (c, none)
  not_found :
      (rs : List Remote) (message : String)
      → remotes_of c.leafnodes ≡ some rs
      → any p rs ≡ false
      → Removed p c (c, some (errorf message))
  removed :
      (rs rest : List Remote)
      → remotes_of c.leafnodes ≡ some rs
      → IsCut p rs rest
      → Removed p c (record c { leafnodes = some (record { remotes = some rest }) }, none)

remove_from-Removed :
    (p : Remote → Bool) (message : String) (c : Config) (o : Option (List Remote))
    → remotes_of c.leafnodes ≡ o
    → Removed p c (remove_from p message c o)
remove_from-Removed p message c none e = Removed.nothing_there e
remove_from-Removed p message c (some rs) e = elim (cut_first_cases p rs) [
  | inl (f, n) ↦ rw f (Removed.not_found rs message e n)
  | inr (rest, f, cut) ↦ rw f (Removed.removed rs rest e cut)
]

-- Removing by account: a configuration with no list of remotes stays as it is, without an error; one
-- where no remote has the account stays as it is, with an error; else the first remote with the account
-- is cut out, all others and every other field stay, and there is no error.
pub remove_remote_by_account_pub_key-Removed :
    (account : String) (c : Config)
    → Removed (λ r. r.account == account) c (remove_remote_by_account_pub_key account c)
unfolding remove_remote_by_account_pub_key
remove_remote_by_account_pub_key-Removed account c =
    remove_from-Removed (λ r. r.account == account) _ c (remotes_of c.leafnodes) refl

-- The same of removing by the path of the credentials file, where a remote matches if its path contains
-- the given one.
pub remove_remote_by_credsfile-Removed :
    (path : String) (c : Config)
    → Removed (λ r. str_contains r.credentials path) c (remove_remote_by_credsfile path c)
unfolding remove_remote_by_credsfile
remove_remote_by_credsfile-Removed path c =
    remove_from-Removed (λ r. str_contains r.credentials path) _ c (remotes_of c.leafnodes) refl

-- the remotes, none where there is no list of them
abbrev pub listed_remotes : Option (List Remote) → List Remote
listed_remotes none = []
listed_remotes (some rs) = rs

-- Removing the account of a remote that was just added, if no remote had it before, gives no error and
-- leaves exactly the remotes that there were, in their order, and every other field; where there was no
-- list of remotes, an empty one stays.
pub remove-add_remote :
    (r : Remote) (c : Config)
    → any (λ s. s.account == r.account) (listed_remotes (remotes_of c.leafnodes)) ≡ false
    → remove_remote_by_account_pub_key r.account (add_remote r c) ≡ (
      record c {
        leafnodes = some (record { remotes = some (listed_remotes (remotes_of c.leafnodes)) });
      },
      none,
    )
unfolding remove_remote_by_account_pub_key add_remote
remove-add_remote r c h =
    go (remotes_of c.leafnodes) ("remote with account public key " <> r.account <> " not found") h
  where
    go :
        (o : Option (List Remote)) (message : String)
        → any (λ s. s.account == r.account) (listed_remotes o) ≡ false
        → remove_from
            (λ s. s.account == r.account)
            message
            (record c { leafnodes = some (record { remotes = some (appended o r) }) })
            (some (appended o r))
          ≡ (record c { leafnodes = some (record { remotes = some (listed_remotes o) }) }, none)
    go none message h =
        rw (cut_first-append (λ s. s.account == r.account) [] r h (==_refl r.account))
    go (some rs) message h =
        rw (cut_first-append (λ s. s.account == r.account) rs r h (==_refl r.account))
