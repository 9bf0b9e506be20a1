-- ===== src/Additional/Apply/Laws.antt =====
-- What the two ways to apply an object, and sequences of them, write to the cluster.
use anck.Prelude.{
  true, Option, none, some, List, [], ◌∷◌, string_eq, if◌then◌else◌, ◌≡◌, ◌≢◌, ◌⊎◌, inl, inr, refl,
  ap, ◌∙◌, arith, Bool-cases, fun_ext,
}
use anck.Prelude.Exec.{
  Exec, Error, Result, ok, err, is_already_exists, attempt, attempt_inv, pure, raise, ignoring_inv,
  ◌>>◌, bind_inv,
}
use anck.Additional.Objects.{Object}
use anck.Additional.Client.{Client, IsClient, Ref, ref_of, same_ref}
use anck.Additional.Apply.{apply_or_update, apply_ignore_existing, after_creation}

abbrev pub Cluster : Type 0
Cluster = Ref → Option Object

-- an object is written over what was there, or only where nothing was
abbrev pub over : Object → Cluster → Cluster
over o a r = if same_ref (ref_of o) r then some o else a r

abbrev keep_old : Option Object → Object → Object
keep_old none o = o
keep_old (some x) o = x

abbrev pub missing : Object → Cluster → Cluster
missing o a r = if same_ref (ref_of o) r then some (keep_old (a r) o) else a r

-- Calls that succeed with this effect on what is applied.
abbrev pub Writes : {W : Type 0} → (W → Cluster) → Exec W (Unit {0}) → (Cluster → Cluster) → Type 0
Writes {W = W} applied m effect = (w : W) → (m w).0 ≡ ok tt → applied (m w).1 ≡ effect (applied w)

same_ref→eq : (a b : Ref) → same_ref a b ≡ true → a ≡ b
same_ref→eq a b h = ground arith

missing-none :
    (o : Object) (a : Cluster) → a (ref_of o) ≡ none → (r : Ref) → over o a r ≡ missing o a r
missing-none o a h r = elim (Bool-cases (same_ref (ref_of o) r)) [
  | inl e ↦ rw e (ground (arith, h, ap a (same_ref→eq (ref_of o) r e)))
  | inr e ↦ rw e refl
]

missing-some : (o : Object) (a : Cluster) → a (ref_of o) ≢ none → (r : Ref) → a r ≡ missing o a r
missing-some o a h r = elim (Bool-cases (same_ref (ref_of o) r)) [
  | inl e ↦ rw e (kept (a r) (λ n. h (ap a (same_ref→eq (ref_of o) r e) ∙ n)))
  | inr e ↦ rw e refl
]
  where
    kept : (x : Option Object) → x ≢ none → x ≡ some (keep_old x o)
    kept none n = absurd (n refl)
    kept (some y) n = refl

no_error : (e : Error) → ◌≡◌ {A = Result (Unit {0})} (err e) (ok tt) → ⊥
no_error e h = cc

module _ {W : Type 0} (client : Client W) (applied : W → Cluster)
    (laws : IsClient client applied) where
  -- what follows a creation, in the state that the creation left
  after_creation-writes :
      (o : Object) (w : W) (r : Error ⊎ Unit {0})
      → ((e : Error) × (r ≡ inl e) × ((client.create o w).0 ≡ err e))
        ⊎ ((u : Unit {0}) × (r ≡ inr u) × ((client.create o w).0 ≡ ok u))
      → (after_creation client o r (client.create o w).1).0 ≡ ok tt
      → applied (after_creation client o r (client.create o w).1).1 ≡ over o (applied w)
  unfolding after_creation pure raise
  after_creation-writes o w (inr u) (inl (e, p, q)) h = cc
  after_creation-writes o w (inr u) (inr (u', p, q)) h = fun_ext ((laws.create-ok o w q).1)
  after_creation-writes o w (inl e) (inr (u, p, q)) h = cc
  after_creation-writes o w (inl e) (inl (e', p, q)) h = elim (Bool-cases (is_already_exists e)) [
    | inl there ↦
        let same : applied (client.create o w).1 ≡ applied w =
          fun_ext ((laws.create-err o w e' q).0) in
        rw there
          (fun_ext ((laws.update-ok o (client.create o w).1 (rw there at h)).1) ∙ ap (over o) same)
    | inr other ↦ absurd (no_error e (rw other at h))
  ]

  -- `ApplyOrUpdate` without an error: the object is the one that was given, and no other is touched.
  pub apply_or_update-Writes : (o : Object) → Writes applied (apply_or_update client o) (over o)
  unfolding apply_or_update
  apply_or_update-Writes o w h =
      let (r, e1, h1, s1) = bind_inv (attempt (client.create o)) _ w h in
      let (cases, state) = attempt_inv (client.create o) w r e1 in
      ap (λ x. applied x.1) s1 ∙ rw state (after_creation-writes o w r cases (rw state at h1))

  -- `ApplyIgnoreExisting` without an error: an object that was there stays as it was, one that was not is
  -- the one that was given, and no other is touched.
  pub apply_ignore_existing-Writes :
      (o : Object) → Writes applied (apply_ignore_existing client o) (missing o)
  unfolding apply_ignore_existing
  apply_ignore_existing-Writes o w h =
      let (cases, state) = ignoring_inv is_already_exists (client.create o) w h in
      rw state (elim cases [
        | inl made ↦
            let (none_there, at) = laws.create-ok o w made in
            fun_ext (λ r. at r ∙ missing-none o (applied w) none_there r)
        | inr (e, failed, there) ↦
            let (same, was) = laws.create-err o w e failed in
            fun_ext (λ r. same r ∙ missing-some o (applied w) (was there) r)
      ])

-- a chain of calls, one for each object
abbrev pub each :
    {W : Type 0} → (Object → Exec W (Unit {0})) → Object → List Object → Exec W (Unit {0})
each f o [] = f o
each f o (o2 ∷ os) = f o >> each f o2 os

-- one object after the other
abbrev pub folded : (Object → Cluster → Cluster) → List Object → Cluster → Cluster
folded put [] a = a
folded put (o ∷ os) a = folded put os (put o a)

-- objects that are written over what is there, and objects that are written only where nothing is
abbrev pub written : List Object → Cluster → Cluster
written = folded over

abbrev pub found : List Object → Cluster → Cluster
found = folded missing

module _ {W : Type 0} (applied : W → Cluster) where
  -- One call after another.
  pub >>-Writes :
      (m n : Exec W (Unit {0})) (f g : Cluster → Cluster)
      → Writes applied m f
      → Writes applied n g
      → Writes applied (m >> n) (λ a. g (f a))
  >>-Writes m n f g p q w h =
      let (u, e1, h1, s1) = bind_inv m (λ _. n) w h in
      ap (λ x. applied x.1) s1 ∙ q (m w).1 h1 ∙ ap g (p w e1)

module _ {W : Type 0} (client : Client W) (applied : W → Cluster)
    (laws : IsClient client applied) where
  -- What a chain of calls writes.
  pub each-written :
      (o : Object) (os : List Object)
      → Writes applied (each (apply_or_update client) o os) (written (o ∷ os))
  each-written o [] = apply_or_update-Writes client applied laws o
  each-written o (o2 ∷ os) =
      >>-Writes applied (apply_or_update client o) (each (apply_or_update client) o2 os) (over o)
        (written (o2 ∷ os)) (apply_or_update-Writes client applied laws o) (each-written o2 os)

  pub each-found :
      (o : Object) (os : List Object)
      → Writes applied (each (apply_ignore_existing client) o os) (found (o ∷ os))
  each-found o [] = apply_ignore_existing-Writes client applied laws o
  each-found o (o2 ∷ os) =
      >>-Writes applied (apply_ignore_existing client o) (each (apply_ignore_existing client) o2 os)
        (missing o) (found (o2 ∷ os)) (apply_ignore_existing-Writes client applied laws o)
        (each-found o2 os)
