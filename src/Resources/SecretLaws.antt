-- ===== src/Resources/SecretLaws.antt =====
-- What the secret functions do to the cluster, relied on the API to answer as documented: `view w ns n`
-- is the data of the secret `n` in the namespace `ns`, if it is there.
use anck.Prelude.{
  String, true, Option, none, some, inl, inr, ◌==◌, string_eq, if◌then◌else◌, ◌≡◌, ◌≢◌, refl, ◌&&◌,
  ◌∙◌, sym, ap, fun_ext, subst, Bool-cases, arith,
}
use anck.Prelude.Dict.{Dict}
use anck.Prelude.Exec.{
  Error, Result, ok, err, panic, is_not_found, pure, attempted, continue, ◌>>=◌, bind_inv,
  ignoring_inv, Keeps, >>=-Keeps,
}
use anck.Resources.Kube.{Kube, Secret}
use anck.Resources.Secret.{
  clientset, write_entries, delete_secret, read_secret, update_secret, create_secret,
}

-- the data of every secret, by namespace and name
abbrev pub View : Type 0
View = String → String → Option (Dict String)

-- the view after the data at one place was set
abbrev pub put_at : View → String → String → Option (Dict String) → View
put_at v ns n d ns' n' = if (ns == ns') && (n == n') then d else v ns' n'

-- What the program relies on of the API of secrets. A request that fails changes no secret.
pub record Secrets {W : Type 0} (kube : Kube W) (view : W → View) : Type 0 where
  pub config_keeps : (w : W) → view (kube.in_cluster_config w).1 ≡ view w
  pub client_keeps : (w : W) → view (kube.new_for_config w).1 ≡ view w
  pub get_keeps : (ns n : String) (w : W) → view (kube.get_secret ns n w).1 ≡ view w
  pub get_ok :
      (ns n : String) (w : W) (s : Secret)
      → (kube.get_secret ns n w).0 ≡ ok s
      → (view w ns n ≡ some s.entries) × (s.namespace ≡ ns) × (s.name ≡ n)
  pub get_not_found :
      (ns n : String) (w : W) (e : Error)
      → (kube.get_secret ns n w).0 ≡ err e
      → is_not_found e ≡ true
      → view w ns n ≡ none
  pub update_ok :
      (s t : Secret) (w : W)
      → (kube.update_secret s w).0 ≡ ok t
      → (view (kube.update_secret s w).1 ≡ put_at (view w) s.namespace s.name (some s.entries))
        × (t ≡ s)
  pub update_err :
      (s : Secret) (w : W) (e : Error)
      → (kube.update_secret s w).0 ≡ err e
      → view (kube.update_secret s w).1 ≡ view w
  pub delete_ok :
      (ns n : String) (w : W)
      → (kube.delete_secret ns n w).0 ≡ ok tt
      → view (kube.delete_secret ns n w).1 ≡ put_at (view w) ns n none
  pub delete_not_found :
      (ns n : String) (w : W) (e : Error)
      → (kube.delete_secret ns n w).0 ≡ err e
      → is_not_found e ≡ true
      → (view (kube.delete_secret ns n w).1 ≡ view w) × (view w ns n ≡ none)
  pub create_ok :
      (s t : Secret) (w : W)
      → (kube.retry_on_conflict (kube.create_secret s) w).0 ≡ ok t
      → (view (kube.retry_on_conflict (kube.create_secret s) w).1
          ≡ put_at (view w) s.namespace s.name (some s.entries))
        × (view w s.namespace s.name ≡ none)
        × (t ≡ s)

-- to set what is there already changes nothing
pub put_at_same :
    (v : View) (ns n : String) (d : Option (Dict String)) → v ns n ≡ d → put_at v ns n d ≡ v
put_at_same v ns n d h = fun_ext λ ns'. fun_ext λ n'. ground (arith, ap (λ m. v m n))

module _ {W : Type 0} (kube : Kube W) (view : W → View) (laws : Secrets kube view) where
  pub clientset-Keeps : Keeps view (clientset kube)
  unfolding clientset
  clientset-Keeps = >>=-Keeps view _ _ laws.config_keeps (λ _. laws.client_keeps)

  pub read_secret-Keeps : (n ns : String) → Keeps view (read_secret kube n ns)
  unfolding read_secret pure
  read_secret-Keeps n ns =
      >>=-Keeps view _ _ clientset-Keeps
        (λ _. >>=-Keeps view _ _ (laws.get_keeps ns n) (λ _ w. refl))

  -- A secret that is read is the one of the view, and reading changes none.
  pub read_secret-ok :
      (n ns : String) (w : W) (d : Dict String)
      → (read_secret kube n ns w).0 ≡ ok d
      → (view w ns n ≡ some d) × (view (read_secret kube n ns w).1 ≡ view w)
  unfolding read_secret
  read_secret-ok n ns w d h =
      let (u, e1, h1, s1) = bind_inv (clientset kube) _ w h in
      let w1 : W = (clientset kube w).1 in
      let (s, e2, h2, s2) = bind_inv (kube.get_secret ns n) _ w1 h1 in
      let same : d ≡ s.entries = unfold ◌>>=◌ in cc h2 in
      (
        rw same (rw (clientset-Keeps w) at ((laws.get_ok ns n w1 s e2).0)),
        rw (s1, s2) (unfold ◌>>=◌ in (laws.get_keeps ns n w1 ∙ clientset-Keeps w)),
      )

  -- `DeleteSecret` without an error leaves no such secret, whether there was one or not, and leaves all
  -- other secrets as they were.
  pub delete_secret-ok :
      (n ns : String) (w : W)
      → (delete_secret kube n ns w).0 ≡ ok tt
      → view (delete_secret kube n ns w).1 ≡ put_at (view w) ns n none
  unfolding delete_secret
  delete_secret-ok n ns w h =
      let (u, e1, h1, s1) = bind_inv (clientset kube) _ w h in
      let w1 : W = (clientset kube w).1 in
      let (outcome, same) = ignoring_inv is_not_found (kube.delete_secret ns n) w1 h1 in
      rw (s1, same)
        (rw (← clientset-Keeps w) (elim outcome [
          | inl e ↦ laws.delete_ok ns n w1 e
          | inr (e, failed, absent) ↦
              let (kept, none_there) = laws.delete_not_found ns n w1 e failed absent in
              kept ∙ sym (put_at_same (view w1) ns n none none_there)
        ]))

  -- the outcomes of an update: the secret is not there, or its data are the new ones
  abbrev pub Updated : String → String → Dict String → View → View → Option Secret → Type 0
  Updated n ns entries v v' none = (v ns n ≡ none) × (v' ≡ v)
  Updated n ns entries v v' (some s) =
      (v ns n ≢ none)
      × (v' ≡ put_at v ns n (some entries))
      × (s.name ≡ n)
      × (s.namespace ≡ ns)
      × (s.entries ≡ entries)

  not_there :
      (n ns : String) (entries : Dict String) (w : W) (e : Error) (o : Option Secret)
      → (kube.get_secret ns n w).0 ≡ err e
      → (write_entries kube entries (inl e) (kube.get_secret ns n w).1).0 ≡ ok o
      → Updated n ns entries
          (view w)
          (view (write_entries kube entries (inl e) (kube.get_secret ns n w).1).1)
          o
  unfolding write_entries ◌>>=◌
  not_there n ns entries w e o p h = elim (Bool-cases (is_not_found e)) [
    | inl t ↦
        subst
          (Updated n ns entries (view w)
            (view (write_entries kube entries (inl e) (kube.get_secret ns n w).1).1))
          {x = none} (cc (rw t at h))
          (laws.get_not_found ns n w e p t, rw t (laws.get_keeps ns n w))
    | inr f ↦ absurd (cc (rw f at h))
  ]

  replaced :
      (n ns : String) (entries : Dict String) (w : W) (s : Secret) (o : Option Secret)
      → (kube.get_secret ns n w).0 ≡ ok s
      → (write_entries kube entries (inr s) (kube.get_secret ns n w).1).0 ≡ ok o
      → Updated n ns entries
          (view w)
          (view (write_entries kube entries (inr s) (kube.get_secret ns n w).1).1)
          o
  unfolding write_entries
  replaced n ns entries w s o p h =
      let w1 : W = (kube.get_secret ns n w).1 in
      let (t, e1, h1, s1) = bind_inv (kube.update_secret (record s { entries = entries })) _ w1 h in
      let (seen, in_ns, named) = laws.get_ok ns n w s p in
      let (changed, as_sent) = laws.update_ok (record s { entries = entries }) t w1 e1 in
      subst (Updated n ns entries (view w) (view (write_entries kube entries (inr s) w1).1))
        {x = some t} (unfold ◌>>=◌ in cc h1)
        (
          cc seen,
          rw s1 (unfold ◌>>=◌ in (changed ∙ rw (laws.get_keeps ns n w, in_ns, named) refl)),
          ap (λ x. x.name) as_sent ∙ named,
          ap (λ x. x.namespace) as_sent ∙ in_ns,
          ap (λ x. x.entries) as_sent,
        )

  found :
      (n ns : String) (entries : Dict String) (w : W) (r : Result Secret) (o : Option Secret)
      → (kube.get_secret ns n w).0 ≡ r
      → (continue (attempted r) (write_entries kube entries) (kube.get_secret ns n w).1).0 ≡ ok o
      → Updated n ns entries
          (view w)
          (view (continue (attempted r) (write_entries kube entries) (kube.get_secret ns n w).1).1)
          o
  found n ns entries w (ok s) o p h = replaced n ns entries w s o p h
  found n ns entries w (err e) o p h = not_there n ns entries w e o p h
  found n ns entries w panic o p h = cc

  -- `UpdateSecret` without an error: it returns no secret exactly if there is none, and then nothing
  -- changed; else the data of the secret are the new ones, and all other secrets are as they were.
  pub update_secret-ok :
      (n ns : String) (entries : Dict String) (w : W) (o : Option Secret)
      → (update_secret kube n ns entries w).0 ≡ ok o
      → Updated n ns entries (view w) (view (update_secret kube n ns entries w).1) o
  unfolding update_secret
  update_secret-ok n ns entries w o h =
      let (u, e1, h1, s1) = bind_inv (clientset kube) _ w h in
      let w1 : W = (clientset kube w).1 in
      rw s1 (
        rw (← clientset-Keeps w)
          (unfold ◌>>=◌ in found n ns entries w1 (kube.get_secret ns n w1).0 o refl h1))

  -- `CreateSecret` without an error: there was no such secret, and now it has the given data.
  pub create_secret-ok :
      (n ns : String) (entries : Dict String) (w : W) (t : Secret)
      → (create_secret kube n ns entries w).0 ≡ ok t
      → (view w ns n ≡ none)
        × (view (create_secret kube n ns entries w).1 ≡ put_at (view w) ns n (some entries))
        × (t ≡ record { name = n; namespace = ns; entries = entries })
  unfolding create_secret
  create_secret-ok n ns entries w t h =
      let (u, e1, h1, s1) = bind_inv (clientset kube) _ w h in
      let w1 : W = (clientset kube w).1 in
      let (changed, fresh, as_sent) =
        laws.create_ok (record { name = n; namespace = ns; entries = entries }) t w1 h1 in
      rw s1 (rw (← clientset-Keeps w) (fresh, changed, as_sent))
