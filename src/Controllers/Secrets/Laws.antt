-- ===== src/Controllers/Secrets/Laws.antt =====
-- What the functions of controllers/network/secret.go do to the secrets of the cluster.
use anck.Prelude.{
  String, ◌<>◌, Bool, true, false, Option, none, some, [], inl, inr, string_eq, ◌≡◌, ◌≢◌, refl, sym,
  ap, ◌∙◌, arith, Bool-cases,
}
use anck.Prelude.Dict.{Dict, lookup, or_zero}
use anck.Prelude.Exec.{
  Exec, ok, errorf, is_not_found, pure, raise, lift, attempt, bind_inv, attempt_inv,
}
use anck.Nats.Server.{Service, ServerInformation, DesiredState, get_nats_server_infos}
use anck.Nats.Server.Quiet.{Quiet, get_nats_server_infos-Keeps}
use anck.Resources.Kube.{Kube, Secret}
use anck.Resources.Secret.{clientset, read_secret, update_secret, create_secret}
use anck.Resources.SecretLaws.{
  View, put_at, Secrets, clientset-Keeps, read_secret-Keeps, read_secret-ok, update_secret-ok,
  create_secret-ok,
}
use anck.Resources.SecretErrors.{update_secret-err}
use anck.Controllers.Secrets.{
  sidecar_creds, entries_of, read_or_empty, store_secret, create_or_update_component_secrets,
  read_credentials_from_secret,
}
use anck.Controllers.Secrets.Entries.{
  entry_of, last_or, entries_of_lem, name-ne-creds, pub-ne-creds,
}

same_secret :
    (t : Secret) (n ns : String) (entries : Dict String)
    → t.name ≡ n
    → t.namespace ≡ ns
    → t.entries ≡ entries
    → t ≡ record { name = n; namespace = ns; entries = entries }
same_secret t n ns entries p q r = rw (← p, ← q, ← r) refl

put_at-here : (v : View) (ns n : String) (d : Option (Dict String)) → put_at v ns n d ns n ≡ d
put_at-here v ns n d = ground arith

module _ {W : Type 0} (kube : Kube W) (view : W → View) (laws : Secrets kube view) where
  read_or_empty_lem :
      (n ns : String) (w : W) (d : Dict String) (there : Bool)
      → (read_or_empty kube n ns w).0 ≡ ok (d, there)
      → (view (read_or_empty kube n ns w).1 ≡ view w)
        × ((there ≡ true) → view w ns n ≡ some d)
        × ((there ≡ false) → d ≡ [])
  unfolding read_or_empty
  read_or_empty_lem n ns w d there h =
      let (o, e1, h1, s1) = bind_inv (attempt (read_secret kube n ns)) _ w h in
      let (outcome, same) = attempt_inv (read_secret kube n ns) w o e1 in
      elim outcome [
        | inl (e, is_error, failed) ↦ elim (Bool-cases (is_not_found e)) [
          | inl t ↦ (
            rw s1 (
                rw is_error
                  (rw t (unfold pure in ap view same ∙ read_secret-Keeps kube view laws n ns w))),
            λ p. absurd (unfold pure in cc (rw t at (rw is_error at h1))),
            λ p. unfold pure in cc (rw t at (rw is_error at h1)),
          )
          | inr f ↦ absurd (unfold raise in cc (rw f at (rw is_error at h1)))
        ]
        | inr (d', is_value, value) ↦
            let (seen, kept) = read_secret-ok kube view laws n ns w d' value in
            (
              rw s1 (rw is_value (unfold pure in ap view same ∙ kept)),
              λ p. seen ∙ ap some (unfold pure in cc (rw is_value at h1)),
              λ p. absurd (unfold pure in cc (rw is_value at h1)),
            )
      ]

  -- Storing sets the data of the secret and of no other one, and returns the secret.
  Stored : String → String → Dict String → W → Secret → W → Type 0
  Stored n ns entries w s w' =
      (view w' ≡ put_at (view w) ns n (some entries))
      × (s ≡ record { name = n; namespace = ns; entries = entries })

  created :
      (n ns : String) (entries : Dict String) (w w1 : W) (s : Secret)
      → view w1 ≡ view w
      → (create_secret kube n ns entries w1).0 ≡ ok s
      → Stored n ns entries w s (create_secret kube n ns entries w1).1
  unfolding Stored
  created n ns entries w w1 s same h =
      let (fresh, changed, as_sent) = create_secret-ok kube view laws n ns entries w1 s h in
      (changed ∙ ap (λ v. put_at v ns n (some entries)) same, as_sent)

  store_secret_lem :
      (n ns : String) (entries : Dict String) (there : Bool) (w : W) (s : Secret)
      → (store_secret kube n ns entries there w).0 ≡ ok s
      → Stored n ns entries w s (store_secret kube n ns entries there w).1
  unfolding store_secret
  store_secret_lem n ns entries false w s h = created n ns entries w w s refl h
  store_secret_lem n ns entries true w s h =
      let (o, e1, h1, s1) = bind_inv (attempt (update_secret kube n ns entries)) _ w h in
      let (outcome, same) = attempt_inv (update_secret kube n ns entries) w o e1 in
      rw s1 (elim outcome [
        | inl (e, is_error, failed) ↦ rw is_error (
            created n ns entries w _ s
              (ap view same ∙ update_secret-err kube view laws n ns entries w e failed)
              (rw is_error at h1))
        | inr (none, is_value, value) ↦
            let (absent, kept) = update_secret-ok kube view laws n ns entries w none value in
            rw is_value (created n ns entries w _ s (ap view same ∙ kept) (rw is_value at h1))
        | inr (some t, is_value, value) ↦
            let (there, changed, name, in_ns, sent) =
              update_secret-ok kube view laws n ns entries w (some t) value in
            rw is_value (
              unfold pure Stored in
              (
                ap view same ∙ changed,
                (cc (rw is_value at h1)) ∙ same_secret t n ns entries name in_ns sent,
              ))
      ])

  store_fresh :
      (n ns : String) (entries : Dict String) (there : Bool) (w : W) (s : Secret)
      → (store_secret kube n ns entries there w).0 ≡ ok s
      → there ≡ false
      → view w ns n ≡ none
  unfolding store_secret
  store_fresh n ns entries false w s h p = (create_secret-ok kube view laws n ns entries w s h).0
  store_fresh n ns entries true w s h p = cc

  -- `createOrUpdateComponentSecrets` without an error: the secret of the component, and no other one, has
  -- new data, which are returned; they have at each key what `entry_of` says for the response, the
  -- credentials that the service gave for the side car, and the data that were there, if any.
  pub create_or_update_component_secrets-ok :
      (service : Service W)
      → Quiet service view
      → (component ns : String) (creds : DesiredState) (w : W) (s : Secret)
      → (create_or_update_component_secrets kube service component ns creds w).0 ≡ ok s
      → (infos : ServerInformation) × ((get_nats_server_infos service
            (read_or_empty kube component ns w).1).0
          ≡ ok infos)
        × (view (create_or_update_component_secrets kube service component ns creds w).1
            ≡ put_at (view w) ns component (some s.entries))
        × ((k : String)
            → lookup k s.entries
              ≡ entry_of component creds infos.sys_creds (or_zero [] (view w ns component)) k)
  unfolding create_or_update_component_secrets Stored
  create_or_update_component_secrets-ok service quiet component ns creds w s h =
      let asks = get_nats_server_infos-Keeps service view quiet in
      let ((d, there), e1, h1, s1) = bind_inv (read_or_empty kube component ns) _ w h in
      let (infos, e2, h2, s2) = bind_inv (get_nats_server_infos service) _ _ h1 in
      let (entries, e3, h3, s3) =
        bind_inv (lift (entries_of component creds infos.sys_creds d)) _ _ h2 in
      let (kept, found, missing) = read_or_empty_lem component ns w d there e1 in
      let w2 : W = (get_nats_server_infos service (read_or_empty kube component ns w).1).1 in
      let (changed, as_sent) =
        store_secret_lem component ns entries there w2 s (unfold lift in h3) in
      let entries_kept : s.entries ≡ entries = ap (λ t. t.entries) as_sent in
      (
        infos,
        e2,
        rw (s1, s2, s3)
            (unfold lift in
              (changed
                ∙ rw entries_kept
                    (ap (λ v. put_at v ns component (some entries)) (asks _ ∙ kept)))),
        λ k. rw entries_kept (
            entries_of_lem component creds infos.sys_creds d entries k (unfold lift in e3)
            ∙ ap (λ m. entry_of component creds infos.sys_creds m k)
                (before component ns w d there found missing (λ p.
                  sym (ap (λ v. v ns component) (asks _ ∙ kept))
                  ∙ store_fresh component ns entries there w2 s (unfold lift in h3) p))),
      )
    where
      before :
          (component ns : String) (w : W) (d : Dict String) (there : Bool)
          → ((there ≡ true) → view w ns component ≡ some d)
          → ((there ≡ false) → d ≡ [])
          → ((there ≡ false) → view w ns component ≡ none)
          → d ≡ or_zero [] (view w ns component)
      before component ns w d true found missing fresh = rw (found refl) refl
      before component ns w d false found missing fresh = rw (fresh refl) (missing refl)

  entry :
      (component network : String) (o : Option String) (w : W) (c : String)
      → ((elim o as (λ _. Exec W String) [
        | some creds ↦ pure creds
        | none ↦ raise (errorf ("network " <> network <> " not found in secret " <> component))
      ])
          w).0
        ≡ ok c
      → o ≡ some c
  unfolding pure raise
  entry component network none w c e = cc
  entry component network (some creds) w c e = cc

  -- What is read from a secret that has the entry is the entry.
  read_entry :
      (component network ns : String) (w : W) (c : String) (d : Dict String)
      → view w ns component ≡ some d
      → (read_credentials_from_secret kube component network ns w).0 ≡ ok c
      → lookup (network <> ".creds") d ≡ some c
  unfolding read_credentials_from_secret
  read_entry component network ns w c d there h =
      let (u, e1, h1, s1) = bind_inv (clientset kube) _ w h in
      let w1 : W = (clientset kube w).1 in
      let (o, e2, h2, s2) = bind_inv (attempt (kube.get_secret ns component)) _ _ h1 in
      let (outcome, same) = attempt_inv (kube.get_secret ns component) w1 o e2 in
      let kept : view w1 ns component ≡ some d =
        ap (λ v. v ns component) (clientset-Keeps kube view laws w) ∙ there in
      elim outcome [
        | inl (e, is_error, failed) ↦ elim (Bool-cases (is_not_found e)) [
          | inl t ↦ absurd (cc (laws.get_not_found ns component w1 e failed t))
          | inr f ↦ absurd (unfold raise in cc (rw f at (rw is_error at h2)))
        ]
        | inr (secret, is_value, value) ↦
            let (seen, in_ns, named) = laws.get_ok ns component w1 secret value in
            let eq : d ≡ secret.entries = cc seen in
            rw eq (
              entry component network (lookup (network <> ".creds") secret.entries) _ c
                (rw is_value at h2))
      ]

  -- Where a component's secret was written and its credentials for the network are read then, both
  -- without an error, the last credentials of the response are read, or those that were there before if
  -- it has none. The network must not be called `nats-sidecar`, whose entry has the credentials of the
  -- side car.
  pub read-create_or_update :
      (service : Service W)
      → Quiet service view
      → (component ns : String) (creds : DesiredState) (w : W) (s : Secret) (c : String)
      → sidecar_creds ≢ creds.network_name <> ".creds"
      → (create_or_update_component_secrets kube service component ns creds w).0 ≡ ok s
      → (read_credentials_from_secret kube component creds.network_name ns
          (create_or_update_component_secrets kube service component ns creds w).1).0
        ≡ ok c
      → last_or
          (lookup (creds.network_name <> ".creds") (or_zero [] (view w ns component)))
          creds.creds
        ≡ some c
  read-create_or_update service quiet component ns creds w s c other h read =
      let (infos, e, changed, at_key) =
        create_or_update_component_secrets-ok service quiet component ns creds w s h in
      let here =
        ap (λ v. v ns component) changed ∙ put_at-here (view w) ns component (some s.entries) in
      let entry = read_entry component creds.network_name ns _ c s.entries here read in
      let key = at_key (creds.network_name <> ".creds") in
      ground (arith, name-ne-creds creds.network_name, pub-ne-creds creds.network_name)
