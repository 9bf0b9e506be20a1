-- ===== src/Resources/SecretErrors.antt =====
-- `UpdateSecret` where it returns an error.
use anck.Prelude.{String, some, inl, inr, ◌≡◌, refl, ◌∙◌, Bool-cases}
use anck.Prelude.Dict.{Dict}
use anck.Prelude.Exec.{
  Error, Result, ok, err, panic, is_not_found, attempted, continue, pure, raise, attempt, ◌>>=◌,
}
use anck.Resources.Kube.{Kube, Secret}
use anck.Resources.Secret.{clientset, write_entries, update_secret}
use anck.Resources.SecretLaws.{View, Secrets, clientset-Keeps}

module _ {W : Type 0} (kube : Kube W) (view : W → View) (laws : Secrets kube view) where
  written :
      (s : Secret) (w : W) (r : Result Secret) (e : Error)
      → (kube.update_secret s w).0 ≡ r
      → (continue r (λ t. pure (some t)) (kube.update_secret s w).1).0 ≡ err e
      → view (continue r (λ t. pure (some t)) (kube.update_secret s w).1).1 ≡ view w
  unfolding pure
  written s w (ok t) e p h = cc
  written s w (err x) e p h = laws.update_err s w x p
  written s w panic e p h = cc

  found :
      (n ns : String) (entries : Dict String) (w : W) (r : Result Secret) (e : Error)
      → (continue (attempted r) (write_entries kube entries) (kube.get_secret ns n w).1).0 ≡ err e
      → view (continue (attempted r) (write_entries kube entries) (kube.get_secret ns n w).1).1
        ≡ view w
  unfolding write_entries pure raise ◌>>=◌
  found n ns entries w (ok s) e h =
      written (record s { entries = entries }) _ _ e refl h ∙ laws.get_keeps ns n w
  found n ns entries w (err x) e h = elim (Bool-cases (is_not_found x)) [
    | inl t ↦ absurd (cc (rw t at h))
    | inr f ↦ rw f (laws.get_keeps ns n w)
  ]
  found n ns entries w panic e h = laws.get_keeps ns n w

  client :
      (n ns : String) (entries : Dict String) (w : W) (r : Result (Unit {0})) (e : Error)
      → (continue r
          (λ _ w'.
            continue
              (attempted (kube.get_secret ns n w').0)
              (write_entries kube entries)
              (kube.get_secret ns n w').1)
          (clientset kube w).1).0
        ≡ err e
      → view
          (continue r
            (λ _ w'.
              continue
                (attempted (kube.get_secret ns n w').0)
                (write_entries kube entries)
                (kube.get_secret ns n w').1)
            (clientset kube w).1).1
        ≡ view w
  client n ns entries w (ok _) e h =
      found n ns entries (clientset kube w).1 _ e h ∙ clientset-Keeps kube view laws w
  client n ns entries w (err x) e h = clientset-Keeps kube view laws w
  client n ns entries w panic e h = clientset-Keeps kube view laws w

  -- An update that fails changes no secret.
  pub update_secret-err :
      (n ns : String) (entries : Dict String) (w : W) (e : Error)
      → (update_secret kube n ns entries w).0 ≡ err e
      → view (update_secret kube n ns entries w).1 ≡ view w
  unfolding update_secret ◌>>=◌ attempt
  update_secret-err n ns entries w e h = client n ns entries w (clientset kube w).0 e h
