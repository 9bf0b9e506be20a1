-- ===== src/Controllers/Secrets/Removal.antt =====
-- What `removeNetworkFromComponentSecret` does to the secrets of the cluster.
use anck.Prelude.{
  String, not, Option, none, some, if◌then◌else◌, ◌≡◌, sym, ap, ◌∙◌, Bool-cases, inl, inr,
}
use anck.Prelude.Dict.{Dict, erase, has_key}
use anck.Prelude.Exec.{ok, pure, ◌>>◌, bind_inv}
use anck.Resources.Kube.{Kube, Secret}
use anck.Resources.Secret.{read_secret, update_secret}
use anck.Resources.SecretLaws.{
  View, put_at, put_at_same, Secrets, Updated, read_secret-ok, delete_secret-ok, update_secret-ok,
}
use anck.Controllers.Secrets.{
  credsfile_from_network, pubkey_file_from_network, remove_network_from_component_secret,
}
use anck.Controllers.Secrets.Entries.{is_ignored, length-filtered_secret}

module _ {W : Type 0} (kube : Kube W) (view : W → View) (laws : Secrets kube view) where
  -- what is left of a secret with the data `d`
  abbrev pub without_network : String → Dict String → Option (Dict String)
  without_network network d =
      if not (has_key (credsfile_from_network network) d)
      then some d
      else if is_ignored network
      then some
          (erase (pubkey_file_from_network network) (erase (credsfile_from_network network) d))
      else none

  pub updated :
      (n ns : String) (d e : Dict String) (w : W)
      → view w ns n ≡ some d
      → ((update_secret kube n ns e >> pure (tt {0})) w).0 ≡ ok tt
      → view ((update_secret kube n ns e >> pure (tt {0})) w).1 ≡ put_at (view w) ns n (some e)
  updated n ns d e w there h =
      let (o, e1, h1, s1) = bind_inv (update_secret kube n ns e) _ w h in
      rw s1 (unfold pure in outcome o (update_secret-ok kube view laws n ns e w o e1))
    where
      outcome :
          (o : Option Secret)
          → Updated kube view laws n ns e (view w) (view (update_secret kube n ns e w).1) o
          → view (update_secret kube n ns e w).1 ≡ put_at (view w) ns n (some e)
      outcome none (absent, kept) = cc (there, absent)
      outcome (some s) (present, changed, named, in_ns, sent) = changed

  -- `removeNetworkFromComponentSecret` without an error: the component had a secret. It stays as it is
  -- where it has no credentials for the network; else it is deleted, whatever other networks it has
  -- credentials for, unless the network's name contains all of the texts that are ignored: only then the
  -- two entries of the network are removed. All other secrets stay.
  pub remove_network_from_component_secret-ok :
      (component network ns : String) (w : W)
      → (remove_network_from_component_secret kube component network ns w).0 ≡ ok tt
      → (d : Dict String) × (view w ns component ≡ some d)
        × (view (remove_network_from_component_secret kube component network ns w).1
            ≡ put_at (view w) ns component (without_network network d))
  unfolding remove_network_from_component_secret
  remove_network_from_component_secret-ok component network ns w h =
      let (d, e1, h1, s1) = bind_inv (read_secret kube component ns) _ w h in
      let w1 : W = (read_secret kube component ns w).1 in
      let (there, kept) = read_secret-ok kube view laws component ns w d e1 in
      let there1 : view w1 ns component ≡ some d = ap (λ v. v ns component) kept ∙ there in
      let count = length-filtered_secret network d in
      (
        d,
        there,
        rw s1 (elim (Bool-cases (has_key (credsfile_from_network network) d)) [
          | inr f ↦
              rw f (unfold pure in (kept ∙ sym (put_at_same (view w) ns component (some d) there)))
          | inl t ↦ elim (Bool-cases (is_ignored network)) [
            | inr n ↦
                rw (t, count, n)
                  (delete_secret-ok kube view laws component ns w1 (rw (t, count, n) at h1)
                    ∙ ap (λ v. put_at v ns component none) kept)
            | inl i ↦
                rw (t, count, i)
                  (updated component ns d _ w1 there1 (rw (t, count, i) at h1)
                    ∙ ap
                        (λ v. put_at v ns component (
                          some (
                            erase (pubkey_file_from_network network)
                              (erase (credsfile_from_network network) d))))
                        kept)
          ]
        ]),
      )
