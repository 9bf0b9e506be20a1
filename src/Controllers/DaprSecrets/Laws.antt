-- ===== src/Controllers/DaprSecrets/Laws.antt =====
-- What `removeNetworkFromDaprSecret` does to the secrets of the cluster.
use anck.Prelude.{
  String, not, Option, none, some, if◌then◌else◌, ◌≡◌, sym, ap, ◌∙◌, Bool-cases, inl, inr,
}
use anck.Prelude.Dict.{Dict, erase, has_key}
use anck.Prelude.Exec.{ok, pure, bind_inv}
use anck.Resources.Kube.{Kube}
use anck.Resources.Secret.{read_secret}
use anck.Resources.SecretLaws.{View, put_at, put_at_same, Secrets, read_secret-ok, delete_secret-ok}
use anck.Controllers.Secrets.Entries.{is_ignored, length-filtered_secret}
use anck.Controllers.Secrets.Removal.{updated}
use anck.Controllers.DaprSecrets.{component_file, dapr_secret_name, remove_network_from_dapr_secret}

module _ {W : Type 0} (kube : Kube W) (view : W → View) (laws : Secrets kube view) where
  -- what is left of a secret with the data `d`
  abbrev pub without_config : String → Dict String → Option (Dict String)
  without_config network d =
      if not (has_key (component_file network) d)
      then some d
      else if is_ignored network
      then some (erase (component_file network) d)
      else none

  -- `removeNetworkFromDaprSecret` without an error: the component had a Dapr secret. It stays as it is where
  -- it has no configuration for the network; else it is deleted with the configurations of all networks,
  -- unless the network's name contains all of the texts that are ignored. All other secrets stay.
  pub remove_network_from_dapr_secret-ok :
      (component network ns : String) (w : W)
      → (remove_network_from_dapr_secret kube component network ns w).0 ≡ ok tt
      → (d : Dict String) × (view w ns (dapr_secret_name component) ≡ some d)
        × (view (remove_network_from_dapr_secret kube component network ns w).1
            ≡ put_at (view w) ns (dapr_secret_name component) (without_config network d))
  unfolding remove_network_from_dapr_secret
  remove_network_from_dapr_secret-ok component network ns w h =
      let n : String = dapr_secret_name component in
      let (d, e1, h1, s1) = bind_inv (read_secret kube n ns) _ w h in
      let w1 : W = (read_secret kube n ns w).1 in
      let (there, kept) = read_secret-ok kube view laws n ns w d e1 in
      let there1 : view w1 ns n ≡ some d = ap (λ v. v ns n) kept ∙ there in
      let count = length-filtered_secret network d in
      (
        d,
        there,
        rw s1 (elim (Bool-cases (has_key (component_file network) d)) [
          | inr f ↦ rw f (unfold pure in (kept ∙ sym (put_at_same (view w) ns n (some d) there)))
          | inl t ↦ elim (Bool-cases (is_ignored network)) [
            | inr i ↦
                rw (t, count, i)
                  (delete_secret-ok kube view laws n ns w1 (rw (t, count, i) at h1)
                    ∙ ap (λ v. put_at v ns n none) kept)
            | inl i ↦
                rw (t, count, i)
                  (updated kube view laws n ns d _ w1 there1 (rw (t, count, i) at h1)
                    ∙ ap (λ v. put_at v ns n (some (erase (component_file network) d))) kept)
          ]
        ]),
      )
