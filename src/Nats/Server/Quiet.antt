-- ===== src/Nats/Server/Quiet.antt =====
-- Asking the service for the information on the NATS server changes nothing that a view shows of the world.
use anck.Prelude.{ℕ, zero, suc, Option, none, some, ◌⊎◌, inl, inr, ◌≡◌, refl, ◌∙◌}
use anck.Prelude.Exec.{
  Exec, Error, defer, lift, panic, pure, raise, Keeps, >>=-Keeps, attempt-Keeps,
}
use anck.Nats.Server.{
  Service, ServerInformation, dial_from, dial, with_service, get_nats_server_infos,
}

-- Connecting, waiting and asking for the information leave alone what the view shows.
pub record Quiet {W V : Type 0} (service : Service W) (view : W → V) : Type 0 where
  pub connects : Keeps view service.connect
  pub closes : (c : service.Conn) (w : W) → view (service.close c w) ≡ view w
  pub sleeps : (w : W) → view (service.sleep w) ≡ view w
  pub informs : (c : service.Conn) → Keeps view (service.server_information c)

module _ {W V : Type 0} (service : Service W) (view : W → V) (quiet : Quiet service view) where
  answered :
      (n : ℕ)
      → ((e : Error) → Keeps view (dial_from service n (some e)))
      → (r : Error ⊎ service.Conn)
      → Keeps view (elim r as (λ _. Exec W (Option service.Conn)) [
        | inr conn ↦ pure (some conn)
        | inl e ↦ (λ w. dial_from service n (some e) (service.sleep w))
      ])
  unfolding pure
  answered n rest (inr conn) w = refl
  answered n rest (inl e) w = rest e (service.sleep w) ∙ quiet.sleeps w

  dial_from-Keeps : (n : ℕ) (last : Option Error) → Keeps view (dial_from service n last)
  unfolding dial_from pure raise
  dial_from-Keeps zero none = λ w. refl
  dial_from-Keeps zero (some e) = λ w. refl
  dial_from-Keeps (suc n) last =
      >>=-Keeps view _ _ (attempt-Keeps view service.connect quiet.connects)
        (answered n (λ e. dial_from-Keeps n (some e)))

  asked :
      (o : Option service.Conn)
      → Keeps view (elim o as (λ _. Exec W ServerInformation) [
        | none ↦ lift panic
        | some conn ↦ defer (service.close conn) (service.server_information conn)
      ])
  unfolding lift defer
  asked none w = refl
  asked (some conn) w = quiet.closes conn _ ∙ quiet.informs conn w

  pub get_nats_server_infos-Keeps : Keeps view (get_nats_server_infos service)
  unfolding get_nats_server_infos with_service dial
  get_nats_server_infos-Keeps = >>=-Keeps view _ _ (dial_from-Keeps 10 none) asked
