-- ===== src/Jetstreams/Controller.antt =====
-- `JetstreamController` of pkg/jetstreams/jetstreams.go: creating, updating and deleting streams in the
-- domains of a network. Log lines are left out.
pub mod Delete
pub mod Aggregate
use anck.Prelude.{
  ℕ, String, Bool, true, false, not, ◌||◌, Option, none, some, List, [], ◌∷◌, ◌⊎◌, inl, inr,
  if◌then◌else◌, ◌==◌, string_eq, contains, is_empty, nat_eq,
}
use anck.Prelude.Exec.{
  Exec, Error, Kind, nats_error, Result, ok, err, panic, errorf, pure, raise, lift, attempt, defer,
  ◌>>=◌, ◌>>◌,
}
use anck.Common.Slice.{slice_equal}
use anck.Api.{SubjectSpec, StreamSpec, StreamLinkSpec, Network}
use anck.Jetstreams.Duration.{Std}
use anck.Jetstreams.StreamConfig.{StreamConfig, StreamSource, create_jetstream_config}
use anck.Jetstreams.Sources.{
  MyStreamSource, my_stream_source_eq, convert_slice_of_pointers, full_name, aggregate_sources,
  mirror_source,
}
use anck.Nats.Server.{Service, get_nats_server_infos}
use anck.Jetstreams.Jsm.{Jsm}

pub record JetstreamController : Type 0 where
  pub creds_file : String
  pub nats_server_address : String

abbrev or_panic {ℓ} : {A : Type ℓ} → Option A → Result A
or_panic none = panic
or_panic (some a) = ok a

-- `jsm.IsNatsError(err, code)`
abbrev is_nats_error : Error → ℕ → Bool
is_nats_error e code = elim e.kind [ nats_error n ↦ nat_eq n code | _ ↦ false ]

module _ {W : Type 0} (jsm : Jsm W) where
  -- `createCredsFile`
  unfoldable pub create_creds_file : String → Exec W String
  create_creds_file creds = do f ← jsm.create_temp; jsm.write_string f creds; pure f

  -- `NewJetstreamController`
  unfoldable pub new_jetstream_controller : Service W → String → Exec W JetstreamController
  unfolding create_creds_file
  new_jetstream_controller service creds = do
    infos ← get_nats_server_infos service
    file ← create_creds_file creds
    pure (record { creds_file = file; nats_server_address = infos.nats_address })

  -- `NewJetstreamControllerWithAddress`
  unfoldable pub new_jetstream_controller_with_address :
      String → String → Exec W JetstreamController
  unfolding create_creds_file
  new_jetstream_controller_with_address creds address = do
    file ← create_creds_file creds
    pure (record { creds_file = file; nats_server_address = address })

  -- `Cleanup`
  abbrev pub cleanup : JetstreamController → W → W
  cleanup j = jsm.remove j.creds_file

  -- the way in that every method has: connect, close at the end, and make a manager
  abbrev with_manager {ℓ} :
      {A : Type ℓ} → JetstreamController → Option String → (jsm.Manager → Exec W A) → Exec W A
  with_manager j domain body = do
    nc ← jsm.connect j.nats_server_address j.creds_file
    defer (jsm.close nc) (do mgr ← jsm.new_manager nc domain; body mgr)

  unfoldable pub exists : JetstreamController → String → String → Exec W Bool
  exists j domain stream_name =
      with_manager j (some domain)
        (λ mgr. do streams ← jsm.stream_names mgr; pure (contains streams stream_name))

  unfoldable pub list_names_no_domain : JetstreamController → Exec W (List String)
  list_names_no_domain j = with_manager j none (λ mgr. jsm.stream_names mgr)

  unfoldable pub list_names : JetstreamController → String → Exec W (List String)
  list_names j domain = with_manager j (some domain) (λ mgr. jsm.stream_names mgr)

  unfoldable pub get : JetstreamController → String → String → Exec W jsm.Stream
  get j domain stream_name = with_manager j (some domain) (λ mgr. jsm.load_stream mgr stream_name)

  -- the part of `UpdateSources` behind the stream's configuration
  pub update_from : jsm.Stream → List StreamSource → Exec W (Unit {0})
  update_from stream new_sources = do
    config ← lift (jsm.copied (jsm.configuration stream))
    upstream ← lift (or_panic (convert_slice_of_pointers config.sources))
    new ← lift (or_panic (convert_slice_of_pointers new_sources))
    if slice_equal upstream new
        then pure tt
        else jsm.update_configuration stream (record config { sources = new_sources })

  unfoldable pub update_sources :
      JetstreamController → String → String → List StreamSource → Exec W (Unit {0})
  unfolding update_from
  update_sources j domain stream_name new_sources =
      with_manager j (some domain)
        (λ mgr. do stream ← jsm.load_stream mgr stream_name; update_from stream new_sources)

  -- the loop of `Delete`: goes on after an error, and returns whether there was one
  delete_streams : List jsm.Stream → Bool → Exec W Bool
  delete_streams [] errors = pure errors
  delete_streams (s ∷ ss) errors = do
    r ← attempt (jsm.delete s)
    delete_streams ss (elim r [ inl _ ↦ true | inr _ ↦ errors ])

  unfoldable pub delete_all : jsm.Manager → Exec W (Unit {0})
  unfolding delete_streams
  delete_all mgr = do
    ss ← jsm.streams mgr
    errors ← delete_streams ss false
    if errors then raise (errorf "error deleting streams") else pure tt

  -- `DeleteNoDomain`
  unfoldable pub delete_no_domain : JetstreamController → String → List String → Exec W (Unit {0})
  delete_no_domain j network names = with_manager j none delete_all

  -- `Delete`
  unfoldable pub delete : JetstreamController → String → String → List String → Exec W (Unit {0})
  delete j domain network names = with_manager j (some domain) delete_all

  module _ {F : Type 0} (std : Std F) where
    unfoldable pub create :
        JetstreamController → String → String → StreamSpec → List SubjectSpec → Exec W (Unit {0})
    create j domain network spec subjects = with_manager j (some domain) (λ mgr. do
      opts ← lift (create_jetstream_config std domain spec (some subjects))
      let name = full_name network spec.name
      jsm.load_or_new mgr name (record opts { name = name }))

    -- the update of an aggregate that is there; NATS error 10059 (stream not found) is passed over
    update_aggregate : JetstreamController → String → String → List StreamSource → Exec W (Unit {0})
    update_aggregate j domain target sources = do
      r ← attempt (update_sources j domain target sources)
      elim r [ inl e ↦ (if is_nats_error e 10059 then pure tt else raise e) | inr _ ↦ pure tt ]

    create_new : JetstreamController → String → String → StreamConfig → Exec W (Unit {0})
    create_new j domain target cfg =
        if is_empty cfg.sources
        then pure tt
        else with_manager j (some domain) (λ mgr. jsm.load_or_new mgr target cfg)

    aggregate_from :
        JetstreamController
        → String
        → Network
        → StreamSpec
        → List String
        → StreamConfig
        → Option StreamLinkSpec
        → Exec W (Unit {0})
    aggregate_from j domain network spec source_domains cfg none =
        raise (errorf "Cannot create aggregate. No link section found in stream spec")
    aggregate_from j domain network spec source_domains cfg (some link) = do
      let sources = aggregate_sources network.meta.name link source_domains
      let target = full_name network.meta.name spec.name
      there ← exists j domain target
      if there
          then update_aggregate j domain target sources
          else create_new j domain target (record cfg { name = target; sources = sources })

    unfoldable pub create_aggregate :
        JetstreamController → String → Network → StreamSpec → List String → Exec W (Unit {0})
    unfolding aggregate_from update_aggregate create_new
    create_aggregate j domain network spec source_domains = do
      cfg ← lift (create_jetstream_config std "" spec none)
      aggregate_from j domain network spec source_domains cfg spec.link

    mirror_from :
        jsm.Manager → Network → StreamSpec → StreamConfig → Option StreamSource → Exec W (Unit {0})
    mirror_from mgr network spec opts none = raise (errorf "mirror stream not found")
    mirror_from mgr network spec opts (some source) =
        let name = full_name network.meta.name spec.name in
        jsm.load_or_new mgr name (record opts { name = name; mirror = some source })

    unfoldable pub create_mirror :
        JetstreamController → String → String → Network → StreamSpec → Exec W (Unit {0})
    unfolding mirror_from
    create_mirror j domain source_domain network spec = with_manager j (some domain) (λ mgr. do
      opts ← lift (create_jetstream_config std "" spec none)
      mirror_from mgr network spec opts (mirror_source network.spec.streams source_domain))
