-- ===== src/Controllers/Streams.antt =====
-- `reconcileJetstreams` of controllers/network/network_controller.go, and `createMainJetstreams` and
-- `deleteMainJetstreams` of main_jetstreams.go. Each acts on the network that its caller passes by a
-- pointer: a variable beside the world. Log lines are left out, and of a returned error the result that
-- comes with it, which controller-runtime does not look at.
pub mod Laws
use anck.Prelude.{
  ℕ, String, ◌<>◌, Bool, true, false, none, some, List, [], ◌∷◌, ◌⊎◌, inl, inr, ◌==◌, string_eq,
  if◌then◌else◌,
}
use anck.Prelude.Dict.{Dict, insert, keys}
use anck.Prelude.Exec.{
  Exec, Error, errorf, pure, raise, attempt, inner, value, assign, defer, ◌>>=◌, ◌>>◌,
}
use anck.Api.{Network, StreamSpec, AggregateStreamSpec}
use anck.Nats.Server.{Service}
use anck.Jetstreams.Duration.{Std}
use anck.Jetstreams.Messages.{new_domain_messages}
use anck.Jetstreams.Jsm.{Jsm}
use anck.Jetstreams.Controller.{
  JetstreamController, new_jetstream_controller, cleanup, exists, create, create_aggregate, delete,
}
use anck.Resources.Kube.{Kube}
use anck.Controllers.SliceLib.{SliceLib}
use anck.Controllers.Secrets.{app_component_name, read_credentials_from_secret}
use anck.Controllers.Finalizers.{
  remove_network_finalizers, add_network_finalizer, update_info_and_return,
}
use anck.Controllers.NodeStreams.{Retry, Work, reconcile_nodes}

-- `ctrl.Result`: whether to reconcile again, and after how many seconds
pub record Requeue : Type 0 where
  pub requeue : Bool
  pub after : ℕ

abbrev pub anck_participant : String
anck_participant = "anck-this-name-shall-never-be-used"

abbrev pub main_domain : String
main_domain = "main"

-- the standard streams and the aggregates of the main domain
unfoldable pub standard_streams : List StreamSpec → List StreamSpec
standard_streams [] = []
standard_streams (s ∷ ss) =
    let rest = standard_streams ss in
    if s.location == main_domain then elim s.link [ some _ ↦ rest | none ↦ s ∷ rest ] else rest

unfoldable pub aggregate_streams : List StreamSpec → List StreamSpec
aggregate_streams [] = []
aggregate_streams (s ∷ ss) =
    let rest = aggregate_streams ss in
    if s.location == main_domain then elim s.link [ some _ ↦ s ∷ rest | none ↦ rest ] else rest

-- the names of the streams of the main domain that are to be deleted
unfoldable pub main_stream_names : Network → List StreamSpec → List String
main_stream_names network [] = []
main_stream_names network (s ∷ ss) =
    let rest = main_stream_names network ss in
    if s.location == main_domain then (network.spec.app <> "_" <> s.name) ∷ rest else rest

-- the nodes that are active
unfoldable pub current_nodes : Dict String → List String
current_nodes [] = []
current_nodes ((node, state) ∷ nodes) =
    let rest = current_nodes nodes in if state == "active" then node ∷ rest else rest

-- `network.Info.MainDomain.Standard[stream] = state`, and the same for an aggregate
abbrev pub set_standard : String → String → Network → Network
set_standard stream state network =
    let main = network.info.main_domain in
    record network {
      info = record network.info {
        main_domain = record main { standard = insert stream state main.standard };
      };
    }

abbrev pub set_aggregate : String → AggregateStreamSpec → Network → Network
set_aggregate stream spec network =
    let main = network.info.main_domain in
    record network {
      info = record network.info {
        main_domain = record main { aggregate = insert stream spec main.aggregate };
      };
    }

module _ {W : Type 0} {F : Type 0} (kube : Kube W) (service : Service W) (jsm : Jsm W)
    (std : Std F) where
  abbrev wrapped : {A : Type 0} → String → Error ⊎ A → Exec W A
  wrapped text (inl e) = raise (errorf ("err: " <> text <> ":" <> e.text))
  wrapped text (inr a) = pure a

  -- the way in: the credentials, and a controller that is cleaned up at the end
  with_controller :
      {A : Type 0}
      → String
      → Network
      → (JetstreamController → Exec (Network × W) A)
      → Exec (Network × W) A
  with_controller text network body = do
    creds ← inner (
        read_credentials_from_secret kube (app_component_name network.spec.app anck_participant)
          network.meta.name network.spec.namespace)
    r ← inner (attempt (new_jetstream_controller jsm service creds))
    js ← inner (wrapped text r)
    defer (λ (n, w). (n, cleanup jsm js w)) (body js)

  -- one standard stream, and whether the loop goes on
  create_main : JetstreamController → StreamSpec → Exec (Network × W) Bool
  create_main js stream = do
    network ← value
    r ← attempt (inner (exists jsm js main_domain stream.name))
    elim r [
      | inl _ ↦ pure false
      | inr true ↦ pure true
      | inr false ↦ (do
        r ←
            attempt
              (inner (create jsm std js main_domain network.meta.name stream network.spec.subjects))
        elim r [
          | inl _ ↦ (do assign (set_standard stream.name "error" network); pure false)
          | inr _ ↦ (do assign (set_standard stream.name "created" network); pure true)
        ])
    ]

  create_mains : JetstreamController → List StreamSpec → Exec (Network × W) (Unit {0})
  unfolding create_main
  create_mains js [] = pure tt
  create_mains js (stream ∷ streams) = do
    go_on ← create_main js stream
    let rest = create_mains js streams
    if go_on then rest else pure tt

  create_aggregates : JetstreamController → List StreamSpec → Exec (Network × W) (Unit {0})
  create_aggregates js [] = pure tt
  create_aggregates js (stream ∷ streams) = do
    network ← value
    let nodes = current_nodes network.info.participating.nodes
    r ← attempt (inner (create_aggregate jsm std js main_domain network stream nodes))
    assign (
        set_aggregate stream.name
          (record {
            source_domains = nodes;
            source_name = stream.name;
            state = elim r [ inl _ ↦ "error" | inr _ ↦ "created" ];
          })
          network)
    create_aggregates js streams

  -- `createMainJetstreams`; its messages are only collected
  unfoldable pub create_main_jetstreams : Exec (Network × W) Requeue
  unfolding with_controller create_mains create_aggregates
  create_main_jetstreams = do
    network ← value
    with_controller "Error creating jetstream manager" network (λ js. do
      create_mains js (standard_streams network.spec.streams)
      create_aggregates js (aggregate_streams network.spec.streams)
      changed ← value
      inner (update_info_and_return kube changed network)
      pure (record { requeue = false; after = 0 }))

  -- `deleteMainJetstreams`
  unfoldable pub delete_main_jetstreams : Exec (Network × W) Requeue
  unfolding with_controller
  delete_main_jetstreams = do
    network ← value
    with_controller "Error creating jetstream controller" network (λ js. do
      r ← attempt (
          inner (
            delete jsm js main_domain network.meta.name
              (main_stream_names network network.spec.streams)))
      elim r [
        | inl e ↦ raise (errorf ("err: " <> e.text))
        | inr _ ↦ pure (record { requeue = false; after = 0 })
      ])

  module _ (lib : SliceLib) (retry : Retry W) where
    -- the network after the loop over its nodes
    unfoldable pub with_work : Work → Network → Network
    with_work work network = add_network_finalizer lib work.added (
        remove_network_finalizers lib work.removed
          (record network { info = record network.info { participating = work.participating } }))

    abbrev pub start_of : Network → Work
    start_of network = record {
      participating = network.info.participating;
      removed = [];
      added = [];
      tries = record { failed = []; messages = new_domain_messages };
    }

    -- the part of `reconcileJetstreams` that has a controller
    reconcile_with : Network → JetstreamController → Exec (Network × W) Requeue
    reconcile_with network js = do
      work ← inner (
          reconcile_nodes jsm std js lib retry (keys network.info.participating.nodes) network
            (start_of network))
      assign (with_work work network)
      inner (update_info_and_return kube (with_work work network) network)
      pure (record { requeue = true; after = 0 })

    -- `reconcileJetstreams`. Errors on streams are in no result: where the code looks for them, behind the
    -- update, `err` is nil.
    unfoldable pub reconcile_jetstreams : Exec (Network × W) Requeue
    unfolding with_controller reconcile_with
    reconcile_jetstreams = do
      network ← value
      with_controller "Error creating jetstream manager" network (reconcile_with network)
