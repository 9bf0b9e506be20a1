-- ===== src/Tests/Jetstreams.antt =====
-- A whole reconciliation of the streams of a network.
use anck.Prelude.{String, true, not, ◌&&◌, ◌||◌, contains, string_eq, ◌≡◌, refl, str_dec}
use anck.Prelude.Dict.{lookup, insert, erase, keys}
use anck.Prelude.Exec.{ok, pure, raise, attempt, inner, value, assign, lift, defer, ◌>>=◌}
use anck.Common.Slice.{slice_equal, slice_diff}
use anck.Api.{Network}
use anck.Nats.Server.{get_nats_server_infos, with_service, dial, dial_from}
use anck.Jetstreams.Duration.{parse_duration_string, trim_space}
use anck.Jetstreams.StreamConfig.{create_jetstream_config, gather, qualify}
use anck.Jetstreams.Messages.{ok_message, add_message}
use anck.Jetstreams.Controller.{
  JetstreamController, new_jetstream_controller, create_creds_file, exists, create,
}
use anck.Resources.Secret.{clientset}
use anck.Controllers.Secrets.{read_credentials_from_secret}
use anck.Controllers.Participating.{network_node_state, activate, leave, remove_pods}
use anck.Controllers.NodeStreams.{
  Work, create_stream, create_streams, try_streams, after_tries, reconcile_node_in, reconcile_node,
  reconcile_nodes,
}
use anck.Controllers.NodeStreams.Laws.{Safe}
use anck.Controllers.Finalizers.{
  add_network_finalizer, remove_network_finalizers, info_equal, update_info_and_return,
}
use anck.Controllers.Streams.{with_work, start_of, reconcile_jetstreams}
use anck.Controllers.Streams.Laws.{reconcile_jetstreams-Safe}
use anck.Tests.Slices.{slices, slices-IsSliceLib, dedup}
use anck.Tests.NetworkWorld.{
  network_kube, network_service, whole, empty_jsm, nodes, a_network, retry_once,
}
use anck.Tests.Participating.{nodes-IsWellFormed}

streams_run :
    (reconcile_jetstreams network_kube network_service empty_jsm whole slices retry_once
      (a_network, a_network)).0
    ≡ ok (record { requeue = true; after = 0 })
unfolding reconcile_jetstreams with_work new_jetstream_controller create_creds_file
    get_nats_server_infos with_service dial dial_from read_credentials_from_secret clientset
    reconcile_nodes reconcile_node reconcile_node_in network_node_state try_streams create_streams
    create_stream after_tries activate leave dedup remove_pods exists create create_jetstream_config
    gather qualify parse_duration_string trim_space ok_message add_message add_network_finalizer
    remove_network_finalizers info_equal update_info_and_return attempt inner value assign lift
    defer ◌>>=◌ pure raise lookup insert erase slice_equal slice_diff str_dec
streams_run = refl

reconcile_jetstreams-Safe_example :
    (js : JetstreamController) × (w' : Network) × (work : Work) × ((reconcile_nodes empty_jsm whole
        js slices retry_once
        (keys nodes.nodes)
        a_network
        (start_of network_kube network_service empty_jsm whole slices retry_once a_network)
        w').0
      ≡ ok work)
    × ((reconcile_jetstreams network_kube network_service empty_jsm whole slices retry_once
          (a_network, a_network)).1.0
        ≡ with_work network_kube network_service empty_jsm whole slices retry_once work a_network)
    × Safe nodes
        (reconcile_jetstreams network_kube network_service empty_jsm whole slices retry_once
          (a_network, a_network)).1.0.info.participating
    × ((f : String)
        → contains
            (reconcile_jetstreams network_kube network_service empty_jsm whole slices retry_once
              (a_network, a_network)).1.0.meta.finalizers
            f
          ≡ ((contains a_network.meta.finalizers f && not (contains work.removed f))
              || contains work.added f))
reconcile_jetstreams-Safe_example =
    reconcile_jetstreams-Safe network_kube network_service empty_jsm whole slices slices-IsSliceLib
      retry_once a_network a_network (record { requeue = true; after = 0 }) nodes-IsWellFormed
      streams_run
