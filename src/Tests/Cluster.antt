-- ===== src/Tests/Cluster.antt =====
-- The start of the program at a cluster without objects.
use anck.Prelude.{String, true, false, none, List, ◌≡◌, refl, str_dec}
use anck.Prelude.Exec.{err, ok, pure, lift, attempt, defer, ignoring, ◌>>=◌}
use anck.Text.{str_contains}
use anck.Common.{anck_namespace}
use anck.Nats.Config.Json.{to_json}
use anck.Nats.Server.{ServerInformation, get_nats_server_infos, with_service, dial, dial_from}
use anck.Resources.Kube.{Pod}
use anck.Resources.Secret.{clientset}
use anck.Resources.Others.{list_pods}
use anck.Additional.Apply.{apply_or_update, apply_ignore_existing}
use anck.Additional.Errors.{Stopped, apply_anck_credentials-err}
use anck.Additional.Apply.Laws.{missing, Cluster, found, written}
use anck.Additional.Ready.{ready}
use anck.Additional.NodeDns.{
  apply_node_dns, node_dns_namespace_object, node_dns_config_map, node_dns_daemon_set,
}
use anck.Additional.AnckCredentials.{
  apply_anck_credentials, credentials_namespace, credentials_cluster_role,
  credentials_cluster_role_binding, credentials_service, credentials_service_account,
  credentials_deployment,
}
use anck.Additional.LeafNats.{
  apply_leaf_nats, leaf_config, leaf_namespace, leaf_config_map, sys_account_creds_secret,
  leaf_daemon_set,
}
use anck.Additional.NatsResolver.{
  apply_nats_resolver, nats_resolver_config, resolver_namespace, resolver_cluster_role,
  resolver_cluster_role_binding, resolver_service_account, resolver_config_map,
  resolver_creds_secret, resolver_deployment,
}
use anck.Additional.NatsResolver.Laws.{resolver_objects, apply_nats_resolver-ok}
use anck.Additional.Laws.{
  leaf_objects, credentials_objects, apply_leaf_nats-ok, apply_anck_credentials-ok,
}
use anck.Start.{Flags, runs_credentials, wait_for_anck_credentials, or_exit, set_up, prepare}
use anck.Start.Waiting.{Ends, wait_for_anck_credentials_lem}
use anck.Start.Laws.{started, start_objects, prepare-ok}
use anck.Tests.ClusterWorld.{
  refused_error, picky_client, picky_client-IsClient, cluster_client, cluster_client-IsClient,
  cluster_service, cluster_service-Quiet, cluster_kube, cluster_kube-Reads, cluster_runtime,
  cluster_runtime-IsRuntime, some_json,
}

abbrev no_objects : Cluster
no_objects r = none

credentials_applied : (apply_anck_credentials cluster_client no_objects).0 ≡ ok tt
unfolding apply_anck_credentials apply_ignore_existing ignoring cluster_client credentials_namespace
    credentials_cluster_role credentials_cluster_role_binding credentials_service
    credentials_service_account credentials_deployment ◌>>=◌ str_dec
credentials_applied = refl

apply_anck_credentials-ok_example :
    ((apply_anck_credentials cluster_client no_objects).1 ≡ found credentials_objects no_objects)
    × (ready (apply_anck_credentials cluster_client no_objects).1 credentials_objects ≡ true)
apply_anck_credentials-ok_example =
    apply_anck_credentials-ok cluster_client (λ a. a) cluster_client-IsClient no_objects
      credentials_applied

deployment_refused : (apply_anck_credentials picky_client no_objects).0 ≡ err refused_error
unfolding apply_anck_credentials apply_ignore_existing ignoring picky_client credentials_namespace
    credentials_cluster_role credentials_cluster_role_binding credentials_service
    credentials_service_account credentials_deployment ◌>>=◌ str_dec
deployment_refused = refl

apply_anck_credentials-err_example :
    Stopped credentials_objects missing no_objects
      (apply_anck_credentials picky_client no_objects).1
apply_anck_credentials-err_example =
    apply_anck_credentials-err picky_client (λ a. a) picky_client-IsClient no_objects refused_error
      deployment_refused

leaf_applied : (apply_leaf_nats cluster_client cluster_service some_json no_objects).0 ≡ ok tt
unfolding apply_leaf_nats apply_or_update attempt cluster_client get_nats_server_infos with_service
    dial dial_from defer to_json lift leaf_namespace leaf_config_map sys_account_creds_secret
    leaf_daemon_set pure ◌>>=◌ str_dec
leaf_applied = refl

apply_leaf_nats-ok_example :
    (infos : ServerInformation) × (text : String) × (asked : Cluster) × ((get_nats_server_infos
        cluster_service asked).0
      ≡ ok infos)
    × (to_json some_json (leaf_config infos) ≡ ok text)
    × ((apply_leaf_nats cluster_client cluster_service some_json no_objects).1
        ≡ written (leaf_objects text infos.sys_creds) no_objects)
    × (ready
          (apply_leaf_nats cluster_client cluster_service some_json no_objects).1
          (leaf_objects text infos.sys_creds)
        ≡ true)
apply_leaf_nats-ok_example =
    apply_leaf_nats-ok cluster_client (λ a. a) cluster_client-IsClient cluster_service
      cluster_service-Quiet some_json no_objects leaf_applied

resolver_applied :
    (apply_nats_resolver cluster_client cluster_service some_json no_objects).0 ≡ ok tt
unfolding apply_nats_resolver apply_ignore_existing ignoring cluster_client get_nats_server_infos
    with_service dial dial_from defer to_json lift attempt resolver_namespace resolver_cluster_role
    resolver_cluster_role_binding resolver_service_account resolver_config_map resolver_creds_secret
    resolver_deployment pure ◌>>=◌ str_dec
resolver_applied = refl

apply_nats_resolver-ok_example :
    (infos : ServerInformation) × (text : String) × ((get_nats_server_infos cluster_service
        no_objects).0
      ≡ ok infos)
    × (to_json some_json (nats_resolver_config infos) ≡ ok text)
    × ((apply_nats_resolver cluster_client cluster_service some_json no_objects).1
        ≡ found (resolver_objects text infos.sys_creds) no_objects)
    × (ready
          (apply_nats_resolver cluster_client cluster_service some_json no_objects).1
          (resolver_objects text infos.sys_creds)
        ≡ true)
apply_nats_resolver-ok_example =
    apply_nats_resolver-ok cluster_client (λ a. a) cluster_client-IsClient cluster_service
      cluster_service-Quiet some_json no_objects resolver_applied

abbrev flags : Flags
flags = record { metrics_addr = ":8080"; probe_addr = ":8081"; enable_leader_election = false }

prepared :
    (prepare cluster_runtime cluster_kube cluster_service some_json (λ a. a) flags 60 no_objects).0
    ≡ ok tt
unfolding prepare or_exit set_up apply_anck_credentials apply_node_dns apply_leaf_nats
    apply_or_update apply_ignore_existing ignoring cluster_client wait_for_anck_credentials
    runs_credentials str_contains list_pods clientset get_nats_server_infos with_service dial
    dial_from defer to_json lift attempt credentials_namespace credentials_cluster_role
    credentials_cluster_role_binding credentials_service credentials_service_account
    credentials_deployment node_dns_namespace_object node_dns_config_map node_dns_daemon_set
    leaf_namespace leaf_config_map sys_account_creds_secret leaf_daemon_set pure ◌>>=◌ str_dec
prepared = refl

prepare-ok_example :
    ((polled : Cluster) × (pods : List Pod) × (polled ≡ found credentials_objects no_objects)
      × ((list_pods cluster_kube anck_namespace polled).0 ≡ ok pods)
      × (runs_credentials pods ≡ true))
    × ((infos : ServerInformation) × (text : String) × (asked : Cluster) × ((get_nats_server_infos
            cluster_service asked).0
          ≡ ok infos)
        × (to_json some_json (leaf_config infos) ≡ ok text)
        × ((prepare cluster_runtime cluster_kube cluster_service some_json
              (λ a. a)
              flags
              60
              no_objects).1
            ≡ started text infos.sys_creds no_objects)
        × (ready
              (prepare cluster_runtime cluster_kube cluster_service some_json
                (λ a. a)
                flags
                60
                no_objects).1
              (start_objects text infos.sys_creds)
            ≡ true))
prepare-ok_example =
    prepare-ok cluster_runtime cluster_kube cluster_service some_json (λ a. a) (λ a. a)
      cluster_runtime-IsRuntime cluster_kube-Reads cluster_service-Quiet (λ w. refl) flags 60
      no_objects tt prepared

wait_for_anck_credentials_lem_example : Ends cluster_kube (λ a. a) 60 no_objects
wait_for_anck_credentials_lem_example =
    wait_for_anck_credentials_lem cluster_kube (λ a. a) 60 no_objects
