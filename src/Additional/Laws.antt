-- ===== src/Additional/Laws.antt =====
-- What the functions of pkg/additional leave in the cluster.
use anck.Prelude.{String, true, List, [], ◌∷◌, ◌≡◌, refl, ap, ◌∙◌, str_dec}
use anck.Prelude.Dict.{lookup}
use anck.Prelude.Exec.{ok, bind_inv, lift}
use anck.Nats.Config.Json.{Json, to_json}
use anck.Nats.Server.{Service, ServerInformation, get_nats_server_infos}
use anck.Nats.Server.Quiet.{Quiet, get_nats_server_infos-Keeps}
use anck.Additional.Objects.{Object}
use anck.Additional.Client.{Client, IsClient}
use anck.Additional.Apply.{apply_or_update}
use anck.Additional.Apply.Laws.{
  Cluster, written, found, apply_or_update-Writes, each-written, each-found,
}
use anck.Additional.Ready.{ready}
use anck.Additional.NodeDns.{
  node_dns_namespace_object, node_dns_config_map, node_dns_daemon_set, apply_node_dns,
}
use anck.Additional.AnckCredentials.{
  credentials_namespace, credentials_cluster_role, credentials_cluster_role_binding,
  credentials_service, credentials_service_account, credentials_deployment, apply_anck_credentials,
}
use anck.Additional.LeafNats.{
  leaf_namespace, leaf_config, leaf_config_map, sys_account_creds_secret, leaf_daemon_set,
  apply_leaf_nats,
}

abbrev pub node_dns_objects : List Object
node_dns_objects = node_dns_namespace_object ∷ node_dns_config_map ∷ node_dns_daemon_set ∷ []

node_dns-ready : (a : Cluster) → ready (written node_dns_objects a) node_dns_objects ≡ true
unfolding ready node_dns_namespace_object node_dns_config_map node_dns_daemon_set str_dec lookup
node_dns-ready a = refl

abbrev later_leaf_objects : String → String → List Object
later_leaf_objects text creds =
    leaf_config_map text ∷ sys_account_creds_secret creds ∷ leaf_daemon_set ∷ []

abbrev pub leaf_objects : String → String → List Object
leaf_objects text creds = leaf_namespace ∷ later_leaf_objects text creds

leaf-ready :
    (text creds : String) (a : Cluster)
    → ready (written (leaf_objects text creds) a) (leaf_objects text creds) ≡ true
unfolding ready leaf_namespace leaf_config_map sys_account_creds_secret leaf_daemon_set str_dec
    lookup
leaf-ready text creds a = refl

abbrev pub later_credentials_objects : List Object
later_credentials_objects =
    credentials_cluster_role ∷ credentials_cluster_role_binding ∷ credentials_service
    ∷ credentials_service_account ∷ credentials_deployment ∷ []

abbrev pub credentials_objects : List Object
credentials_objects = credentials_namespace ∷ later_credentials_objects

credentials-ready : (a : Cluster) → ready (found credentials_objects a) credentials_objects ≡ true
unfolding ready credentials_namespace credentials_cluster_role credentials_cluster_role_binding
    credentials_service credentials_service_account credentials_deployment str_dec lookup
credentials-ready a = refl

module _ {W : Type 0} (client : Client W) (applied : W → Cluster)
    (laws : IsClient client applied) where
  -- After `ApplyNodeDNS` without an error, the namespace, the configuration and the DaemonSet are the
  -- ones of the program, nothing else in the cluster is changed, and they fit together: what the
  -- DaemonSet mounts and refers to is there, and it selects its own pods.
  pub apply_node_dns-ok :
      (w : W)
      → (apply_node_dns client w).0 ≡ ok tt
      → (applied (apply_node_dns client w).1 ≡ written node_dns_objects (applied w))
        × (ready (applied (apply_node_dns client w).1) node_dns_objects ≡ true)
  unfolding apply_node_dns
  apply_node_dns-ok w h =
      let all =
        each-written client applied laws node_dns_namespace_object
          (node_dns_config_map ∷ node_dns_daemon_set ∷ []) w h in
      (all, rw all (node_dns-ready (applied w)))

  -- After `ApplyAnckCredentials` without an error, each of its objects that was not there is the one of
  -- the program, each that was there is still as it was, nothing else is changed, and there is one of
  -- each that the deployment and the binding refer to.
  pub apply_anck_credentials-ok :
      (w : W)
      → (apply_anck_credentials client w).0 ≡ ok tt
      → (applied (apply_anck_credentials client w).1 ≡ found credentials_objects (applied w))
        × (ready (applied (apply_anck_credentials client w).1) credentials_objects ≡ true)
  unfolding apply_anck_credentials
  apply_anck_credentials-ok w h =
      let all =
        each-found client applied laws credentials_namespace later_credentials_objects w h in
      (all, rw all (credentials-ready (applied w)))

  module _ (service : Service W) (quiet : Quiet service applied) (json : Json) where
    -- After `ApplyLeafNats` without an error, the service has answered with the information on the
    -- server, the configuration for it could be written, and the namespace, this configuration, the
    -- credentials of the system account and the DaemonSet are what is in the cluster; nothing else in it
    -- is changed, and they fit together.
    pub apply_leaf_nats-ok :
        (w : W)
        → (apply_leaf_nats client service json w).0 ≡ ok tt
        → (infos : ServerInformation) × (text : String) × (asked : W) × ((get_nats_server_infos
              service asked).0
            ≡ ok infos)
          × (to_json json (leaf_config infos) ≡ ok text)
          × (applied (apply_leaf_nats client service json w).1
              ≡ written (leaf_objects text infos.sys_creds) (applied w))
          × (ready
                (applied (apply_leaf_nats client service json w).1)
                (leaf_objects text infos.sys_creds)
              ≡ true)
    unfolding apply_leaf_nats lift
    apply_leaf_nats-ok w h =
        let writes = apply_or_update-Writes client applied laws in
        let (u, e1, h1, s1) = bind_inv (apply_or_update client leaf_namespace) _ w h in
        let w1 : W = (apply_or_update client leaf_namespace w).1 in
        let (infos, e2, h2, s2) = bind_inv (get_nats_server_infos service) _ w1 h1 in
        let w2 : W = (get_nats_server_infos service w1).1 in
        let (text, e3, h3, s3) = bind_inv (lift (to_json json (leaf_config infos))) _ w2 h2 in
        let rest =
          each-written client applied laws (leaf_config_map text)
            (sys_account_creds_secret infos.sys_creds ∷ leaf_daemon_set ∷ []) w2 h3 in
        let all : applied (apply_leaf_nats client service json w).1
            ≡ written (leaf_objects text infos.sys_creds) (applied w) =
          ap (λ x. applied x.1) (s1 ∙ s2 ∙ s3)
          ∙ rest
          ∙ ap (written (later_leaf_objects text infos.sys_creds))
              (get_nats_server_infos-Keeps service applied quiet w1 ∙ writes leaf_namespace w e1) in
        (infos, text, w1, e2, e3, all, rw all (leaf-ready text infos.sys_creds (applied w)))
