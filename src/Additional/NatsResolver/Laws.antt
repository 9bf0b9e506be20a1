-- ===== src/Additional/NatsResolver/Laws.antt =====
-- What `ApplyNatsResolver` leaves in the cluster.
use anck.Prelude.{String, true, List, [], ◌∷◌, ◌++◌, ◌≡◌, refl, ap, ◌∙◌, str_dec}
use anck.Prelude.Dict.{lookup}
use anck.Prelude.Exec.{Exec, ok, bind_inv, ◌>>◌, lift}
use anck.Nats.Config.Json.{Json, to_json}
use anck.Nats.Server.{Service, ServerInformation, get_nats_server_infos}
use anck.Nats.Server.Quiet.{Quiet, get_nats_server_infos-Keeps}
use anck.Additional.Objects.{Object}
use anck.Additional.Client.{Client, IsClient}
use anck.Additional.Apply.{apply_ignore_existing}
use anck.Additional.Apply.Laws.{Cluster, found, missing, apply_ignore_existing-Writes, each-found}
use anck.Additional.Ready.{ready}
use anck.Additional.NatsResolver.{
  resolver_namespace, resolver_cluster_role, resolver_cluster_role_binding,
  resolver_service_account, nats_resolver_config, resolver_config_map, resolver_creds_secret,
  resolver_deployment, apply_nats_resolver,
}

abbrev account_objects : List Object
account_objects =
    resolver_namespace ∷ resolver_cluster_role ∷ resolver_cluster_role_binding
    ∷ resolver_service_account ∷ []

abbrev server_objects : String → String → List Object
server_objects text creds =
    resolver_config_map text ∷ resolver_creds_secret creds ∷ resolver_deployment ∷ []

abbrev pub resolver_objects : String → String → List Object
resolver_objects text creds = account_objects ++ server_objects text creds

resolver-ready :
    (text creds : String) (a : Cluster)
    → ready (found (resolver_objects text creds) a) (resolver_objects text creds) ≡ true
unfolding ready resolver_namespace resolver_cluster_role resolver_cluster_role_binding
    resolver_service_account resolver_config_map resolver_creds_secret resolver_deployment str_dec
    lookup
resolver-ready text creds a = refl

module _ {W : Type 0} (client : Client W) (applied : W → Cluster)
    (laws : IsClient client applied) where
  -- the first call of a chain
  step :
      (o : Object) (m : Exec W (Unit {0})) (w : W)
      → ((apply_ignore_existing client o >> m) w).0 ≡ ok tt
      → (w' : W) × (applied w' ≡ missing o (applied w))
        × ((m w').0 ≡ ok tt)
        × ((apply_ignore_existing client o >> m) w ≡ m w')
  step o m w h =
      let (u, e, h1, s) = bind_inv (apply_ignore_existing client o) (λ _. m) w h in
      (
        (apply_ignore_existing client o w).1,
        apply_ignore_existing-Writes client applied laws o w e,
        h1,
        s,
      )

  module _ (service : Service W) (quiet : Quiet service applied) (json : Json) where
    -- After `ApplyNatsResolver` without an error, the service has answered with the information on the
    -- server and the configuration for it could be written; each of the objects that was not there is the
    -- one that the program makes of these, each that was there is still as it was, nothing else is
    -- changed, and there is one of each that the deployment and the binding refer to.
    pub apply_nats_resolver-ok :
        (w : W)
        → (apply_nats_resolver client service json w).0 ≡ ok tt
        → (infos : ServerInformation) × (text : String) × ((get_nats_server_infos service w).0
            ≡ ok infos)
          × (to_json json (nats_resolver_config infos) ≡ ok text)
          × (applied (apply_nats_resolver client service json w).1
              ≡ found (resolver_objects text infos.sys_creds) (applied w))
          × (ready
                (applied (apply_nats_resolver client service json w).1)
                (resolver_objects text infos.sys_creds)
              ≡ true)
    unfolding apply_nats_resolver lift
    apply_nats_resolver-ok w h =
        let (infos, e0, h0, s0) = bind_inv (get_nats_server_infos service) _ w h in
        let (w1, a1, h1, s1) = step resolver_namespace _ (get_nats_server_infos service w).1 h0 in
        let (w2, a2, h2, s2) = step resolver_cluster_role _ w1 h1 in
        let (w3, a3, h3, s3) = step resolver_cluster_role_binding _ w2 h2 in
        let (w4, a4, h4, s4) = step resolver_service_account _ w3 h3 in
        let (text, e5, h5, s5) =
          bind_inv (lift (to_json json (nats_resolver_config infos))) _ w4 h4 in
        let rest =
          each-found client applied laws (resolver_config_map text)
            (resolver_creds_secret infos.sys_creds ∷ resolver_deployment ∷ []) w4 h5 in
        let before : applied w4 ≡ found account_objects (applied w) =
          a4
          ∙ ap (missing resolver_service_account) (
              a3
              ∙ ap (missing resolver_cluster_role_binding) (
                  a2
                  ∙ ap (missing resolver_cluster_role) (
                      a1
                      ∙ ap (missing resolver_namespace)
                          (get_nats_server_infos-Keeps service applied quiet w)))) in
        let all : applied (apply_nats_resolver client service json w).1
            ≡ found (resolver_objects text infos.sys_creds) (applied w) =
          ap (λ x. applied x.1) (s0 ∙ s1 ∙ s2 ∙ s3 ∙ s4 ∙ s5)
          ∙ rest
          ∙ ap (found (server_objects text infos.sys_creds)) before in
        (infos, text, e0, e5, all, rw all (resolver-ready text infos.sys_creds (applied w)))
