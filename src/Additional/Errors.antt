-- ===== src/Additional/Errors.antt =====
-- What is in the cluster when one of the calls of pkg/additional fails.
use anck.Prelude.{List, [], ◌∷◌, ◌++◌, inl, inr, ◌≡◌, ◌≢◌, refl, ap, ◌∙◌, Bool-cases, fun_ext}
use anck.Prelude.Exec.{
  Exec, Error, Result, ok, err, panic, is_already_exists, attempt, attempted, continue, pure, raise,
  ignoring_err, >>_err, ◌>>=◌,
}
use anck.Additional.Objects.{Object}
use anck.Additional.Client.{Client, IsClient}
use anck.Additional.Apply.{apply_or_update, apply_ignore_existing, after_creation}
use anck.Additional.Apply.Laws.{
  Cluster, over, missing, folded, each, apply_or_update-Writes, apply_ignore_existing-Writes,
}
use anck.Additional.NodeDns.{
  node_dns_namespace_object, node_dns_config_map, node_dns_daemon_set, apply_node_dns,
}
use anck.Additional.AnckCredentials.{credentials_namespace, apply_anck_credentials}
use anck.Additional.Laws.{node_dns_objects, credentials_objects, later_credentials_objects}

-- Some of the objects, in their order and not all, were applied.
pub record Stopped (objects : List Object) (put : Object → Cluster → Cluster) (a b : Cluster)
    : Type 0 where
  pub done : List Object
  pub left : List Object
  pub parts : done ++ left ≡ objects
  pub some_left : left ≢ []
  pub state : b ≡ folded put done a

module _ {W : Type 0} (client : Client W) (applied : W → Cluster)
    (laws : IsClient client applied) where
  apply_or_update-err :
      (o : Object) (w : W) (e : Error)
      → (apply_or_update client o w).0 ≡ err e
      → applied (apply_or_update client o w).1 ≡ applied w
  unfolding apply_or_update attempt ◌>>=◌ pure raise
  apply_or_update-err o w e h = go (client.create o w).0 refl h
    where
      go :
          (r : Result (Unit {0}))
          → (client.create o w).0 ≡ r
          → (continue (attempted r) (after_creation client o) (client.create o w).1).0 ≡ err e
          → applied (continue (attempted r) (after_creation client o) (client.create o w).1).1
            ≡ applied w
      go (ok u) p h = cc
      go (err x) p h = elim (Bool-cases (is_already_exists x)) [
        | inl t ↦ rw t (
            fun_ext (laws.update-err o (client.create o w).1 e (rw t at h))
            ∙ fun_ext ((laws.create-err o w x p).0))
        | inr f ↦ rw f (fun_ext ((laws.create-err o w x p).0))
      ]
      go panic p h = cc

  apply_ignore_existing-err :
      (o : Object) (w : W) (e : Error)
      → (apply_ignore_existing client o w).0 ≡ err e
      → applied (apply_ignore_existing client o w).1 ≡ applied w
  unfolding apply_ignore_existing
  apply_ignore_existing-err o w e h =
      let (failed, state) = ignoring_err is_already_exists (client.create o) w e h in
      rw state (fun_ext ((laws.create-err o w e failed).0))

  -- a chain of calls of either kind
  each-err :
      (f : Object → Exec W (Unit {0})) (put : Object → Cluster → Cluster)
      → ((o : Object) (w : W) → (f o w).0 ≡ ok tt → applied (f o w).1 ≡ put o (applied w))
      → ((o : Object) (w : W) (e : Error) → (f o w).0 ≡ err e → applied (f o w).1 ≡ applied w)
      → (o : Object) (os : List Object) (w : W) (e : Error) → (each f o os w).0 ≡ err e
      → Stopped (o ∷ os) put (applied w) (applied (each f o os w).1)
  each-err f put writes keeps o [] w e h = record {
    done = [];
    left = o ∷ [];
    parts = refl;
    some_left = λ n. cc;
    state = keeps o w e h;
  }
  each-err f put writes keeps o (o2 ∷ os) w e h = elim (>>_err (f o) (each f o2 os) w e h) [
    | inl (failed, same) ↦ record {
      done = [];
      left = o ∷ o2 ∷ os;
      parts = refl;
      some_left = λ n. cc;
      state = ap (λ x. applied x.1) same ∙ keeps o w e failed;
    }
    | inr (made, failed, same) ↦
        let rest = each-err f put writes keeps o2 os (f o w).1 e failed in
        record {
          done = o ∷ rest.done;
          left = rest.left;
          parts = ap (λ l. o ∷ l) rest.parts;
          some_left = rest.some_left;
          state =
              ap (λ x. applied x.1) same ∙ rest.state ∙ ap (folded put rest.done) (writes o w made);
        }
  ]

  -- Where `ApplyNodeDNS` returns an error, it has stopped at the object that failed: the cluster has the
  -- ones before it as the program makes them, and nothing else in it is changed.
  pub apply_node_dns-err :
      (w : W) (e : Error)
      → (apply_node_dns client w).0 ≡ err e
      → Stopped node_dns_objects over (applied w) (applied (apply_node_dns client w).1)
  unfolding apply_node_dns
  apply_node_dns-err w e h =
      each-err (apply_or_update client) over (apply_or_update-Writes client applied laws)
        apply_or_update-err node_dns_namespace_object
        (node_dns_config_map ∷ node_dns_daemon_set ∷ []) w e h

  -- Where `ApplyAnckCredentials` returns an error, it has stopped at the object that failed: of the ones
  -- before it, each that was not there is the one of the program, and nothing else is changed.
  pub apply_anck_credentials-err :
      (w : W) (e : Error)
      → (apply_anck_credentials client w).0 ≡ err e
      → Stopped credentials_objects missing
          (applied w)
          (applied (apply_anck_credentials client w).1)
  unfolding apply_anck_credentials
  apply_anck_credentials-err w e h =
      each-err (apply_ignore_existing client) missing
        (apply_ignore_existing-Writes client applied laws) apply_ignore_existing-err
        credentials_namespace later_credentials_objects w e h
