-- ===== src/Additional/Client.antt =====
-- controller-runtime's `client.Client`, as a parameter, and what it documents.
use anck.Prelude.{
  String, Bool, true, ◌&&◌, Option, none, some, ◌==◌, string_eq, if◌then◌else◌, ◌≡◌, ◌≢◌,
}
use anck.Prelude.Exec.{Exec, Error, ok, err, is_already_exists}
use anck.Additional.Objects.{
  Object, Body, namespace, service_account, config_map, secret, cluster_role, cluster_role_binding,
  service, daemon_set, deployment,
}

pub record Client (W : Type 0) : Type 1 where
  pub create : Object → Exec W (Unit {0})
  pub update : Object → Exec W (Unit {0})

-- what tells objects of the cluster apart: the resource, the namespace and the name
pub record Ref : Type 0 where
  pub resource : String
  pub namespace : String
  pub name : String

abbrev pub same_ref : Ref → Ref → Bool
same_ref a b = (a.resource == b.resource) && (a.namespace == b.namespace) && (a.name == b.name)

-- the resource of a Go type
abbrev pub resource_of : Body → String
resource_of namespace = "namespaces"
resource_of service_account = "serviceaccounts"
resource_of (config_map _) = "configmaps"
resource_of (secret _) = "secrets"
resource_of (cluster_role _) = "clusterroles"
resource_of (cluster_role_binding _) = "clusterrolebindings"
resource_of (service _) = "services"
resource_of (daemon_set _) = "daemonsets"
resource_of (deployment _) = "deployments"

abbrev pub ref_of : Object → Ref
ref_of o = record {
  resource = resource_of o.body;
  namespace = o.meta.namespace;
  name = o.meta.name;
}

-- What the API server does with a request, where `applied` is what was last written for each object: a
-- request that fails writes nothing; a creation succeeds only where there is no such object, and says
-- that there is one only where there is; an update succeeds only where there is one.
pub record IsClient {W : Type 0} (client : Client W) (applied : W → Ref → Option Object)
    : Type 0 where
  pub create-ok :
      (o : Object) (w : W)
      → (client.create o w).0 ≡ ok tt
      → (applied w (ref_of o) ≡ none)
        × ((r : Ref)
            → applied (client.create o w).1 r
              ≡ (if same_ref (ref_of o) r then some o else applied w r))
  pub create-err :
      (o : Object) (w : W) (e : Error)
      → (client.create o w).0 ≡ err e
      → ((r : Ref) → applied (client.create o w).1 r ≡ applied w r)
        × (is_already_exists e ≡ true → applied w (ref_of o) ≢ none)
  pub update-ok :
      (o : Object) (w : W)
      → (client.update o w).0 ≡ ok tt
      → (applied w (ref_of o) ≢ none)
        × ((r : Ref)
            → applied (client.update o w).1 r
              ≡ (if same_ref (ref_of o) r then some o else applied w r))
  pub update-err :
      (o : Object) (w : W) (e : Error)
      → (client.update o w).0 ≡ err e
      → (r : Ref) → applied (client.update o w).1 r ≡ applied w r
