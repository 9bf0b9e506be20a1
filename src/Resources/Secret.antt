-- ===== src/Resources/Secret.antt =====
-- pkg/resources/secret.go and clientset.go.
use anck.Prelude.{
  String, Bool, Option, none, some, ◌⊎◌, inl, inr, ◌==◌, string_eq, if◌then◌else◌, any,
}
use anck.Prelude.Dict.{Dict}
use anck.Prelude.Exec.{Exec, Error, is_not_found, pure, raise, attempt, ignoring, ◌>>=◌, ◌>>◌}
use anck.Resources.Kube.{Kube, Secret}

module _ {W : Type 0} (kube : Kube W) where
  -- `clientset`
  unfoldable pub clientset : Exec W (Unit {0})
  clientset = do kube.in_cluster_config; kube.new_for_config

  -- `DeleteSecret`: a secret that is not there is no error
  unfoldable pub delete_secret : String → String → Exec W (Unit {0})
  delete_secret name namespace = do
    clientset
    ignoring is_not_found (kube.delete_secret namespace name)

  -- `ReadSecret`. The callers that go on after an error find an empty map; see `read_or_empty`.
  unfoldable pub read_secret : String → String → Exec W (Dict String)
  read_secret name namespace = do
    clientset
    secret ← kube.get_secret namespace name
    pure secret.entries

  -- `ExistsSecret`
  unfoldable pub exists_secret : String → String → Exec W Bool
  exists_secret name namespace = do
    clientset
    secrets ← kube.list_secrets namespace
    pure (any (λ s. s.name == name) secrets)

  -- the part of `UpdateSecret` behind the reading
  unfoldable pub write_entries : Dict String → Error ⊎ Secret → Exec W (Option Secret)
  write_entries entries (inl e) = if is_not_found e then pure none else raise e
  write_entries entries (inr secret) = do
    written ← kube.update_secret (record secret { entries = entries })
    pure (some written)

  -- `UpdateSecret`: `none` is the nil secret that stands for one that is not there
  unfoldable pub update_secret : String → String → Dict String → Exec W (Option Secret)
  update_secret name namespace entries = do
    clientset
    r ← attempt (kube.get_secret namespace name)
    write_entries entries r

  -- `CreateSecret`
  unfoldable pub create_secret : String → String → Dict String → Exec W Secret
  create_secret name namespace entries = do
    clientset
    kube.retry_on_conflict
        (kube.create_secret (record { name = name; namespace = namespace; entries = entries }))
