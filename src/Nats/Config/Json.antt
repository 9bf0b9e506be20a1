-- ===== src/Nats/Config/Json.antt =====
-- pkg/nats/config.go: a configuration as JSON. The tags of the structs say which members are written and
-- read; the text of a JSON value is a parameter, as the packages pretty and ioutil are.
use mathlib.Core.Option.{map}
use anck.Prelude.{String, Option, none, some, List, [], ◌∷◌, string_eq}
use anck.Prelude.Dict.{Dict}
use anck.Prelude.Exec.{Exec, Result, ok, err, panic, lift, ◌>>=◌}
use anck.Nats.Json.{
  Value, null, boolean, number, text, array, Members, struct, values, non_empty, find, and_then,
  read_or, read_pointer, read_text, read_number, read_boolean, read_array, members_of,
}
use anck.Nats.Config.{
  User, Jetstream, Authorization, Remote, Leafnodes, Resolver, Config, empty_config,
}

-- The structs as JSON, by their tags.
abbrev pub user_value : User → Value
user_value u = struct (("user", some (text u.user)) ∷ ("password", some (text u.password)) ∷ [])

abbrev pub jetstream_value : Jetstream → Value
jetstream_value j =
    struct (("store_dir", some (text j.store_dir)) ∷ ("domain", some (text j.domain)) ∷ [])

-- a slice that is nil or empty is left out
abbrev pub users_value : Option (List User) → Option Value
users_value none = none
users_value (some us) = non_empty user_value us

abbrev pub authorization_value : Authorization → Value
authorization_value a = struct (("users", users_value a.users) ∷ [])

abbrev pub remote_fields : Remote → Dict (Option Value)
remote_fields r =
    ("url", some (text r.url))
    ∷ ("credentials", some (text r.credentials))
    ∷ ("account", some (text r.account))
    ∷ ("deny_imports", non_empty text r.deny_imports)
    ∷ ("deny_exports", non_empty text r.deny_exports)
    ∷ []

abbrev pub remote_value : Remote → Value
remote_value r = struct (remote_fields r)

-- there is no `omitempty` here: a nil slice is `null`
abbrev pub remotes_value : Option (List Remote) → Value
remotes_value none = null
remotes_value (some rs) = array (values remote_value rs)

abbrev pub leafnodes_value : Leafnodes → Value
leafnodes_value l = struct (("remotes", some (remotes_value l.remotes)) ∷ [])

abbrev pub resolver_fields : Resolver → Dict (Option Value)
resolver_fields r =
    ("type", some (text r.type))
    ∷ ("dir", some (text r.dir))
    ∷ ("allow_delete", map boolean r.allow_delete)
    ∷ ("interval", map text r.interval)
    ∷ ("ttl", map text r.ttl)
    ∷ ("timeout", some (text r.timeout))
    ∷ []

abbrev pub resolver_value : Resolver → Value
resolver_value r = struct (resolver_fields r)

abbrev pub config_fields : Config → Dict (Option Value)
config_fields c =
    ("jetstream", map jetstream_value c.jetstream)
    ∷ ("authorization", map authorization_value c.authorization)
    ∷ ("pid_file", map text c.pid_file)
    ∷ ("http", some (number c.http))
    ∷ ("leafnodes", map leafnodes_value c.leafnodes)
    ∷ ("operator", map text c.operator)
    ∷ ("system_account", map text c.system_account)
    ∷ ("resolver", map resolver_value c.resolver)
    ∷ ("resolver_preload", c.resolver_preload)
    ∷ []

abbrev pub config_value : Config → Value
config_value c = struct (config_fields c)

-- Reading them back.
abbrev pub read_user : Value → Result User
read_user v = and_then (members_of v) (λ ms.
    and_then (read_or "" read_text (find "user" ms)) (λ user.
      and_then (read_or "" read_text (find "password" ms))
        (λ password. ok (record { user = user; password = password }))))

abbrev pub read_jetstream : Value → Result Jetstream
read_jetstream v = and_then (members_of v) (λ ms.
    and_then (read_or "" read_text (find "store_dir" ms)) (λ store_dir.
      and_then (read_or "" read_text (find "domain" ms))
        (λ domain. ok (record { store_dir = store_dir; domain = domain }))))

abbrev pub no_user : User
no_user = record { user = ""; password = "" }

abbrev pub read_authorization : Value → Result Authorization
read_authorization v = and_then (members_of v) (λ ms.
    and_then (read_pointer (read_array no_user read_user) (find "users" ms))
      (λ users. ok (record { users = users })))

abbrev pub no_remote : Remote
no_remote = record {
  url = "";
  credentials = "";
  account = "";
  deny_imports = [];
  deny_exports = [];
}

abbrev pub read_remote : Value → Result Remote
read_remote v = and_then (members_of v) (λ ms.
    and_then (read_or "" read_text (find "url" ms)) (λ url.
      and_then (read_or "" read_text (find "credentials" ms)) (λ credentials.
        and_then (read_or "" read_text (find "account" ms)) (λ account.
          and_then (read_or [] (read_array "" read_text) (find "deny_imports" ms)) (λ imports.
            and_then (read_or [] (read_array "" read_text) (find "deny_exports" ms)) (λ exports.
              ok (record {
                url = url;
                credentials = credentials;
                account = account;
                deny_imports = imports;
                deny_exports = exports;
              })))))))

abbrev pub read_leafnodes : Value → Result Leafnodes
read_leafnodes v = and_then (members_of v) (λ ms.
    and_then (read_pointer (read_array no_remote read_remote) (find "remotes" ms))
      (λ remotes. ok (record { remotes = remotes })))

abbrev pub read_resolver : Value → Result Resolver
read_resolver v = and_then (members_of v) (λ ms.
    and_then (read_or "" read_text (find "type" ms)) (λ type.
      and_then (read_or "" read_text (find "dir" ms)) (λ dir.
        and_then (read_pointer read_boolean (find "allow_delete" ms)) (λ allow_delete.
          and_then (read_pointer read_text (find "interval" ms)) (λ interval.
            and_then (read_pointer read_text (find "ttl" ms)) (λ ttl.
              and_then (read_or "" read_text (find "timeout" ms)) (λ timeout. ok (record {
                type = type;
                dir = dir;
                allow_delete = allow_delete;
                interval = interval;
                ttl = ttl;
                timeout = timeout;
              }))))))))

abbrev pub read_config_members : Members → Result Config
read_config_members ms = and_then (read_pointer read_jetstream (find "jetstream" ms)) (λ jetstream.
    and_then (read_pointer read_authorization (find "authorization" ms)) (λ authorization.
      and_then (read_pointer read_text (find "pid_file" ms)) (λ pid_file.
        and_then (read_or 0 read_number (find "http" ms)) (λ http.
          and_then (read_pointer read_leafnodes (find "leafnodes" ms)) (λ leafnodes.
            and_then (read_pointer read_text (find "operator" ms)) (λ operator.
              and_then (read_pointer read_text (find "system_account" ms)) (λ system_account.
                and_then (read_pointer read_resolver (find "resolver" ms)) (λ resolver.
                  and_then (read_pointer ok (find "resolver_preload" ms)) (λ preload. ok (record {
                    jetstream = jetstream;
                    authorization = authorization;
                    pid_file = pid_file;
                    http = http;
                    leafnodes = leafnodes;
                    operator = operator;
                    system_account = system_account;
                    resolver = resolver;
                    resolver_preload = preload;
                  }))))))))))

-- `json.Unmarshal` of a value into an empty configuration
abbrev pub read_config : Value → Result Config
read_config v =
    read_or (record empty_config { http = 0 }) (λ u. and_then (members_of u) read_config_members)
      (some v)

pub record Json : Type 0 where
  -- the text that `Encode` writes for a value, which does not escape `<` and `>`
  pub encode : Value → Result String
  pub pretty : String → String
  -- the value that `json.Unmarshal` finds in a text
  pub decode : String → Result Value

module _ (json : Json) where
  prettied : Result String → Result String
  prettied (ok written) = ok (json.pretty written)
  prettied (err e) = err e
  prettied panic = panic

  -- `ToJSON`
  unfoldable pub to_json : Config → Result String
  unfolding prettied
  to_json c = prettied (json.encode (config_value c))

  -- `LoadFromJSON`
  unfoldable pub load_from_json : String → Result Config
  load_from_json j = and_then (json.decode j) read_config

  -- `LoadFromFile`; `ioutil.ReadFile` is the parameter
  unfoldable pub load_from_file : {W : Type 0} → (String → Exec W String) → String → Exec W Config
  load_from_file read_file path = do bytes ← read_file path; lift (load_from_json bytes)
