-- ===== src/Nats/Config/RoundTrip.antt =====
-- Every configuration that the options and the edits make is read back from its JSON.
use mathlib.Core.Option.{map}
use anck.Prelude.{
  String, Bool, Option, none, some, List, [], ◌∷◌, ◌≡◌, ◌≢◌, refl, arith, string_eq, str_dec,
}
use anck.Prelude.Dict.{Dict, lookup}
use anck.Prelude.Exec.{ok}
use anck.Nats.Json.{
  Value, null, boolean, number, text, array, object, fields, find, read_pointer, read_text,
  read_boolean,
}
use anck.Nats.Json.Laws.{Reads, found, pointer_back, values_back, non_empty_back}
use anck.Nats.Config.{User, Jetstream, Authorization, Remote, Leafnodes, Resolver, Config, users_of}
use anck.Nats.Config.Json.{
  Json, to_json, load_from_json, user_value, jetstream_value, authorization_value, remote_fields,
  resolver_fields, config_fields, remote_value, leafnodes_value, resolver_value, config_value,
  no_user, no_remote, read_user, read_jetstream, read_authorization, read_remote, read_leafnodes,
  read_resolver, read_config,
}
use anck.Nats.Config.Plain.{IsPlain, Made, Made-IsPlain}

-- What is relied on for a value: encoding/json writes it, and finds the same value in the text that it has
-- written, to which pretty adds white space only.
pub record IsJson (json : Json) (v : Value) : Type 0 where
  pub written : String
  pub writes : json.encode v ≡ ok written
  pub reads : json.decode (json.pretty written) ≡ ok v

text_back : (s : String) → Reads text read_text s
text_back s = record { not_null = λ h. cc; back = refl }

boolean_back : (b : Bool) → Reads boolean read_boolean b
boolean_back b = record { not_null = λ h. cc; back = refl }

user_back : (u : User) → Reads user_value read_user u
unfolding find fields str_dec
user_back u = record { not_null = λ h. cc; back = refl }

jetstream_back : (j : Jetstream) → Reads jetstream_value read_jetstream j
unfolding find fields str_dec
jetstream_back j = record { not_null = λ h. cc; back = refl }

remote_back : (r : Remote) → Reads remote_value read_remote r
unfolding lookup str_dec
remote_back r = record {
  not_null = λ h. cc;
  back =
      let fs : Dict (Option Value) = remote_fields r in
      rw
        (
          found "url" fs (ground arith),
          found "credentials" fs (ground arith),
          found "account" fs (ground arith),
          found "deny_imports" fs (ground arith),
          found "deny_exports" fs (ground arith),
          non_empty_back text read_text "" r.deny_imports text_back,
          non_empty_back text read_text "" r.deny_exports text_back,
        )
        refl;
}

resolver_back : (r : Resolver) → Reads resolver_value read_resolver r
unfolding lookup str_dec
resolver_back r = record {
  not_null = λ h. cc;
  back =
      let fs : Dict (Option Value) = resolver_fields r in
      rw
        (
          found "type" fs (ground arith),
          found "dir" fs (ground arith),
          found "allow_delete" fs (ground arith),
          found "interval" fs (ground arith),
          found "ttl" fs (ground arith),
          found "timeout" fs (ground arith),
          pointer_back boolean read_boolean r.allow_delete boolean_back,
          pointer_back text read_text r.interval text_back,
          pointer_back text read_text r.ttl text_back,
        )
        refl;
}

leafnodes_back : (l : Leafnodes) → Reads leafnodes_value read_leafnodes l
unfolding find fields str_dec
leafnodes_back l = record { not_null = λ h. cc; back = go l.remotes }
  where
    go :
        (o : Option (List Remote))
        → read_leafnodes (leafnodes_value (record { remotes = o })) ≡ ok (record { remotes = o })
    go none = refl
    go (some rs) = rw (values_back remote_value read_remote no_remote rs remote_back) refl

authorization_back :
    (o : Option Authorization)
    → users_of o ≢ some []
    → read_pointer read_authorization (map authorization_value o) ≡ ok o
unfolding find fields str_dec
authorization_back none h = refl
authorization_back (some a) h = go a.users h
  where
    go :
        (us : Option (List User))
        → us ≢ some []
        → read_pointer read_authorization (some (authorization_value (record { users = us })))
          ≡ ok (some (record { users = us }))
    go none h = refl
    go (some []) h = absurd (h refl)
    go (some (u ∷ us)) h = rw (values_back user_value read_user no_user (u ∷ us) user_back) refl

preload_back : (o : Option Value) → o ≢ some null → read_pointer ok o ≡ ok o
preload_back none h = refl
preload_back (some null) h = absurd (h refl)
preload_back (some (boolean b)) h = refl
preload_back (some (number n)) h = refl
preload_back (some (text s)) h = refl
preload_back (some (array vs)) h = refl
preload_back (some (object ms)) h = refl

read_config-config_value : (c : Config) → IsPlain c → read_config (config_value c) ≡ ok c
unfolding lookup str_dec
read_config-config_value c plain =
    let fs : Dict (Option Value) = config_fields c in
    rw
      (
        found "jetstream" fs (ground arith),
        found "authorization" fs (ground arith),
        found "pid_file" fs (ground arith),
        found "http" fs (ground arith),
        found "leafnodes" fs (ground arith),
        found "operator" fs (ground arith),
        found "system_account" fs (ground arith),
        found "resolver" fs (ground arith),
        found "resolver_preload" fs (ground arith),
        pointer_back jetstream_value read_jetstream c.jetstream jetstream_back,
        authorization_back c.authorization plain.users,
        pointer_back text read_text c.pid_file text_back,
        pointer_back leafnodes_value read_leafnodes c.leafnodes leafnodes_back,
        pointer_back text read_text c.operator text_back,
        pointer_back text read_text c.system_account text_back,
        pointer_back resolver_value read_resolver c.resolver resolver_back,
        preload_back c.resolver_preload plain.preload,
      )
      refl

-- Every configuration that comes from the empty one by the options of `NewConfig`, by added remotes and
-- by removals of remotes, in any order, is read back by `LoadFromJSON` from what `ToJSON` writes, field
-- by field, if encoding/json finds the JSON value of the configuration's tags in the text that it has
-- written for that value.
pub load_from_json-to_json :
    (json : Json) (c : Config)
    → IsJson json (config_value c)
    → Made c
    → (written : String) × (to_json json c ≡ ok written) × (load_from_json json written ≡ ok c)
unfolding to_json load_from_json
load_from_json-to_json json c laws m = (
  json.pretty laws.written,
  rw laws.writes refl,
  rw laws.reads (read_config-config_value c (Made-IsPlain m)),
)
