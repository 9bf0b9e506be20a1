-- ===== src/Tests/Json.antt =====
-- A configuration with an administrator, a resolver and a remote, written as JSON and read back.
use anck.Prelude.{String, [], ◌∷◌, ◌≡◌, refl}
use anck.Prelude.Exec.{ok}
use anck.Jetstreams.Duration.{trim_space}
use anck.Nats.Json.{fields}
use anck.Nats.Config.{Config, Remote, empty_config, add_remote, with_admin_user, with_full_resolver}
use anck.Nats.Config.Json.{to_json, load_from_json, config_value}
use anck.Nats.Config.Plain.{Made, fresh, admin_user, full_resolver, added}
use anck.Nats.Config.RoundTrip.{IsJson, load_from_json-to_json}
use anck.Tests.JsonWorld.{plain_json}

abbrev ngs : Remote
ngs = record {
  url = "u";
  credentials = "/c";
  account = "A";
  deny_imports = "x" ∷ [];
  deny_exports = [];
}

abbrev admin_config : Config
admin_config =
    add_remote ngs
      (with_full_resolver "op" "K" "jwt" "/d" (with_admin_user "admin" "secret" empty_config))

admin_config-Made : Made admin_config
admin_config-Made =
    added ngs (full_resolver "op" "K" "jwt" "/d" (admin_user "admin" "secret" fresh))

admin_config-IsJson : IsJson plain_json (config_value admin_config)
unfolding plain_json fields trim_space add_remote with_full_resolver with_admin_user
admin_config-IsJson = record { written = _; writes = refl; reads = refl }

load_from_json-to_json_example :
    (written : String) × (to_json plain_json admin_config ≡ ok written)
    × (load_from_json plain_json written ≡ ok admin_config)
load_from_json-to_json_example =
    load_from_json-to_json plain_json admin_config admin_config-IsJson admin_config-Made
