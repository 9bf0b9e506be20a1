-- ===== src/Tests/Texts.antt =====
-- The credentials file, and the configurations of NATS and Dapr, at concrete inputs.
use anck.Prelude.{false, none, some, List, [], ◌∷◌, ◌==◌, string_eq, any, map, ◌≡◌, refl, str_dec}
use anck.Prelude.Exec.{ok}
use anck.Text.{str_contains}
use anck.Nats.Creds.{nkey_marker, new_creds, parse_creds_string}
use anck.Nats.Creds.RoundTrip.{IsToken, parse_creds_string-new_creds}
use anck.Nats.Config.{Config, Remote, add_remote, remove_remote_by_account_pub_key, empty_config}
use anck.Nats.Config.Remotes.{remove-add_remote}
use anck.Nats.Config.Options.{Choice, admin_user, remote}
use anck.Dapr.{new_dapr, default_nats_url}
use anck.Dapr.Laws.{creds, nats_url, built, url_after, creds_in, new_dapr_lem}

is_token : IsToken "eyJ0"
unfolding str_contains str_dec
is_token = record {
  nonempty = λ h. cc;
  no_newline = refl;
  no_jwt_header = refl;
  no_nkey_header = refl;
}

no_marker : str_contains "eyJ0" nkey_marker ≡ false
unfolding str_contains
no_marker = refl

parse_creds_string-new_creds_example :
    parse_creds_string (new_creds "eyJ0" "eyJ0") ≡ ok ("eyJ0", "eyJ0")
parse_creds_string-new_creds_example =
    parse_creds_string-new_creds "eyJ0" "eyJ0" is_token is_token no_marker

abbrev a_remote : Remote
a_remote = record {
  url = "u";
  credentials = "/c";
  account = "A";
  deny_imports = [];
  deny_exports = [];
}

abbrev another : Remote
another = record a_remote { account = "B"; credentials = "/d" }

abbrev one_remote : Config
one_remote = record empty_config { leafnodes = some (record { remotes = some (another ∷ []) }) }

not_listed : any (λ s. s.account == a_remote.account) (another ∷ []) ≡ false
unfolding str_dec
not_listed = refl

remove-add_remote_example :
    remove_remote_by_account_pub_key "A" (add_remote a_remote one_remote) ≡ (one_remote, none)
remove-add_remote_example = remove-add_remote a_remote one_remote not_listed

abbrev choices : List Choice
choices = remote a_remote ∷ admin_user (record { user = "u"; password = "p" }) ∷ remote another ∷ []

abbrev dapr_choices : List anck.Dapr.Laws.Choice
dapr_choices = creds "j" "n" ∷ nats_url "u" ∷ []

new_dapr_lem_example :
    new_dapr "net" (map anck.Dapr.Laws.setting dapr_choices)
    ≡ some (built "net" (url_after default_nats_url dapr_choices) (creds_in dapr_choices))
new_dapr_lem_example = new_dapr_lem "net" dapr_choices
