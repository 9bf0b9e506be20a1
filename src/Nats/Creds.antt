-- ===== src/Nats/Creds.antt =====
-- pkg/nats/creds.go: `NewCreds`; and `ParseCredsString` of pkg/jetstreams/jetstreams.go, which reads
-- such a file back.
pub mod RoundTrip
use anck.Prelude.{String, ◌<>◌, Bool, ◌||◌, List, [], ◌∷◌, if◌then◌else◌, ◌==◌, string_eq}
use anck.Prelude.Exec.{Result, ok, err, errorf}
use anck.Text.{str_contains, replace_all, replace_from, split}

abbrev pub jwt_marker : String
jwt_marker = "ENTER-JWT-HERE"

abbrev pub nkey_marker : String
nkey_marker = "ENTER-NKEY-HERE"

abbrev template : String
template =
    "-----BEGIN NATS USER JWT-----\nENTER-JWT-HERE\n------END NATS USER JWT------\n\n************************* IMPORTANT *************************\nNKEY Seed printed below can be used to sign and prove identity.\nNKEYs are sensitive and should be treated as secrets.\n\n-----BEGIN USER NKEY SEED-----\nENTER-NKEY-HERE\n------END USER NKEY SEED------\n\n*************************************************************\n"

unfoldable pub new_creds : String → String → String
unfolding replace_from
new_creds jwt nkey = replace_all (replace_all template jwt_marker jwt) nkey_marker nkey

abbrev pub jwt_header : String
jwt_header = "BEGIN NATS USER JWT"

abbrev pub nkey_header : String
nkey_header = "BEGIN USER NKEY SEED"

-- the loop over the lines from the second one on: `prev` is `lines[i-1]`
parse_lines : String → List String → String → String → String × String
parse_lines prev [] jwt nkey = (jwt, nkey)
parse_lines prev (line ∷ lines) jwt nkey =
    let is_jwt = str_contains prev jwt_header in
    let is_nkey = str_contains prev nkey_header in
    parse_lines line lines (if is_jwt then line else jwt)
      (if is_jwt then nkey else if is_nkey then line else nkey)

abbrev parse_all : List String → String × String
parse_all [] = ("", "")
parse_all (line ∷ lines) = parse_lines line lines "" ""

abbrev checked : String × String → Result (String × String)
checked (jwt, nkey) =
    if jwt == "" || nkey == ""
    then err (errorf "creds file does not contain both a JWT and a NKEY")
    else ok (jwt, nkey)

unfoldable pub parse_creds_string : String → Result (String × String)
unfolding parse_lines
parse_creds_string creds = checked (parse_all (split creds b'\n'))
