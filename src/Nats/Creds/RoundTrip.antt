-- ===== src/Nats/Creds/RoundTrip.antt =====
-- A credentials file that `NewCreds` wrote is read back by `ParseCredsString`.
use anck.Prelude.{String, ◌<>◌, false, ◌≡◌, ◌≢◌, refl, string_eq, ==_ne, List, [], ◌∷◌}
use anck.Prelude.Exec.{ok}
use anck.Text.{str_contains, has_char, split}
use anck.Text.Laws.{replace_from-append, split-append}
use anck.Nats.Creds.{nkey_marker, new_creds, jwt_header, nkey_header, parse_creds_string}

abbrev middle : String → String
middle nkey =
    "\n------END NATS USER JWT------\n\n************************* IMPORTANT *************************\nNKEY Seed printed below can be used to sign and prove identity.\nNKEYs are sensitive and should be treated as secrets.\n\n-----BEGIN USER NKEY SEED-----\n"
    <> nkey
    <> "\n------END USER NKEY SEED------\n\n*************************************************************\n"

-- A text that can stand on a line of its own: it does not break the line, and holds none of the texts
-- that `ParseCredsString` looks for.
pub record IsToken (s : String) : Type 0 where
  pub nonempty : s ≢ ""
  pub no_newline : has_char b'\n' s ≡ false
  pub no_jwt_header : str_contains s jwt_header ≡ false
  pub no_nkey_header : str_contains s nkey_header ≡ false

abbrev written : String → String → String
written jwt nkey = "-----BEGIN NATS USER JWT-----\n" <> jwt <> middle nkey

new_creds-eq-written :
    (jwt nkey : String)
    → str_contains jwt nkey_marker ≡ false
    → new_creds jwt nkey ≡ written jwt nkey
unfolding new_creds
new_creds-eq-written jwt nkey h = rw (replace_from-append jwt nkey_marker nkey _ _ h refl)

-- the lines of the part between the JWT and the seed, from the rest of the first line on
abbrev lines_between : List String → List String
lines_between rest =
    "------END NATS USER JWT------" ∷ ""
    ∷ "************************* IMPORTANT *************************"
    ∷ "NKEY Seed printed below can be used to sign and prove identity."
    ∷ "NKEYs are sensitive and should be treated as secrets." ∷ ""
    ∷ "-----BEGIN USER NKEY SEED-----" ∷ rest

abbrev lines_after : List String
lines_after =
    "------END USER NKEY SEED------" ∷ ""
    ∷ "*************************************************************" ∷ "" ∷ []

split-written :
    (jwt nkey : String)
    → IsToken jwt
    → IsToken nkey
    → split (written jwt nkey) b'\n'
      ≡ "-----BEGIN NATS USER JWT-----" ∷ jwt ∷ lines_between (nkey ∷ lines_after)
unfolding split
split-written jwt nkey t u =
    rw (split-append jwt "\n" _ t.no_newline) (rw (split-append nkey "\n" _ u.no_newline))

-- Reading back what `NewCreds(jwt, nkey)` wrote gives the JWT and the seed, if both are texts of one
-- line that are not empty and hold neither header, and the JWT does not hold the place holder of the seed.
pub parse_creds_string-new_creds :
    (jwt nkey : String)
    → IsToken jwt
    → IsToken nkey
    → str_contains jwt nkey_marker ≡ false
    → parse_creds_string (new_creds jwt nkey) ≡ ok (jwt, nkey)
unfolding parse_creds_string str_contains
parse_creds_string-new_creds jwt nkey t u h = rw (new_creds-eq-written jwt nkey h) (
    rw (split-written jwt nkey t u) (
      simp (
        t.no_jwt_header,
        u.no_jwt_header,
        u.no_nkey_header,
        ==_ne jwt "" t.nonempty,
        ==_ne nkey "" u.nonempty,
      )))
