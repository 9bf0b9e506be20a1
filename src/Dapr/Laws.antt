-- ===== src/Dapr/Laws.antt =====
-- `NewDapr` never panics on the program's options, and what it builds.
use anck.Prelude.{String, some, List, [], ◌∷◌, ◌++◌, ◌≡◌, map, ap, sym, ◌∙◌, arith}
use mathlib.Core.List.{append_assoc, append-nil}
use anck.Dapr.{
  default_nats_url, SpecMetadata, Config, Setting, with_creds, with_nats_url, default_config,
  apply_all, new_dapr, set_metadata,
}

-- The options that the program has, as data.
pub data Choice : Type 0 where
  creds : String → String → Choice
  nats_url : String → Choice

abbrev pub setting : Choice → Setting
setting (creds jwt nkey) = with_creds jwt nkey
setting (nats_url url) = with_nats_url url

-- the URL of the last choice that sets one
abbrev pub url_after : String → List Choice → String
url_after url [] = url
url_after url (creds _ _ ∷ cs) = url_after url cs
url_after url (nats_url u ∷ cs) = url_after u cs

abbrev pub creds_in : List Choice → List SpecMetadata
creds_in [] = []
creds_in (nats_url _ ∷ cs) = creds_in cs
creds_in (creds jwt nkey ∷ cs) =
    record { name = "jwt"; value = jwt } ∷ record { name = "seedKey"; value = nkey } ∷ creds_in cs

abbrev pub built : String → String → List SpecMetadata → Config
built name url rest =
    set_metadata (default_config name) (record { name = "natsURL"; value = url } ∷ rest)

with_nats_url-built :
    (name url u : String) (rest : List SpecMetadata)
    → with_nats_url u (built name url rest) ≡ some (built name u rest)
unfolding with_nats_url
with_nats_url-built name url u rest = ground arith

apply_all-built :
    (name url : String) (rest : List SpecMetadata) (cs : List Choice)
    → apply_all (some (built name url rest)) (map setting cs)
      ≡ some (built name (url_after url cs) (rest ++ creds_in cs))
unfolding apply_all with_creds
apply_all-built name url rest [] = ap (λ l. some (built name url l)) (sym (append-nil rest))
apply_all-built name url rest (creds jwt nkey ∷ cs) =
    apply_all-built name url _ cs
    ∙ ap (λ l. some (built name (url_after url cs) l)) (append_assoc rest _ (creds_in cs))
apply_all-built name url rest (nats_url u ∷ cs) =
    ap (λ o. apply_all o (map setting cs)) (with_nats_url-built name url u rest)
    ∙ apply_all-built name u rest cs

-- `NewDapr` with any of the program's options, in any order, does not panic: the component has the given
-- name, its first entry is the last URL that was set, or else the default one, and the credentials follow
-- in the order in which they were given.
pub new_dapr_lem :
    (name : String) (cs : List Choice)
    → new_dapr name (map setting cs)
      ≡ some (built name (url_after default_nats_url cs) (creds_in cs))
unfolding new_dapr
new_dapr_lem name cs = apply_all-built name default_nats_url [] cs
