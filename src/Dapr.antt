-- ===== src/Dapr.antt =====
-- pkg/dapr/dapr.go: the configuration of a Dapr component. The package yaml.v2 is a parameter.
pub mod Laws
use mathlib.Core.List
use anck.Prelude.Exec.{Result}
use anck.Prelude.{
  ℕ, zero, suc, String, Bool, Option, none, some, List, [], ◌∷◌, ◌++◌, if◌then◌else◌, ◌==◌,
  string_eq,
}

abbrev pub default_nats_url : String
default_nats_url = "nats://connect.ngs.global:4222"

pub record Metadata : Type 0 where
  pub name : String

pub record SpecMetadata : Type 0 where
  pub name : String
  pub value : String

pub record Spec : Type 0 where
  pub type : String
  pub version : String
  pub spec_metadata : List SpecMetadata

pub record Config : Type 0 where
  pub api_version : String
  pub kind : String
  pub metadata : Metadata
  pub spec : Spec

-- Go's `Option`; `none` is a panic.
abbrev pub Setting : Type 0
Setting = Config → Option Config

abbrev set_metadata : Config → List SpecMetadata → Config
set_metadata c ms = record c { spec = record c.spec { spec_metadata = ms } }

unfoldable pub with_creds : String → String → Setting
with_creds jwt nkey c = some (
    set_metadata c (
      c.spec.spec_metadata
      ++ record { name = "jwt"; value = jwt } ∷ record { name = "seedKey"; value = nkey } ∷ []))

-- the loop for `urlIndex`: the first entry named natsURL, or 0
url_index : ℕ → List SpecMetadata → ℕ
url_index i [] = zero
url_index i (m ∷ ms) = let rest = url_index (suc i) ms in if m.name == "natsURL" then i else rest

-- `ms[i].Value = url`; `none` out of range
set_value : List SpecMetadata → ℕ → String → Option (List SpecMetadata)
set_value [] i url = none
set_value (m ∷ ms) zero url = some (record m { value = url } ∷ ms)
set_value (m ∷ ms) (suc i) url = elim (set_value ms i url) [
  | none ↦ none
  | some ms' ↦ some (m ∷ ms')
]

abbrev with_metadata : Config → Option (List SpecMetadata) → Option Config
with_metadata c none = none
with_metadata c (some ms) = some (set_metadata c ms)

unfoldable pub with_nats_url : String → Setting
unfolding url_index set_value
with_nats_url url c =
    with_metadata c (set_value c.spec.spec_metadata (url_index zero c.spec.spec_metadata) url)

abbrev pub default_config : String → Config
default_config name = record {
  api_version = "dapr.io/v1alpha1";
  kind = "Component";
  metadata = record { name = name };
  spec = record {
    type = "pubsub.jetstream";
    version = "v1";
    spec_metadata = record { name = "natsURL"; value = default_nats_url } ∷ [];
  };
}

apply_all : Option Config → List Setting → Option Config
apply_all none opts = none
apply_all (some c) [] = some c
apply_all (some c) (opt ∷ opts) = apply_all (opt c) opts

-- `NewDapr`
unfoldable pub new_dapr : String → List Setting → Option Config
unfolding apply_all
new_dapr name opts = apply_all (some (default_config name)) opts

-- `ToYaml`; `yaml.Marshal` is the parameter
unfoldable pub to_yaml : (Config → Result String) → Config → Result String
to_yaml marshal d = marshal d
