-- ===== src/Jetstreams/Sources/Laws.antt =====
-- The sources of an aggregate can be compared, and tell the domains apart.
use anck.Prelude.{String, ◌<>◌, some, List, [], ◌∷◌, ◌≡◌, refl, ap, arith, length, suc, map}
use anck.Text.Laws.{<>-cancel_left, <>-cancel_right}
use anck.Api.{StreamLinkSpec}
use anck.Jetstreams.Sources.{
  MyStreamSource, full_name, api_prefix, convert_slice_of_pointers, aggregate_sources,
}

-- a source of an aggregate, as it is compared
abbrev pub compared_source : String → StreamLinkSpec → String → MyStreamSource
compared_source network link d = record {
  name = full_name network link.stream;
  opt_start_seq = 0;
  opt_start_time = 0;
  filter_subject = "";
  external = record { api_prefix = api_prefix d; deliver_prefix = "" };
}

-- The sources that an aggregate is given never make the comparison panic.
pub convert-aggregate_sources :
    (network : String) (link : StreamLinkSpec) (domains : List String)
    → convert_slice_of_pointers (aggregate_sources network link domains)
      ≡ some (map (compared_source network link) domains)
unfolding convert_slice_of_pointers aggregate_sources
convert-aggregate_sources network link [] = refl
convert-aggregate_sources network link (d ∷ ds) =
    ground (arith, convert-aggregate_sources network link ds)

pub length-map {ℓ κ} :
    {A : Type ℓ} {B : Type κ} (f : A → B) (xs : List A) → length (map f xs) ≡ length xs
length-map f [] = refl
length-map f (x ∷ xs) = ap suc (length-map f xs)

pub api_prefix-injective : (d e : String) → api_prefix d ≡ api_prefix e → d ≡ e
api_prefix-injective d e h =
    <>-cancel_right d e ".API" (<>-cancel_left "$JS." (d <> ".API") (e <> ".API") h)

pub compared_source-injective :
    (network : String) (link : StreamLinkSpec) (d e : String)
    → compared_source network link d ≡ compared_source network link e
    → d ≡ e
compared_source-injective network link d e h =
    api_prefix-injective d e (ap (λ s. s.external.api_prefix) h)
