-- ===== src/Jetstreams/Sources.antt =====
-- The sources of a stream: `myStreamSource` and `convertSliceOfPointers` of
-- pkg/jetstreams/jetstreams.go, and the sources that `CreateAggregate` and `CreateMirror` build.
pub mod Laws
use anck.Prelude.{
  ℕ, String, ◌<>◌, Bool, Option, none, some, List, [], ◌∷◌, Eq, ◌≡◌, ap, if◌then◌else◌, string_eq,
  str_dec,
}
use native.Mathlib.Decide.{ℕ_discrete}
use anck.Api.{StreamSpec, StreamLinkSpec}
use anck.Jetstreams.StreamConfig.{StreamSource, ExternalStream}

-- `myStreamSource`: a source with no pointers
pub record MyStreamSource : Type 0 where
  pub name : String
  pub opt_start_seq : ℕ
  pub opt_start_time : ℕ
  pub filter_subject : String
  pub external : ExternalStream

pub MyStreamSource-discrete : Discrete MyStreamSource
MyStreamSource-discrete = hlevel (ℕ_discrete, str_dec)

-- `reflect.DeepEqual` on such sources
instance abbrev pub my_stream_source_eq : Eq MyStreamSource
my_stream_source_eq = record { dec = MyStreamSource-discrete }

abbrev dereferenced : StreamSource → Option ℕ → Option ExternalStream → Option MyStreamSource
dereferenced s (some t) (some e) = some (record {
  name = s.name;
  opt_start_seq = s.opt_start_seq;
  opt_start_time = t;
  filter_subject = s.filter_subject;
  external = e;
})
dereferenced s _ _ = none

abbrev cons? {ℓ} : {A : Type ℓ} → Option A → Option (List A) → Option (List A)
cons? (some x) (some xs) = some (x ∷ xs)
cons? _ _ = none

-- `none` is a panic: a source without a start time or an external stream
unfoldable pub convert_slice_of_pointers : List StreamSource → Option (List MyStreamSource)
convert_slice_of_pointers [] = some []
convert_slice_of_pointers (s ∷ ss) =
    cons? (dereferenced s s.opt_start_time s.external) (convert_slice_of_pointers ss)

-- `fmt.Sprintf("%s_%s", network, stream)`
abbrev pub full_name : String → String → String
full_name network stream = network <> "_" <> stream

-- `fmt.Sprintf("$JS.%s.API", domain)`
abbrev pub api_prefix : String → String
api_prefix domain = "$JS." <> domain <> ".API"

abbrev external_source : String → String → StreamSource
external_source name domain = record {
  name = name;
  opt_start_seq = 0;
  opt_start_time = some 0;
  filter_subject = "";
  external = some (record { api_prefix = api_prefix domain; deliver_prefix = "" });
}

-- the sources of an aggregate: the linked stream in each of the domains
unfoldable pub aggregate_sources : String → StreamLinkSpec → List String → List StreamSource
aggregate_sources network link [] = []
aggregate_sources network link (d ∷ domains) =
    external_source (full_name network link.stream) d ∷ aggregate_sources network link domains

abbrev mirror_of : Option StreamLinkSpec → String → Option StreamSource → Option StreamSource
mirror_of none domain rest = rest
mirror_of (some link) domain rest = some (external_source link.stream domain)

-- the source of a mirror: the link of the network's first stream that has one
unfoldable pub mirror_source : List StreamSpec → String → Option StreamSource
mirror_source [] domain = none
mirror_source (s ∷ streams) domain = mirror_of s.link domain (mirror_source streams domain)
