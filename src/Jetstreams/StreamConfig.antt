-- ===== src/Jetstreams/StreamConfig.antt =====
-- `createJetstreamConfig` of pkg/jetstreams/jetstreams.go. A nil slice of subjects is `none`. The
-- record `StreamConfig` has the fields of jsm's type that the program sets.
pub mod Subjects
pub mod Accepts
use anck.Prelude.{
  ℕ, String, ◌<>◌, Bool, true, false, Option, none, some, List, [], ◌∷◌, ◌++◌, if◌then◌else◌, ◌==◌,
  string_eq, is_empty, map,
}
use anck.Prelude.Int.{ℤ, pos, negsuc}
use anck.Prelude.Exec.{Result, ok, err, panic, errorf}
use anck.Common.{nats_denied_export_topics}
use anck.Api.{SubjectSpec, StreamSpec}
use anck.Jetstreams.Duration.{Std, parse_duration_string}

pub data Retention : Type 0 where
  limits_policy interest_policy work_queue_policy : Retention

pub data Storage : Type 0 where
  file_storage memory_storage : Storage

pub data Discard : Type 0 where
  discard_old discard_new : Discard

pub record ExternalStream : Type 0 where
  pub api_prefix : String
  pub deliver_prefix : String

pub record StreamSource : Type 0 where
  pub name : String
  pub opt_start_seq : ℕ
  -- `none` is a nil pointer; a time is its nanoseconds, 0 the zero time
  pub opt_start_time : Option ℕ
  pub filter_subject : String
  pub external : Option ExternalStream

pub record StreamConfig : Type 0 where
  pub name : String
  pub subjects : List String
  pub retention : Retention
  pub max_msgs_per : ℤ
  pub max_msgs : ℤ
  pub max_bytes : ℤ
  pub max_age : ℤ
  pub max_msg_size : ℤ
  pub storage : Storage
  pub discard : Discard
  pub replicas : ℕ
  pub no_ack : Bool
  pub max_consumers : ℤ
  pub sources : List StreamSource
  pub mirror : Option StreamSource

infixl 10 ◌>>=◌
abbrev ◌>>=◌ {ℓ κ} : {A : Type ℓ} {B : Type κ} → Result A → (A → Result B) → Result B
ok a >>= f = f a
err e >>= f = err e
panic >>= f = panic

-- the loop that collects the subjects for the stream
unfoldable pub gather : String → List SubjectSpec → List String
gather name [] = []
gather name (s ∷ ss) =
    let rest = gather name ss in if s.stream == name then s.subjects ++ rest else rest

abbrev checked : String → List String → Result (List String)
checked name [] = err (errorf ("no subjects found for stream " <> name))
checked name (s ∷ ss) = ok (s ∷ ss)

subjects_for_stream : String → Option (List SubjectSpec) → Result (List String)
subjects_for_stream name none = ok []
subjects_for_stream name (some ss) = checked name (gather name ss)

-- one round of the loop that puts the domain before the subjects
unfoldable pub qualify : String → String → String
qualify domain s = if s == nats_denied_export_topics then s else domain <> "." <> s

domain_subjects : String → List String → List String
domain_subjects domain ss = if domain == "" then ss else map (qualify domain) ss

retention_of : String → Result Retention
retention_of policy =
    if policy == "limits"
    then ok limits_policy
    else if policy == "interest"
    then ok interest_policy
    else if policy == "workqueue"
    then ok work_queue_policy
    else err (errorf "invalid retention policy")

storage_of : String → Result Storage
storage_of policy =
    if policy == "file"
    then ok file_storage
    else if policy == "memory"
    then ok memory_storage
    else err (errorf "invalid storage policy")

discard_of : String → Result Discard
discard_of policy =
    if policy == "old"
    then ok discard_old
    else if policy == "new"
    then ok discard_new
    else err (errorf "invalid discard policy")

abbrev assembled :
    String → StreamSpec → List String → ℤ → Retention → Storage → Discard → StreamConfig
assembled domain spec ss max_age retention storage discard = record {
  name = spec.name;
  subjects = domain_subjects domain ss;
  retention = retention;
  max_msgs_per = spec.config.max_msgs_per_subject;
  max_msgs = spec.config.max_msgs;
  max_bytes = spec.config.max_bytes;
  max_age = max_age;
  max_msg_size = spec.config.max_msg_size;
  storage = storage;
  discard = discard;
  replicas = 1;
  no_ack = false;
  max_consumers = negsuc 0;
  sources = [];
  mirror = none;
}

module _ {F : Type 0} (std : Std F) where
  unfoldable pub create_jetstream_config :
      String → StreamSpec → Option (List SubjectSpec) → Result StreamConfig
  unfolding subjects_for_stream domain_subjects retention_of storage_of discard_of
  create_jetstream_config domain spec subjects = do
    ss ← subjects_for_stream spec.name subjects
    max_age ← parse_duration_string std spec.config.max_age
    retention ← retention_of spec.config.retention
    storage ← storage_of spec.config.storage
    discard ← discard_of spec.config.discard
    ok (assembled domain spec ss max_age retention storage discard)
