-- ===== src/Tests/Streams.antt =====
-- Streams, their subjects, durations and messages at concrete inputs.
use anck.Prelude.{
  ℕ, ◌*◌, ◌-◌, ◌^◌, String, false, not, none, some, List, [], ◌∷◌, ◌==◌, string_eq, contains, keep,
  ◌≡◌, ◌≢◌, refl, str_dec, arith, contains-keep, ◌∙◌,
}
use anck.Prelude.Int.{pos, negsuc}
use anck.Prelude.Exec.{ok, pure, attempt, defer, ◌>>=◌}
use anck.Api.{SubjectSpec, StreamLinkSpec}
use anck.Jetstreams.Duration.{Std, hour, parse_duration_string, trim_space}
use anck.Jetstreams.Duration.Laws.{days, parse_duration_string_wraps}
use anck.Jetstreams.Messages.{error_message}
use anck.Jetstreams.Messages.Laws.{Recorded, error_message_lem}
use anck.Jetstreams.StreamConfig.{StreamConfig}
use anck.Jetstreams.Sources.{aggregate_sources}
use anck.Jetstreams.Jsm.{Jsm}
use anck.Jetstreams.Controller.{update_from, delete, delete_all}
use anck.Jetstreams.Controller.Delete.{Deletes, ListedFor, AllGone, delete-AllGone}
use anck.Jetstreams.Controller.Aggregate.{update_from_same}
use anck.Tests.NetworkWorld.{whole, empty_jsm, empty_config, js}

abbrev listed : List SubjectSpec
listed = record { name = "x"; subjects = "one" ∷ "two" ∷ []; stream = "s" } ∷ []

-- every number is 125000
abbrev many : Std ℕ
many = record whole { parse_float = λ s. ok 125000 }

many_trimmed : trim_space " 125000d" ≡ "125000d"
unfolding trim_space
many_trimmed = refl

parse_duration_string_wraps_example :
    parse_duration_string many " 125000d" ≡ ok (negsuc (2 ^ 64 - 1 - 3000000 * hour))
parse_duration_string_wraps_example =
    parse_duration_string_wraps many " 125000d" _ _ 125000 3000000 3000000 many_trimmed refl days
      refl (omega arith)

blank_is_accepted : parse_duration_string whole " " ≡ ok (pos 0)
unfolding parse_duration_string trim_space
blank_is_accepted = refl

abbrev messages : List String
messages = "m" ∷ []

error_message_lem_example :
    Recorded
      (record { ok_map = some []; err_map = none })
      none
      "d"
      "n"
      (error_message (record { ok_map = some []; err_map = none }) "d" "n")
error_message_lem_example = error_message_lem (record { ok_map = some []; err_map = none }) "d" "n"

abbrev link : StreamLinkSpec
link = record { stream = "s" }

abbrev ab : List String
ab = "a" ∷ "b" ∷ []

abbrev ba : List String
ba = "b" ∷ "a" ∷ []

abbrev aggregate : StreamConfig
aggregate = record empty_config { sources = aggregate_sources "net" link ab }

reordered : (d : String) → contains ab d ≡ contains ba d
reordered d = ground arith

update_from_same_example :
    update_from (empty_jsm {W = ℕ}) aggregate (aggregate_sources "net" link ba) 0 ≡ (ok tt, 0)
update_from_same_example =
    update_from_same (empty_jsm {W = ℕ}) aggregate "net" link ab ba aggregate 0 refl refl refl
      reordered

-- a server whose state is the list of its streams
abbrev stream_jsm : Jsm (List String)
stream_jsm = record {
  Conn = Unit;
  Manager = Unit;
  Stream = String;
  connect = λ a f w. (ok tt, w);
  close = λ c w. w;
  new_manager = λ c d w. (ok tt, w);
  stream_names = λ m w. (ok w, w);
  streams = λ m w. (ok w, w);
  load_stream = λ m n w. (ok n, w);
  configuration = λ s. record empty_config { name = s; sources = aggregate_sources "net" link ab };
  copied = λ c. ok c;
  update_configuration = λ s c w. (ok tt, s ∷ w);
  load_or_new = λ m n c w. (ok tt, n ∷ w);
  delete = λ s w. (ok tt, keep (λ t. not (t == s)) w);
  create_temp = λ w. (ok "file", w);
  write_string = λ f c w. (ok tt, w);
  remove = λ f w. w;
}

third_joins : contains ab "c" ≢ contains ("c" ∷ ab) "c"
unfolding str_dec
third_joins h = cc

abbrev Gone : String → List String → Type 0
Gone s w = contains w s ≡ false

deletes : Deletes stream_jsm Gone
deletes = record {
  deletes = λ s w h. contains-keep (λ t. not (t == s)) w s ∙ ground arith;
  delete_keeps = λ s t w h. contains-keep (λ u. not (u == s)) w t ∙ ground arith;
  close_keeps = λ c t w h. h;
}

deletion_runs : (delete stream_jsm js "main" "net" [] ab).0 ≡ ok tt
unfolding delete delete_all attempt defer ◌>>=◌ pure str_dec
deletion_runs = refl

delete-AllGone_example :
    (nc : Unit {0}) × (mgr : Unit {0}) × (ss : List String) × ListedFor stream_jsm Gone deletes js
      "main" ab nc mgr ss
    × AllGone stream_jsm Gone deletes ss (delete stream_jsm js "main" "net" [] ab).1
delete-AllGone_example = delete-AllGone stream_jsm Gone deletes js "main" "net" [] ab deletion_runs
