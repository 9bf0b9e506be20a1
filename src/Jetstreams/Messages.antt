-- ===== src/Jetstreams/Messages.antt =====
-- pkg/jetstreams/domainMessages.go. A nil map is `none`: it reads as an empty one, and a write to it
-- is a panic.
pub mod Laws
use anck.Prelude.{
  String, Option, none, some, List, [], ◌∷◌, ◌++◌, if◌then◌else◌, ◌==◌, string_eq, not,
}
use anck.Prelude.Dict.{Dict, lookup, insert, has_key}

pub record DomainMessages : Type 0 where
  pub ok_map : Option (Dict (List String))
  pub err_map : Option (Dict (List String))

-- `NewDomainMessages`
abbrev pub new_domain_messages : DomainMessages
new_domain_messages = record { ok_map = some []; err_map = some [] }

-- `m[domain] = append(m[domain], message)` after the entry was made if it was missing; `none` is a panic
unfoldable pub add_message :
    Option (Dict (List String)) → String → String → Option (Dict (List String))
add_message none domain message = none
add_message (some m) domain message = elim (lookup domain m) [
  | none ↦ some (insert domain (message ∷ []) (insert domain [] m))
  | some ms ↦ some (insert domain (ms ++ message ∷ []) m)
]

-- `if de.OkMap == nil { de.OkMap = make(…) }`
abbrev made : Option (Dict (List String)) → Option (Dict (List String))
made none = some []
made (some m) = some m

abbrev with_ok : DomainMessages → Option (Dict (List String)) → Option DomainMessages
with_ok de none = none
with_ok de (some m) = some (record de { ok_map = some m })

abbrev with_err : DomainMessages → Option (Dict (List String)) → Option DomainMessages
with_err de none = none
with_err de (some m) = some (record de { err_map = some m })

-- `Ok`
unfoldable pub ok_message : DomainMessages → String → String → Option DomainMessages
ok_message de domain message = with_ok de (add_message (made de.ok_map) domain message)

abbrev reset_ok : DomainMessages → Option (Dict (List String)) → DomainMessages
reset_ok de none = record de { ok_map = some [] }
reset_ok de (some _) = de

-- `Error`: where the error map is nil it is the other map that the code makes
unfoldable pub error_message : DomainMessages → String → String → Option DomainMessages
error_message de domain message =
    with_err (reset_ok de de.err_map) (add_message de.err_map domain message)
