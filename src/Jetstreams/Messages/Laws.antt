-- ===== src/Jetstreams/Messages/Laws.antt =====
-- The messages that are collected are kept in order, each under its domain.
use anck.Prelude.{
  refl, String, Option, none, some, List, [], ◌∷◌, ◌++◌, if◌then◌else◌, ◌==◌, string_eq, ◌≡◌, arith,
  Option-cases, inl, inr,
}
use anck.Prelude.Dict.{Dict, lookup, insert, or_zero, lookup-insert}
use anck.Jetstreams.Messages.{DomainMessages, add_message, ok_message, error_message}

-- the messages of a domain
abbrev pub messages : Option (Dict (List String)) → String → List String
messages none domain = []
messages (some m) domain = or_zero [] (lookup domain m)

-- one message more at the domain, and no other change
abbrev pub Appended :
    Option (Dict (List String)) → Option (Dict (List String)) → String → String → Type 0
Appended m m' domain message =
    (d : String)
    → messages m' d ≡ (if domain == d then messages m d ++ message ∷ [] else messages m d)

add_message-Appended :
    (m : Dict (List String)) (domain message : String)
    → (m' : Dict (List String)) × (add_message (some m) domain message ≡ some m')
      × Appended (some m) (some m') domain message
unfolding add_message
add_message-Appended m domain message = elim (Option-cases (lookup domain m)) [
  | inl e ↦ (
    insert domain (message ∷ []) (insert domain [] m),
    rw (e, add_message),
    λ d. ground (
      arith,
      e,
      lookup-insert d domain (message ∷ []) (insert domain [] m),
      lookup-insert d domain [] m,
    ),
  )
  | inr (ms, e) ↦ (
    insert domain (ms ++ message ∷ []) m,
    rw (e, add_message),
    λ d. ground (arith, e, lookup-insert d domain (ms ++ message ∷ []) m),
  )
]

-- `Ok` on messages whose maps were made does not panic: it appends the message to those of its domain,
-- in order, and changes neither the other domains nor the errors.
pub ok_message_lem :
    (m : Dict (List String)) (errors : Option (Dict (List String))) (domain message : String)
    → (m' : Dict (List String)) × (ok_message
          (record { ok_map = some m; err_map = errors })
          domain
          message
        ≡ some (record { ok_map = some m'; err_map = errors }))
      × Appended (some m) (some m') domain message
unfolding ok_message
ok_message_lem m errors domain message =
    let (m', e, a) = add_message-Appended m domain message in (m', rw (e, ok_message), a)

-- What a record of messages, whose map of errors is the second argument, is after an error was added.
abbrev pub Recorded :
    DomainMessages → Option (Dict (List String)) → String → String → Option DomainMessages → Type 0
Recorded de none domain message r = r ≡ none
Recorded de (some m) domain message r =
    (m' : Dict (List String)) × (r ≡ some (record de { err_map = some m' }))
    × Appended (some m) (some m') domain message

recorded :
    (oks errors : Option (Dict (List String))) (domain message : String)
    → Recorded
        (record { ok_map = oks; err_map = errors })
        errors
        domain
        message
        (error_message (record { ok_map = oks; err_map = errors }) domain message)
unfolding error_message
recorded oks (some m) domain message =
    let (m', e, a) = add_message-Appended m domain message in (m', rw (e, error_message), a)
recorded oks none domain message = unfold add_message in refl

-- `Error` on messages whose map of errors was made appends the message to the errors of its domain, in
-- order, and changes neither the other domains nor the positive messages. With no map of errors it panics,
-- whatever else there is: its guard makes the map of the positive messages anew in place of the missing one.
pub error_message_lem :
    (de : DomainMessages) (domain message : String)
    → Recorded de de.err_map domain message (error_message de domain message)
error_message_lem de domain message = recorded de.ok_map de.err_map domain message
