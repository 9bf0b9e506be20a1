-- ===== src/Controllers/Participants/Laws.antt =====
-- The components of a network, and the names of participants.
use anck.Prelude.{
  String, ◌<>◌, false, Option, none, some, ◌∷◌, ◌==◌, not, ◌&&◌, string_eq, if◌then◌else◌, ◌≡◌, ap,
  ◌∙◌, arith,
}
use anck.Prelude.Dict.{Dict, lookup, has_key, lookup-insert, lookup-erase}
use anck.Prelude.Exec.{ok}
use anck.Text.{has_char}
use anck.Text.Laws.{split-append, split-single}
use anck.Api.{Network, Participants}
use anck.Controllers.Secrets.{split_network_participant, three_parts}
use anck.Controllers.Participants.{participant_name, add_participant, remove_participant}

-- the type of a component, if it participates
abbrev pub type_of : Network → String → Option String
type_of network name = lookup name network.info.participating.components

-- Adding a participant keeps the type of one that is there, and gives a new one its type; removing it
-- takes it out. Both leave all other participants as they are.
pub participants_lem :
    (network : Network) (p : Participants) (name : String)
    → (type_of (add_participant network p) name ≡ (
        if participant_name p == name
          && not (has_key (participant_name p) network.info.participating.components)
        then some p.spec.type
        else type_of network name))
      × (type_of (remove_participant network p) name
          ≡ (if participant_name p == name then none else type_of network name))
unfolding add_participant remove_participant
participants_lem network p name =
    let n : String = participant_name p in
    let m : Dict String = network.info.participating.components in
    let added = lookup-insert name n p.spec.type m in
    let erased = lookup-erase name n m in (ground arith, ground arith)

-- Removing a participant that was newly added restores the participants that were there.
pub remove-add_participant :
    (network : Network) (p : Participants) (name : String)
    → type_of network (participant_name p) ≡ none
    → type_of (remove_participant (add_participant network p) p) name ≡ type_of network name
remove-add_participant network p name h =
    let added = (participants_lem network p name).0 in
    let removed = (participants_lem (add_participant network p) p name).1 in ground arith

-- A name that was put together of three parts without a full stop is taken apart into them.
pub split_network_participant_lem :
    (network app component : String)
    → has_char b'.' network ≡ false
    → has_char b'.' app ≡ false
    → has_char b'.' component ≡ false
    → split_network_participant (network <> "." <> app <> "." <> component)
      ≡ ok (network, app, component)
unfolding split_network_participant
split_network_participant_lem network app component h1 h2 h3 =
    ap (three_parts (network <> "." <> app <> "." <> component)) (
      split-append network "." (app <> "." <> component) h1
      ∙ ap (λ xs. network ∷ xs)
          (split-append app "." component h2
            ∙ ap (λ xs. app ∷ xs) (split-single component b'.' h3)))
