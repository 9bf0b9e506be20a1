-- ===== src/Controllers/Secrets/Entries.antt =====
-- What the data of a component's secret are after `createOrUpdateComponentSecrets`, and which entries
-- `removeNetworkFromComponentSecret` counts.
use anck.Prelude.{
  String, ◌<>◌, Bool, false, not, ◌&&◌, ◌||◌, Option, none, some, List, [], ◌∷◌, ◌==◌, string_eq,
  if◌then◌else◌, length, nat_eq, all, ◌≡◌, ◌≢◌, sym, ap, arith,
}
use anck.Prelude.Dict.{Dict, lookup, insert, erase, or_zero, lookup-insert, lookup-erase}
use anck.Prelude.Exec.{Result, ok, err, panic}
use anck.Text.{str_contains}
use anck.Text.Laws.{chars, append-ne, append-ne-append}
use anck.Nats.Server.{DesiredState}
use anck.Controllers.Secrets.{
  ignored_secret_entries, sidecar_creds, app_component_name, split_network_participant, all_creds,
  remove_deleted, entries_of, filtered_secret,
}

-- the last of the values, or the one that was there
abbrev pub last_or : Option String → List String → Option String
last_or o [] = o
last_or o (c ∷ cs) = last_or (some c) cs

-- the participant is the component, in whatever network
abbrev pub is_component : String → Result (String × String × String) → Bool
is_component component (ok (_, app, participant)) = component == app_component_name app participant
is_component component (err e) = false
is_component component panic = false

-- the component is one of the participants that have left
abbrev pub has_left : String → List String → Bool
has_left component [] = false
has_left component (deleted ∷ rest) =
    is_component component (split_network_participant deleted) || has_left component rest

all_creds_lem :
    (network : String) (cs : List String) (d : Dict String) (k : String)
    → lookup k (all_creds network cs d)
      ≡ (if (network <> ".creds") == k then last_or (lookup k d) cs else lookup k d)
unfolding all_creds
all_creds_lem network [] d k = ground arith
all_creds_lem network (c ∷ cs) d k =
    let kept = lookup-insert k (network <> ".creds") c d in
    ground (
      arith,
      all_creds_lem network cs (insert (network <> ".creds") c d) k,
      kept,
      ap (λ o. last_or o cs) kept,
    )

remove_deleted_lem :
    (component network : String) (deleted : List String) (d e : Dict String) (k : String)
    → remove_deleted component network deleted d ≡ ok e
    → lookup k e ≡ (
        if has_left component deleted && ((network <> ".pub" == k) || (network == k))
        then none
        else lookup k d)
unfolding remove_deleted
remove_deleted_lem component network [] d e k h = ground arith
remove_deleted_lem component network (x ∷ xs) d e k h =
    step (split_network_participant x) (λ d'. remove_deleted_lem component network xs d' e k) h
  where
    step :
        (r : Result (String × String × String))
        → ((d' : Dict String)
            → remove_deleted component network xs d' ≡ ok e
            → lookup k e ≡ (
                if has_left component xs && ((network <> ".pub" == k) || (network == k))
                then none
                else lookup k d'))
        → (elim r [
          | ok (_, app, participant) ↦ remove_deleted component network xs (
              if component == app_component_name app participant
              then erase (network <> ".pub") (erase network d)
              else d)
          | err e ↦ err e
          | panic ↦ panic
        ])
          ≡ ok e
        → lookup k e ≡ (
            if (is_component component r || has_left component xs)
              && ((network <> ".pub" == k) || (network == k))
            then none
            else lookup k d)
    step (ok (n, app, participant)) rest h' = ground (
      arith,
      rest _ h',
      lookup-erase k (network <> ".pub") (erase network d),
      lookup-erase k network d,
    )
    step (err x) p h' = cc
    step panic p h' = cc

-- The entry of each key, for the keys of the network, of the side car, and all others.
abbrev pub entry_of : String → DesiredState → String → Dict String → String → Option String
entry_of component s sys_creds d k =
    if has_left component s.deleted_participants
      && ((s.network_name <> ".pub" == k) || (s.network_name == k))
    then none
    else if s.network_name <> ".pub" == k
    then some s.account_public_key
    else if sidecar_creds == k
    then some sys_creds
    else if s.network_name <> ".creds" == k
    then last_or (lookup k d) s.creds
    else lookup k d

-- The new data of a component's secret have at each key: nothing at `<network>.pub` and `<network>` where
-- the component is one of the participants that have left; else the public key of the account at
-- `<network>.pub`, the credentials of the side car at `nats-sidecar.creds`, and the last credentials of
-- the response at `<network>.creds`, also for a component that has left; and what was there at all others.
pub entries_of_lem :
    (component : String) (s : DesiredState) (sys_creds : String) (d e : Dict String) (k : String)
    → entries_of component s sys_creds d ≡ ok e
    → lookup k e ≡ entry_of component s sys_creds d k
unfolding entries_of
entries_of_lem component s sys_creds d e k h =
    let network : String = s.network_name in
    let with_creds : Dict String = all_creds network s.creds d in
    let with_sidecar : Dict String = insert sidecar_creds sys_creds with_creds in
    ground (
      arith,
      remove_deleted_lem component network s.deleted_participants _ e k h,
      lookup-insert k (network <> ".pub") s.account_public_key with_sidecar,
      lookup-insert k sidecar_creds sys_creds with_creds,
      all_creds_lem network s.creds d k,
    )

-- the filter looks at the network's name only, so that it keeps one entry or none
abbrev pub is_ignored : String → Bool
is_ignored network = all (str_contains network) ignored_secret_entries

single : (network v w : String) → insert network v ((network, w) ∷ []) ≡ (network, v) ∷ []
unfolding insert
single network v w = ground arith

-- The number of entries that is compared with 1 does not depend on the entries of the secret: it is 1
-- unless the network's name contains all of the ignored texts.
pub length-filtered_secret :
    (network : String) (secret : Dict String)
    → nat_eq (length (filtered_secret network secret ignored_secret_entries [])) 1
      ≡ not (is_ignored network)
unfolding filtered_secret insert
length-filtered_secret network secret = ground (
  arith,
  single network (or_zero "" (lookup network secret)) (or_zero "" (lookup network secret)),
)

pub name-ne-creds : (network : String) → network ≢ network <> ".creds"
name-ne-creds network e = append-ne network _ _ (sym e)

pub pub-ne-creds : (network : String) → network <> ".pub" ≢ network <> ".creds"
pub-ne-creds network = append-ne-append network ".pub" ".creds" (λ e. omega (arith, ap chars e))
