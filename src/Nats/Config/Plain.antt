-- ===== src/Nats/Config/Plain.antt =====
-- What holds of every configuration that the options and the edits make.
use anck.Prelude.{String, Bool, Option, none, some, List, [], ◌∷◌, ◌≢◌, string_eq}
use anck.Nats.Config.{
  Config, Remote, users_of, appended, empty_config, add_remote, with_pid_file, with_jetstream,
  with_remote, with_ngs_remote, with_full_resolver, with_cache_resolver, with_admin_user,
  remove_remote_by_account_pub_key, remove_remote_by_credsfile, remove_from, set_remotes, cut_first,
}
use anck.Nats.Json.{null}

-- What JSON does not lose: there is no empty list of users, which `omitempty` leaves out, and the
-- resolver's preload is not `null`, which is read as nil.
pub record IsPlain (c : Config) : Type 0 where
  pub users : users_of c.authorization ≢ some []
  pub preload : c.resolver_preload ≢ some null

-- The configurations that the program can come by.
pub data Made : Config → Type 0 where
  fresh : Made empty_config
  pid_file : {c : Config} (path : String) → Made c → Made (with_pid_file path c)
  jetstream : {c : Config} (dir domain : String) → Made c → Made (with_jetstream dir domain c)
  remote : {c : Config} (r : Remote) → Made c → Made (with_remote r c)
  ngs_remote :
      {c : Config} (creds account : String) (imports exports : List String)
      → Made c
      → Made (with_ngs_remote creds account imports exports c)
  full_resolver :
      {c : Config} (operator account jwt dir : String)
      → Made c
      → Made (with_full_resolver operator account jwt dir c)
  cache_resolver :
      {c : Config} (operator account jwt dir : String)
      → Made c
      → Made (with_cache_resolver operator account jwt dir c)
  admin_user :
      {c : Config} (user password : String) → Made c → Made (with_admin_user user password c)
  added : {c : Config} (r : Remote) → Made c → Made (add_remote r c)
  removed_account :
      {c : Config} (account : String) → Made c → Made (remove_remote_by_account_pub_key account c).0
  removed_creds : {c : Config} (path : String) → Made c → Made (remove_remote_by_credsfile path c).0

appended-ne-nil : {A : Type 0} (o : Option (List A)) (x : A) → some (appended o x) ≢ some []
appended-ne-nil none x h = cc
appended-ne-nil (some []) x h = cc
appended-ne-nil (some (y ∷ ys)) x h = cc

-- an edit of the remotes leaves the rest alone
remove_from-IsPlain :
    (p : Remote → Bool) (message : String) (c : Config) (o : Option (List Remote))
    → IsPlain c
    → IsPlain (remove_from p message c o).0
remove_from-IsPlain p message c none h = h
remove_from-IsPlain p message c (some rs) h = go (cut_first p rs)
  where
    go : (o : Option (List Remote)) → IsPlain (set_remotes c message o).0
    go none = h
    go (some xs) = record { users = h.users; preload = h.preload }

pub Made-IsPlain : {c : Config} → Made c → IsPlain c
unfolding with_pid_file with_jetstream with_remote with_ngs_remote with_full_resolver
    with_cache_resolver with_admin_user add_remote remove_remote_by_account_pub_key
    remove_remote_by_credsfile
Made-IsPlain fresh = record { users = λ h. cc; preload = λ h. cc }
Made-IsPlain (pid_file path m) =
    let h = Made-IsPlain m in record { users = h.users; preload = h.preload }
Made-IsPlain (jetstream dir domain m) =
    let h = Made-IsPlain m in record { users = h.users; preload = h.preload }
Made-IsPlain (remote r m) =
    let h = Made-IsPlain m in record { users = h.users; preload = h.preload }
Made-IsPlain (ngs_remote creds account imports exports m) =
    let h = Made-IsPlain m in record { users = h.users; preload = h.preload }
Made-IsPlain (full_resolver operator account jwt dir m) =
    let h = Made-IsPlain m in record { users = h.users; preload = λ h. cc }
Made-IsPlain (cache_resolver operator account jwt dir m) =
    let h = Made-IsPlain m in record { users = h.users; preload = λ h. cc }
Made-IsPlain (admin_user user password m) =
    let h = Made-IsPlain m in record { users = appended-ne-nil _ _; preload = h.preload }
Made-IsPlain (added r m) = let h = Made-IsPlain m in record { users = h.users; preload = h.preload }
Made-IsPlain (removed_account account m) = remove_from-IsPlain _ _ _ _ (Made-IsPlain m)
Made-IsPlain (removed_creds path m) = remove_from-IsPlain _ _ _ _ (Made-IsPlain m)
