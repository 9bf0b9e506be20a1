-- ===== src/Nats/Config.antt =====
-- pkg/nats/config.go: the configuration of a NATS server, its options and the edits of its remotes. A
-- pointer and a slice that the code compares with nil are an `Option`. `ResolverPreload` is any JSON value
-- or nil; the map that the options send through encoding/json comes back as an object.
pub mod Remotes
pub mod Options
pub mod Json
pub mod Plain
pub mod RoundTrip
use mathlib.Core.List.{foldl}
use anck.Prelude.{
  ℕ, String, ◌<>◌, Bool, false, Option, none, some, List, [], ◌∷◌, ◌++◌, if◌then◌else◌, ◌==◌,
  string_eq,
}
use anck.Nats.Json.{Value, text, object, no_member, member}
use anck.Prelude.Exec.{Error, errorf}
use anck.Text.{str_contains}

pub record User : Type 0 where
  pub user : String
  pub password : String

pub record Jetstream : Type 0 where
  pub store_dir : String
  pub domain : String

pub record Authorization : Type 0 where
  pub users : Option (List User)

-- Go's `Remotes`: one remote
pub record Remote : Type 0 where
  pub url : String
  pub credentials : String
  pub account : String
  pub deny_imports : List String
  pub deny_exports : List String

pub record Leafnodes : Type 0 where
  pub remotes : Option (List Remote)

pub record Resolver : Type 0 where
  pub type : String
  pub dir : String
  pub allow_delete : Option Bool
  pub interval : Option String
  pub ttl : Option String
  pub timeout : String

pub record Config : Type 0 where
  pub jetstream : Option Jetstream
  pub authorization : Option Authorization
  pub pid_file : Option String
  pub http : ℕ
  pub leafnodes : Option Leafnodes
  pub operator : Option String
  pub system_account : Option String
  pub resolver : Option Resolver
  pub resolver_preload : Option Value

-- A nil slice and the `append` that follows `make`.
abbrev pub appended {ℓ} : {A : Type ℓ} → Option (List A) → A → List A
appended none x = x ∷ []
appended (some xs) x = xs ++ x ∷ []

abbrev pub remotes_of : Option Leafnodes → Option (List Remote)
remotes_of none = none
remotes_of (some l) = l.remotes

-- `AddRemote`; its error is always nil
unfoldable pub add_remote : Remote → Config → Config
add_remote r c = record c {
  leafnodes = some (record { remotes = some (appended (remotes_of c.leafnodes) r) });
}

abbrev pub ngs_url : String
ngs_url = "tls://connect.ngs.global:7422"

-- `AddNGSRemote`
unfoldable pub add_ngs_remote : String → String → List String → List String → Config → Config
unfolding add_remote
add_ngs_remote credentials account deny_imports deny_exports = add_remote (record {
  url = ngs_url;
  credentials = credentials;
  account = account;
  deny_imports = deny_imports;
  deny_exports = deny_exports;
})

abbrev put_back {ℓ} : {A : Type ℓ} → A → Option (List A) → Option (List A)
put_back x none = none
put_back x (some ys) = some (x ∷ ys)

-- the loop that cuts out the first element which passes the test; `none` if there is none
unfoldable pub cut_first {ℓ} : {A : Type ℓ} → (A → Bool) → List A → Option (List A)
cut_first p [] = none
cut_first p (x ∷ xs) = let rest = put_back x (cut_first p xs) in if p x then some xs else rest

-- the configuration after the call, and the error if there is one
abbrev set_remotes : Config → String → Option (List Remote) → Config × Option Error
set_remotes c message none = (c, some (errorf message))
set_remotes c message (some rs) =
    (record c { leafnodes = some (record { remotes = some rs }) }, none)

abbrev remove_from :
    (Remote → Bool) → String → Config → Option (List Remote) → Config × Option Error
remove_from p message c none = (c, none)
remove_from p message c (some rs) = set_remotes c message (cut_first p rs)

-- `RemoveRemoteByAccountPubKey`
unfoldable pub remove_remote_by_account_pub_key : String → Config → Config × Option Error
remove_remote_by_account_pub_key account c =
    remove_from (λ r. r.account == account)
      ("remote with account public key " <> account <> " not found") c (remotes_of c.leafnodes)

-- `RemoveRemoteByCredsfile`
unfoldable pub remove_remote_by_credsfile : String → Config → Config × Option Error
remove_remote_by_credsfile path c =
    remove_from (λ r. str_contains r.credentials path)
      ("remote with creds file " <> path <> " not found") c (remotes_of c.leafnodes)

-- An option of the server, Go's `Option`.
abbrev pub Setting : Type 0
Setting = Config → Config

unfoldable pub with_pid_file : String → Setting
with_pid_file pid_file c = record c { pid_file = some pid_file }

unfoldable pub with_jetstream : String → String → Setting
with_jetstream storage_dir domain c = record c {
  jetstream = some (record { store_dir = storage_dir; domain = domain });
}

-- `WithRemote`, which panics only on an error that `AddRemote` never returns
unfoldable pub with_remote : Remote → Setting
unfolding add_remote
with_remote r c = add_remote r c

unfoldable pub with_ngs_remote : String → String → List String → List String → Setting
unfolding add_remote
with_ngs_remote credentials account deny_imports deny_exports = add_remote (record {
  url = ngs_url;
  credentials = credentials;
  account = account;
  deny_imports = deny_imports;
  deny_exports = deny_exports;
})

unfoldable pub with_full_resolver : String → String → String → String → Setting
with_full_resolver operator_jwt sys_account_pub_key sys_account_jwt jwt_storage_path c = record c {
  operator = some operator_jwt;
  system_account = some sys_account_pub_key;
  resolver = some (record {
    type = "full";
    dir = jwt_storage_path;
    allow_delete = some false;
    interval = some "2m";
    ttl = none;
    timeout = "1.9s";
  });
  resolver_preload = some (object (member sys_account_pub_key (text sys_account_jwt) no_member));
}

unfoldable pub with_cache_resolver : String → String → String → String → Setting
with_cache_resolver operator_jwt sys_account_pub_key sys_account_jwt jwt_storage_path c = record c {
  operator = some operator_jwt;
  system_account = some sys_account_pub_key;
  resolver = some (record {
    type = "cache";
    dir = jwt_storage_path;
    allow_delete = none;
    interval = none;
    ttl = some "1h";
    timeout = "1.9s";
  });
  resolver_preload = some (object (member sys_account_pub_key (text sys_account_jwt) no_member));
}

abbrev pub users_of : Option Authorization → Option (List User)
users_of none = none
users_of (some a) = a.users

unfoldable pub with_admin_user : String → String → Setting
with_admin_user user password c = record c {
  authorization = some (record {
    users =
        some (appended (users_of c.authorization) (record { user = user; password = password }));
  });
}

abbrev pub empty_config : Config
empty_config = record {
  jetstream = none;
  authorization = none;
  pid_file = none;
  http = 8222;
  leafnodes = none;
  operator = none;
  system_account = none;
  resolver = none;
  resolver_preload = none;
}

-- `NewConfig`
unfoldable pub new_config : List Setting → Config
new_config opts = foldl (λ c opt. opt c) empty_config opts
