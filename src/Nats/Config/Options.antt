-- ===== src/Nats/Config/Options.antt =====
-- What `NewConfig` builds from its options.
use mathlib.Core.List.{foldl, append-nil, append_assoc}
use anck.Prelude.{String, Option, none, some, List, [], ◌∷◌, ◌++◌, ◌≡◌, refl, sym, ap, ◌∙◌, map}
use anck.Nats.Config.{
  User, Remote, Config, Setting, appended, remotes_of, users_of, with_pid_file, with_jetstream,
  with_remote, with_full_resolver, with_cache_resolver, with_admin_user, empty_config, new_config,
}

-- The options that the program has, as data.
pub data Choice : Type 0 where
  pid_file : String → Choice
  jetstream : String → String → Choice
  remote : Remote → Choice
  full_resolver cache_resolver : String → String → String → String → Choice
  admin_user : User → Choice

abbrev pub setting : Choice → Setting
setting (pid_file f) = with_pid_file f
setting (jetstream dir domain) = with_jetstream dir domain
setting (remote r) = with_remote r
setting (full_resolver o k j p) = with_full_resolver o k j p
setting (cache_resolver o k j p) = with_cache_resolver o k j p
setting (admin_user u) = with_admin_user u.user u.password

abbrev pub listed {ℓ} : {A : Type ℓ} → Option (List A) → List A
listed none = []
listed (some xs) = xs

abbrev pub remotes_in : List Choice → List Remote
remotes_in [] = []
remotes_in (remote r ∷ cs) = r ∷ remotes_in cs
remotes_in (_ ∷ cs) = remotes_in cs

abbrev pub users_in : List Choice → List User
users_in [] = []
users_in (admin_user u ∷ cs) = u ∷ users_in cs
users_in (_ ∷ cs) = users_in cs

abbrev run : Config → List Choice → Config
run c cs = foldl (λ c opt. opt c) c (map setting cs)

listed-appended {ℓ} :
    {A : Type ℓ} (o : Option (List A)) (x : A) → listed (some (appended o x)) ≡ listed o ++ x ∷ []
listed-appended none x = refl
listed-appended (some xs) x = refl

opened : Unit {0}
unfolding with_pid_file with_jetstream with_remote with_full_resolver with_cache_resolver
    with_admin_user
opened = tt

run-remotes :
    (c : Config) (cs : List Choice)
    → listed (remotes_of (run c cs).leafnodes) ≡ listed (remotes_of c.leafnodes) ++ remotes_in cs
unfolding opened
run-remotes c [] = sym (append-nil _)
run-remotes c (remote r ∷ cs) =
    run-remotes (with_remote r c) cs
    ∙ ap (λ l. l ++ remotes_in cs) (listed-appended (remotes_of c.leafnodes) r)
    ∙ append_assoc (listed (remotes_of c.leafnodes)) (r ∷ []) (remotes_in cs)
run-remotes c (x ∷ cs) = run-remotes (setting x c) cs

run-users :
    (c : Config) (cs : List Choice)
    → listed (users_of (run c cs).authorization) ≡ listed (users_of c.authorization) ++ users_in cs
unfolding opened
run-users c [] = sym (append-nil _)
run-users c (admin_user u ∷ cs) =
    run-users (with_admin_user u.user u.password c) cs
    ∙ ap (λ l. l ++ users_in cs) (listed-appended (users_of c.authorization) u)
    ∙ append_assoc (listed (users_of c.authorization)) (u ∷ []) (users_in cs)
run-users c (x ∷ cs) = run-users (setting x c) cs

run-http : (c : Config) (cs : List Choice) → (run c cs).http ≡ c.http
unfolding opened
run-http c [] = refl
run-http c (remote r ∷ cs) = run-http (with_remote r c) cs
run-http c (x ∷ cs) = run-http (setting x c) cs

-- Whatever options `NewConfig` is given, in whatever order, the result lists the remotes and the admin
-- users in the order in which the options add them, loses none, and keeps the monitoring port 8222.
pub new_config_lists :
    (cs : List Choice)
    → (listed (remotes_of (new_config (map setting cs)).leafnodes) ≡ remotes_in cs)
      × (listed (users_of (new_config (map setting cs)).authorization) ≡ users_in cs)
      × ((new_config (map setting cs)).http ≡ 8222)
unfolding new_config
new_config_lists cs =
    (run-remotes empty_config cs, run-users empty_config cs, run-http empty_config cs)
