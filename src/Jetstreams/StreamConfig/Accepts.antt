-- ===== src/Jetstreams/StreamConfig/Accepts.antt =====
-- Which stream specifications `createJetstreamConfig` accepts, and what it makes of them.
use anck.Prelude.{
  String, Option, none, some, List, [], ◌∷◌, ◌≡◌, ◌≢◌, ◌⊎◌, ◌↔◌, refl, arith, map, if◌then◌else◌,
  ◌==◌, string_eq, str_dec, inl, inr,
}
use anck.Prelude.Exec.{Result, ok, err, panic}
use anck.Prelude.Int.{ℤ, negsuc}
use anck.Api.{SubjectSpec, StreamSpec}
use anck.Jetstreams.Duration.{Std, parse_duration_string}
use anck.Jetstreams.StreamConfig.{
  limits_policy, interest_policy, work_queue_policy, file_storage, memory_storage, discard_old,
  discard_new, checked, assembled, StreamConfig, gather, qualify, subjects_for_stream,
  domain_subjects, retention_of, storage_of, discard_of, create_jetstream_config, ◌>>=◌,
}

abbrev pub IsRetention : String → Type 0
IsRetention p = (p ≡ "limits") ⊎ (p ≡ "interest") ⊎ (p ≡ "workqueue")

abbrev pub IsStorage : String → Type 0
IsStorage p = (p ≡ "file") ⊎ (p ≡ "memory")

abbrev pub IsDiscard : String → Type 0
IsDiscard p = (p ≡ "old") ⊎ (p ≡ "new")

abbrev pub HasSubjects : String → Option (List SubjectSpec) → Type 0
HasSubjects name none = Unit
HasSubjects name (some ss) = gather name ss ≢ []

-- What a specification must satisfy.
pub record IsAccepted {F : Type 0} (std : Std F) (spec : StreamSpec)
    (subjects : Option (List SubjectSpec)) : Type 0 where
  pub has_subjects : HasSubjects spec.name subjects
  pub max_age : (d : ℤ) × (parse_duration_string std spec.config.max_age ≡ ok d)
  pub retention : IsRetention spec.config.retention
  pub storage : IsStorage spec.config.storage
  pub discard : IsDiscard spec.config.discard

abbrev pub Succeeds {ℓ} : {A : Type ℓ} → Result A → Type ℓ
Succeeds {A} r = (a : A) × (r ≡ ok a)

retention_of-ok : (p : String) → Succeeds (retention_of p) → IsRetention p
unfolding retention_of
retention_of-ok p (r, e) = ground arith

ok-retention_of : (p : String) → IsRetention p → Succeeds (retention_of p)
unfolding retention_of str_dec
ok-retention_of p (inl e) = (limits_policy, rw e)
ok-retention_of p (inr (inl e)) = (interest_policy, rw e)
ok-retention_of p (inr (inr e)) = (work_queue_policy, rw e)

storage_of-ok : (p : String) → Succeeds (storage_of p) → IsStorage p
unfolding storage_of
storage_of-ok p (r, e) = ground arith

ok-storage_of : (p : String) → IsStorage p → Succeeds (storage_of p)
unfolding storage_of str_dec
ok-storage_of p (inl e) = (file_storage, rw e)
ok-storage_of p (inr e) = (memory_storage, rw e)

discard_of-ok : (p : String) → Succeeds (discard_of p) → IsDiscard p
unfolding discard_of
discard_of-ok p (r, e) = ground arith

ok-discard_of : (p : String) → IsDiscard p → Succeeds (discard_of p)
unfolding discard_of str_dec
ok-discard_of p (inl e) = (discard_old, rw e)
ok-discard_of p (inr e) = (discard_new, rw e)

checked-ok : (name : String) (ss : List String) → Succeeds (checked name ss) → ss ≢ []
checked-ok name [] (r, e) = cc
checked-ok name (s ∷ ss) (r, e) = cc

ok-checked : (name : String) (ss : List String) → ss ≢ [] → checked name ss ≡ ok ss
ok-checked name [] h = absurd (h refl)
ok-checked name (s ∷ ss) h = refl

subjects_for_stream-ok :
    (name : String) (o : Option (List SubjectSpec))
    → Succeeds (subjects_for_stream name o)
    → HasSubjects name o
unfolding subjects_for_stream
subjects_for_stream-ok name none h = tt
subjects_for_stream-ok name (some ss) h = checked-ok name (gather name ss) h

abbrev pub gathered : String → Option (List SubjectSpec) → List String
gathered name none = []
gathered name (some ss) = gather name ss

ok-subjects_for_stream :
    (name : String) (o : Option (List SubjectSpec))
    → HasSubjects name o
    → subjects_for_stream name o ≡ ok (gathered name o)
unfolding subjects_for_stream
ok-subjects_for_stream name none h = refl
ok-subjects_for_stream name (some ss) h = ok-checked name (gather name ss) h

bind-ok {ℓ κ} :
    {A : Type ℓ} {B : Type κ} (m : Result A) (f : A → Result B)
    → Succeeds (m >>= f)
    → (a : A) × (m ≡ ok a) × Succeeds (f a)
bind-ok (ok a) f h = (a, refl, h)
bind-ok (err e) f (b, h) = cc
bind-ok panic f (b, h) = cc

pub create_jetstream_config_iff :
    {F : Type 0} (std : Std F) (domain : String) (spec : StreamSpec)
    (subjects : Option (List SubjectSpec))
    → Succeeds (create_jetstream_config std domain spec subjects) ↔ IsAccepted std spec subjects
unfolding create_jetstream_config
create_jetstream_config_iff std domain spec subjects = (
  λ h.
      let (ss, e1, h1) = bind-ok (subjects_for_stream spec.name subjects) _ h in
      let (age, e2, h2) = bind-ok (parse_duration_string std spec.config.max_age) _ h1 in
      let (r, e3, h3) = bind-ok (retention_of spec.config.retention) _ h2 in
      let (st, e4, h4) = bind-ok (storage_of spec.config.storage) _ h3 in
      let (d, e5, h5) = bind-ok (discard_of spec.config.discard) _ h4 in
      record {
        has_subjects = subjects_for_stream-ok spec.name subjects (ss, e1);
        max_age = (age, e2);
        retention = retention_of-ok _ (r, e3);
        storage = storage_of-ok _ (st, e4);
        discard = discard_of-ok _ (d, e5);
      },
  λ a.
      let (r, e3) = ok-retention_of _ a.retention in
      let (st, e4) = ok-storage_of _ a.storage in
      let (d, e5) = ok-discard_of _ a.discard in
      (
        assembled domain spec (gathered spec.name subjects) a.max_age.0 r st d,
        rw (ok-subjects_for_stream spec.name subjects a.has_subjects, a.max_age.1, e3, e4, e5),
      ),
)

-- A configuration that is made has the stream's name, and as subjects those gathered for the stream: as
-- they are for the empty domain, and each behind the domain, but for `local.>`, for any other. It has one
-- replica, no bound on its consumers, and no source or mirror.
pub create_jetstream_config-ok :
    {F : Type 0} (std : Std F) (domain : String) (spec : StreamSpec)
    (subjects : Option (List SubjectSpec)) (cfg : StreamConfig)
    → create_jetstream_config std domain spec subjects ≡ ok cfg
    → (cfg.name ≡ spec.name)
      × (cfg.subjects ≡ (
          if domain == ""
          then gathered spec.name subjects
          else map (qualify domain) (gathered spec.name subjects)))
      × (cfg.replicas ≡ 1)
      × (cfg.max_consumers ≡ negsuc 0)
      × (cfg.sources ≡ [])
      × (cfg.mirror ≡ none)
unfolding create_jetstream_config domain_subjects
create_jetstream_config-ok std domain spec subjects cfg h =
    let a = (create_jetstream_config_iff std domain spec subjects).0 (cfg, h) in
    ground (arith, ok-subjects_for_stream spec.name subjects a.has_subjects)
