-- ===== src/Controllers/NodeStreams/Marks.antt =====
-- The marks that the attempts to make a node's streams set in `errorsCreatingJetstreams`.
use anck.Prelude.{
  String, Bool, true, false, Option, none, some, List, [], ◌∷◌, ◌⊎◌, ◌==◌, string_eq, ◌≡◌, refl,
  arith, Bool-cases, inl, inr,
}
use anck.Prelude.Dict.{lookup-insert}
use anck.Prelude.Exec.{
  Exec, Error, Result, ok, err, panic, continue, attempted, attempt, inner, value, assign, lift,
  pure, raise, errorf, ◌>>=◌, ◌>>◌,
}
use anck.Api.{Network, StreamSpec}
use anck.Jetstreams.Duration.{Std}
use anck.Jetstreams.Messages.{DomainMessages}
use anck.Jetstreams.Jsm.{Jsm}
use anck.Jetstreams.Controller.{JetstreamController, exists, create}
use anck.Controllers.NodeStreams.{
  Tries, has_failed, set_failed, or_panic, say, after_create, after_exists, create_stream,
  create_streams,
}

-- Calls that set marks, never take one away, and set the one of the node where they return an error.
pub record Marks {W A : Type 0} (node : String) (f : Exec (Tries × W) A) : Type 0 where
  pub keeps : (s : Tries × W) → has_failed node s.0 ≡ true → has_failed node (f s).1.0 ≡ true
  pub marks : (s : Tries × W) (e : Error) → (f s).0 ≡ err e → has_failed node (f s).1.0 ≡ true

module _ {W A B : Type 0} (node : String) where
  >>=-Marks :
      (f : Exec (Tries × W) A) (g : A → Exec (Tries × W) B)
      → Marks node f
      → ((a : A) → Marks node (g a))
      → Marks node (f >>= g)
  unfolding ◌>>=◌
  >>=-Marks f g m k = record {
    keeps = λ s h. keeps-at s (f s).0 (m.keeps s h);
    marks = λ s e h. marks-at s e (f s).0 refl h;
  }
    where
      keeps-at :
          (s : Tries × W) (r : Result A)
          → has_failed node (f s).1.0 ≡ true
          → has_failed node (continue r g (f s).1).1.0 ≡ true
      keeps-at s (ok a) h = (k a).keeps (f s).1 h
      keeps-at s (err e) h = h
      keeps-at s panic h = h

      marks-at :
          (s : Tries × W) (e : Error) (r : Result A)
          → (f s).0 ≡ r
          → (continue r g (f s).1).0 ≡ err e
          → has_failed node (continue r g (f s).1).1.0 ≡ true
      marks-at s e (ok a) p h = (k a).marks (f s).1 e h
      marks-at s e (err x) p h = m.marks s x p
      marks-at s e panic p h = cc

module _ {W : Type 0} {F : Type 0} (jsm : Jsm W) (std : Std F) (js : JetstreamController)
    (node : String) where
  -- to mark and fail
  fail-Marks : Marks node (set_failed jsm std js node >> raise {A = Unit {0}} (errorf ""))
  unfolding set_failed raise value assign ◌>>=◌
  fail-Marks = record {
    keeps = λ s h. ground (arith, lookup-insert node node true s.0.failed);
    marks = λ s e h. ground (arith, lookup-insert node node true s.0.failed);
  }

  pure-Marks : Marks {A = Unit {0}} node (pure {W = Tries × W} (tt {0}))
  unfolding pure
  pure-Marks = record { keeps = λ s h. h; marks = λ s e h. cc }

  say-Marks : (add : DomainMessages → Option DomainMessages) → Marks node (say jsm std js add)
  unfolding say value lift assign ◌>>=◌ or_panic
  say-Marks add = record {
    keeps = λ s h. keeps-at s (add s.0.messages) h;
    marks = λ s e h. marks-at s (add s.0.messages) e h;
  }
    where
      keeps-at :
          (s : Tries × W) (o : Option DomainMessages)
          → has_failed node s.0 ≡ true
          → has_failed node
              (continue (or_panic jsm std js o) (λ m. assign (record s.0 { messages = m })) s).1.0
            ≡ true
      keeps-at s none h = h
      keeps-at s (some m) h = h

      marks-at :
          (s : Tries × W) (o : Option DomainMessages) (e : Error)
          → (continue (or_panic jsm std js o) (λ m. assign (record s.0 { messages = m })) s).0
            ≡ err e
          → has_failed node
              (continue (or_panic jsm std js o) (λ m. assign (record s.0 { messages = m })) s).1.0
            ≡ true
      marks-at s none e h = cc
      marks-at s (some m) e h = cc

  attempt-inner-Marks : {A : Type 0} (m : Exec W A) → Marks node (attempt (inner {S = Tries} m))
  unfolding attempt inner
  attempt-inner-Marks m = record {
    keeps = λ s h. h;
    marks = λ s e h. absurd (no_error (m s.1).0 h);
  }
    where
      no_error : {A : Type 0} {e : Error} (r : Result A) → attempted r ≡ err e → ⊥
      no_error (ok a) h = cc
      no_error (err x) h = cc
      no_error panic h = cc

  after_create-Marks :
      (stream : StreamSpec) (r : Error ⊎ Unit {0})
      → Marks node (after_create jsm std js node stream r)
  unfolding after_create
  after_create-Marks stream (inl e) = >>=-Marks node _ _ (say-Marks _) (λ _. fail-Marks)
  after_create-Marks stream (inr _) = say-Marks _

  after_exists-Marks :
      (network : Network) (stream : StreamSpec) (r : Error ⊎ Bool)
      → Marks node (after_exists jsm std js node network stream r)
  unfolding after_exists
  after_exists-Marks network stream (inl _) = fail-Marks
  after_exists-Marks network stream (inr true) = pure-Marks
  after_exists-Marks network stream (inr false) =
      >>=-Marks node _ _
        (attempt-inner-Marks
          (create jsm std js node network.meta.name stream network.spec.subjects))
        (after_create-Marks stream)

  create_stream-Marks :
      (network : Network) (stream : StreamSpec)
      → Marks node (create_stream jsm std js node network stream)
  unfolding create_stream
  create_stream-Marks network stream =
      >>=-Marks node _ _ (attempt-inner-Marks (exists jsm js node stream.name))
        (after_exists-Marks network stream)

  pub create_streams-Marks :
      (network : Network) (streams : List StreamSpec)
      → Marks node (create_streams jsm std js node network streams)
  unfolding create_streams
  create_streams-Marks network [] = pure-Marks
  create_streams-Marks network (stream ∷ streams) = elim (Bool-cases (stream.location == "node")) [
    | inl t ↦ rw t (
        >>=-Marks node _ _ (create_stream-Marks network stream)
          (λ _. create_streams-Marks network streams))
    | inr f ↦ rw f (create_streams-Marks network streams)
  ]
