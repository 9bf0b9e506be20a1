-- ===== src/Jetstreams/Controller/Delete.antt =====
-- `Delete` and `DeleteNoDomain`: which streams are gone afterwards.
use anck.Prelude.{
  String, Bool, true, false, some, List, [], ◌∷◌, inl, inr, ◌≡◌, refl, arith, All, All-map,
  if◌then◌else◌,
}
use anck.Prelude.Exec.{
  Exec, Result, ok, err, panic, errorf, pure, raise, attempted, defer, continue, ◌>>=◌, >>=-eq-ok,
  >>=_ok,
}
use anck.Jetstreams.Jsm.{Jsm}
use anck.Jetstreams.Controller.{JetstreamController, delete_streams, delete_all, delete}

-- What is relied on: `Gone s w` says that stream `s` is deleted in the world `w`. A deletion without an
-- error deletes its stream; deleting another one, or closing the connection, brings none back.
pub record Deletes {W : Type 0} (jsm : Jsm W) (Gone : jsm.Stream → W → Type 0) : Type 0 where
  pub deletes : (s : jsm.Stream) (w : W) → (jsm.delete s w).0 ≡ ok tt → Gone s (jsm.delete s w).1
  pub delete_keeps : (s t : jsm.Stream) (w : W) → Gone t w → Gone t (jsm.delete s w).1
  pub close_keeps : (c : jsm.Conn) (t : jsm.Stream) (w : W) → Gone t w → Gone t (jsm.close c w)

module _ {W : Type 0} (jsm : Jsm W) (Gone : jsm.Stream → W → Type 0) (laws : Deletes jsm Gone) where
  -- the rest of the loop after a deletion with the given outcome
  abbrev rest_of : List jsm.Stream → Bool → Result (Unit {0}) → W → Result Bool × W
  rest_of ss errors r =
      continue (attempted r) (λ o. delete_streams jsm ss (elim o [ inl _ ↦ true | inr _ ↦ errors ]))

  rest_of-keeps :
      (ss : List jsm.Stream) (errors : Bool) (t : jsm.Stream) (r : Result (Unit {0})) (w : W)
      → Gone t w
      → ((e : Bool) → Gone t (delete_streams jsm ss e w).1)
      → Gone t (rest_of ss errors r w).1
  rest_of-keeps ss errors t (ok a) w h ih = ih errors
  rest_of-keeps ss errors t (err e) w h ih = ih true
  rest_of-keeps ss errors t panic w h ih = h

  delete_streams-keeps :
      (ss : List jsm.Stream) (errors : Bool) (t : jsm.Stream) (w : W)
      → Gone t w
      → Gone t (delete_streams jsm ss errors w).1
  unfolding delete_streams ◌>>=◌
  delete_streams-keeps [] errors t w h = h
  delete_streams-keeps (s ∷ ss) errors t w h =
      let kept = laws.delete_keeps s t w h in
      rest_of-keeps ss errors t (jsm.delete s w).0 (jsm.delete s w).1 kept
        (λ e. delete_streams-keeps ss e t (jsm.delete s w).1 kept)

  abbrev pub AllGone : List jsm.Stream → W → Type 0
  AllGone ss w = All (λ t. Gone t w) ss

  -- without an error at the end there was none on the way
  rest_of-ok :
      (s : jsm.Stream) (ss : List jsm.Stream) (errors : Bool) (r : Result (Unit {0})) (w : W)
      → (rest_of ss errors r w).0 ≡ ok false
      → (r ≡ ok tt → Gone s w)
      → ((e : Bool) → Gone s w → Gone s (delete_streams jsm ss e w).1)
      → ((e : Bool)
          → (delete_streams jsm ss e w).0 ≡ ok false
          → (e ≡ false) × AllGone ss (delete_streams jsm ss e w).1)
      → (errors ≡ false) × AllGone (s ∷ ss) (rest_of ss errors r w).1
  rest_of-ok s ss errors (ok u) w h gone kept ih =
      let (clean, all_gone) = ih errors h in (clean, (kept errors (gone refl), all_gone))
  rest_of-ok s ss errors (err e) w h gone kept ih = cc ((ih true h).0)
  rest_of-ok s ss errors panic w h gone kept ih = cc

  delete_streams-ok :
      (ss : List jsm.Stream) (errors : Bool) (w : W)
      → (delete_streams jsm ss errors w).0 ≡ ok false
      → (errors ≡ false) × AllGone ss (delete_streams jsm ss errors w).1
  unfolding delete_streams ◌>>=◌
  delete_streams-ok [] errors w h = (ground arith, tt)
  delete_streams-ok (s ∷ ss) errors w h =
      rest_of-ok s ss errors (jsm.delete s w).0 (jsm.delete s w).1 h (laws.deletes s w)
        (λ e k. delete_streams-keeps ss e s (jsm.delete s w).1 k)
        (λ e. delete_streams-ok ss e (jsm.delete s w).1)

  -- `ss` are the streams that the server lists in the world `w`
  abbrev pub Listed : jsm.Manager → W → List jsm.Stream → Type 0
  Listed mgr w ss = (jsm.streams mgr w).0 ≡ ok ss

  -- the end of the method
  abbrev finish : Bool → Exec W (Unit {0})
  finish errors = if errors then raise (errorf "error deleting streams") else pure tt

  finish-ok :
      (errors : Bool) (w : W)
      → (finish errors w).0 ≡ ok tt
      → (errors ≡ false) × ((finish errors w).1 ≡ w)
  unfolding ◌>>=◌
  finish-ok true w h = cc
  finish-ok false w h = (refl, refl)

  finished :
      (ss : List jsm.Stream) (w : W)
      → ((delete_streams jsm ss false >>= finish) w).0 ≡ ok tt
      → AllGone ss ((delete_streams jsm ss false >>= finish) w).1
  finished ss w h =
      let (errors, deleted, h2) = >>=-eq-ok (delete_streams jsm ss false) finish w h in
      let w' : W = (delete_streams jsm ss false w).1 in
      let (clean, same) = finish-ok errors w' h2 in
      rw (>>=_ok (delete_streams jsm ss false) finish w deleted)
        (rw same (delete_streams-ok ss false w (rw clean at deleted)).1)

  delete_all-ok :
      (mgr : jsm.Manager) (w : W)
      → (delete_all jsm mgr w).0 ≡ ok tt
      → (ss : List jsm.Stream) × Listed mgr w ss × AllGone ss (delete_all jsm mgr w).1
  unfolding delete_all
  delete_all-ok mgr w h =
      let (ss, listed, h1) = >>=-eq-ok (jsm.streams mgr) _ w h in
      (ss, listed, rw (>>=_ok (jsm.streams mgr) _ w listed) (finished ss (jsm.streams mgr w).1 h1))

  -- `ss` are the streams that the server lists for the domain in the call that `Delete` makes in the world
  -- `w`: it connects with the address and the credentials file of the controller, and asks the manager
  -- of that domain.
  abbrev pub ListedFor :
      JetstreamController → String → W → jsm.Conn → jsm.Manager → List jsm.Stream → Type 0
  ListedFor j domain w nc mgr ss =
      let connected = jsm.connect j.nats_server_address j.creds_file w in
      let made = jsm.new_manager nc (some domain) connected.1 in
      (connected.0 ≡ ok nc) × (made.0 ≡ ok mgr) × Listed mgr made.1 ss

  -- `Delete` deletes every stream of its domain, whatever names it is given: if it returns no error, then
  -- the server could be reached with the address and the credentials file of the controller, the manager of
  -- the given domain listed streams, and all of these are gone, where a deletion without an error deletes
  -- its stream and no call brings one back.
  pub delete-AllGone :
      (j : JetstreamController) (domain network : String) (names : List String) (w : W)
      → (delete jsm j domain network names w).0 ≡ ok tt
      → (nc : jsm.Conn) × (mgr : jsm.Manager) × (ss : List jsm.Stream) × ListedFor j domain w nc mgr
          ss
        × AllGone ss (delete jsm j domain network names w).1
  unfolding delete defer
  delete-AllGone j domain network names w h =
      let (nc, connected, h1) = >>=-eq-ok (jsm.connect j.nats_server_address j.creds_file) _ w h in
      let w1 : W = (jsm.connect j.nats_server_address j.creds_file w).1 in
      let (mgr, made, h2) = >>=-eq-ok (jsm.new_manager nc (some domain)) _ w1 h1 in
      let w2 : W = (jsm.new_manager nc (some domain) w1).1 in
      let (ss, listed, gone) = delete_all-ok mgr w2 h2 in
      (
        nc,
        mgr,
        ss,
        (connected, made, listed),
        rw (>>=_ok (jsm.connect j.nats_server_address j.creds_file) _ w connected) (
            rw (>>=_ok (jsm.new_manager nc (some domain)) _ w1 made)
              (All-map (λ t k. laws.close_keeps nc t _ k) ss gone)),
      )
