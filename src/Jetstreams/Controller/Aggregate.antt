-- ===== src/Jetstreams/Controller/Aggregate.antt =====
-- When the sources of an aggregate are written, and what happens to its errors.
use anck.Prelude.{
  String, false, none, List, ◌≡◌, ◌≢◌, sym, ◌∙◌, length, contains, string_eq, contains-map_same,
  contains-map_injective, Bool-cases, map, inl, inr,
}
use anck.Prelude.Exec.{ok, err, errorf, ◌>>=◌}
use anck.Common.Slice.{slice_equal}
use anck.Common.Slice.Laws.{slice_equal_iff}
use anck.Api.{StreamLinkSpec, StreamSpec, Network}
use anck.Jetstreams.Duration.{Std}
use anck.Jetstreams.StreamConfig.{StreamConfig, create_jetstream_config}
use anck.Jetstreams.Sources.{my_stream_source_eq, aggregate_sources}
use anck.Jetstreams.Sources.Laws.{
  compared_source, compared_source-injective, convert-aggregate_sources, length-map,
}
use anck.Jetstreams.Jsm.{Jsm}
use anck.Jetstreams.Controller.{JetstreamController, update_from, create_aggregate}

module _ {W : Type 0} (jsm : Jsm W) where
  -- A stream whose configuration, once copied, aggregates the same domains, in whatever order, is left as it
  -- is: no request is made.
  pub update_from_same :
      (stream : jsm.Stream) (network : String) (link : StreamLinkSpec) (old new : List String)
      (config : StreamConfig) (w : W)
      → jsm.copied (jsm.configuration stream) ≡ ok config
      → config.sources ≡ aggregate_sources network link old
      → length old ≡ length new
      → ((d : String) → contains old d ≡ contains new d)
      → update_from jsm stream (aggregate_sources network link new) w ≡ (ok tt, w)
  unfolding update_from ◌>>=◌
  update_from_same stream network link old new config w copied e n m =
      rw (copied, e, update_from)
        (rw (convert-aggregate_sources network link old) (
          rw (convert-aggregate_sources network link new) (
            rw (
              (slice_equal_iff _ _).1 (
                length-map (compared_source network link) old
                    ∙ n
                    ∙ sym (length-map (compared_source network link) new),
                contains-map_same (compared_source network link) old new m,
              )))))

  different :
      (network : String) (link : StreamLinkSpec) (old new : List String) (d : String)
      → contains old d ≢ contains new d
      → slice_equal
          (map (compared_source network link) old)
          (map (compared_source network link) new)
        ≡ false
  different network link old new d n =
      elim (Bool-cases (
        slice_equal (map (compared_source network link) old)
          (map (compared_source network link) new))) [
            | inl e ↦ absurd (
                n (
                  sym (
                    contains-map_injective (compared_source network link)
                      (compared_source-injective network link) old d)
                  ∙ ((slice_equal_iff _ _).0 e).1 (compared_source network link d)
                  ∙ contains-map_injective (compared_source network link)
                      (compared_source-injective network link) new d))
            | inr e ↦ e
          ]

  -- The sources of an aggregate are written exactly once if a domain has joined or left it: the rest of the
  -- stream's configuration stays.
  pub update_from_different :
      (stream : jsm.Stream) (network : String) (link : StreamLinkSpec) (old new : List String)
      (d : String) (config : StreamConfig) (w : W)
      → jsm.copied (jsm.configuration stream) ≡ ok config
      → config.sources ≡ aggregate_sources network link old
      → contains old d ≢ contains new d
      → update_from jsm stream (aggregate_sources network link new) w
        ≡ jsm.update_configuration stream
            (record config { sources = aggregate_sources network link new })
            w
  unfolding update_from ◌>>=◌
  update_from_different stream network link old new d config w copied e n =
      rw (copied, e, update_from)
        (rw (convert-aggregate_sources network link old) (
          rw (convert-aggregate_sources network link new)
            (rw (different network link old new d n))))

  -- An aggregate without a link is refused before anything outside is asked.
  pub create_aggregate_no_link :
      {F : Type 0} (std : Std F) (j : JetstreamController) (domain : String) (network : Network)
      (spec : StreamSpec) (domains : List String) (cfg : StreamConfig) (w : W)
      → create_jetstream_config std "" spec none ≡ ok cfg
      → spec.link ≡ none
      → create_aggregate jsm std j domain network spec domains w
        ≡ (err (errorf "Cannot create aggregate. No link section found in stream spec"), w)
  unfolding create_aggregate ◌>>=◌
  create_aggregate_no_link std j domain network spec domains cfg w e n = rw e (rw n)
