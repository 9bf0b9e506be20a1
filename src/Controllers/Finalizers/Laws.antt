-- ===== src/Controllers/Finalizers/Laws.antt =====
-- Which finalizers a network has after a reconciliation.
use anck.Prelude.{
  String, not, ◌&&◌, ◌||◌, List, ◌++◌, string_eq, contains, contains-append, contains-keep, ◌≡◌,
  arith,
}
use anck.Api.{Network}
use anck.Controllers.SliceLib.{SliceLib, IsSliceLib}
use anck.Controllers.Finalizers.{remove_network_finalizers, add_network_finalizer}

module _ (lib : SliceLib) (laws : IsSliceLib lib) where
  -- After finalizers were removed and others were added, those are there that were added, or that were
  -- there and not removed; a finalizer that is both removed and added is there.
  pub add-remove_network_finalizers :
      (removed added : List String) (network : Network) (f : String)
      → contains
          (add_network_finalizer lib added
            (remove_network_finalizers lib removed network)).meta.finalizers
          f
        ≡ ((contains network.meta.finalizers f && not (contains removed f)) || contains added f)
  unfolding add_network_finalizer remove_network_finalizers
  add-remove_network_finalizers removed added network f = ground (
    arith,
    laws.contains-unique ((remove_network_finalizers lib removed network).meta.finalizers ++ added)
        f,
    contains-append (remove_network_finalizers lib removed network).meta.finalizers added f,
    contains-keep (λ v. not (lib.has removed v)) network.meta.finalizers f,
    laws.has_lem removed f,
  )
