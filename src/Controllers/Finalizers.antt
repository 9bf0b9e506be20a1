-- ===== src/Controllers/Finalizers.antt =====
-- `removeNetworkFinalizers`, `addNetworkFinalizer` and `updateInfoAndReturn` of
-- controllers/network/network_controller.go.
pub mod Laws
use anck.Prelude.{
  ℕ, String, Bool, true, false, not, ◌&&◌, Option, none, some, List, [], ◌∷◌, ◌++◌, ◌==◌, string_eq,
  if◌then◌else◌, contains, keep, length, nat_eq, all,
}
use anck.Prelude.Dict.{Dict, lookup}
use anck.Prelude.Exec.{Exec, pure, ◌>>=◌, ◌>>◌}
use anck.Api.{
  Network, NetworkInfoSpec, ParticipatingSpec, MainDomainSpec, MirrorStreamSpec,
  AggregateStreamSpec,
}
use anck.Resources.Kube.{Kube}
use anck.Controllers.SliceLib.{SliceLib}

module _ (lib : SliceLib) where
  -- `removeNetworkFinalizers`
  unfoldable pub remove_network_finalizers : List String → Network → Network
  remove_network_finalizers removed network = record network {
    meta = record network.meta {
      finalizers = keep (λ v. not (lib.has removed v)) network.meta.finalizers;
    };
  }

  -- `addNetworkFinalizer`
  unfoldable pub add_network_finalizer : List String → Network → Network
  add_network_finalizer finalizers network = record network {
    meta = record network.meta { finalizers = lib.unique (network.meta.finalizers ++ finalizers) };
  }

-- `reflect.DeepEqual` on slices, and on maps, whose order does not count
abbrev pub slices_equal : List String → List String → Bool
slices_equal [] [] = true
slices_equal (x ∷ xs) (y ∷ ys) = (x == y) && slices_equal xs ys
slices_equal _ _ = false

abbrev pub same_entry {ℓ} : {V : Type ℓ} → (V → V → Bool) → V → Option V → Bool
same_entry eq v none = false
same_entry eq v (some w) = eq v w

abbrev pub maps_equal {ℓ} : {V : Type ℓ} → (V → V → Bool) → Dict V → Dict V → Bool
maps_equal eq m n = nat_eq (length m) (length n) && all (λ (k, v). same_entry eq v (lookup k n)) m

abbrev pub participating_equal : ParticipatingSpec → ParticipatingSpec → Bool
participating_equal p q =
    maps_equal (λ v w. v == w) p.nodes q.nodes
    && maps_equal slices_equal p.pods q.pods
    && maps_equal slices_equal p.pods_creating q.pods_creating
    && maps_equal slices_equal p.pods_terminating q.pods_terminating
    && maps_equal (λ v w. v == w) p.components q.components

abbrev mirrors_equal : MirrorStreamSpec → MirrorStreamSpec → Bool
mirrors_equal a b = (a.source_domain == b.source_domain) && (a.source_name == b.source_name)

abbrev aggregates_equal : AggregateStreamSpec → AggregateStreamSpec → Bool
aggregates_equal a b =
    slices_equal a.source_domains b.source_domains
    && (a.source_name == b.source_name)
    && (a.state == b.state)

abbrev pub main_equal : MainDomainSpec → MainDomainSpec → Bool
main_equal m n =
    maps_equal (λ v w. v == w) m.standard n.standard
    && maps_equal mirrors_equal m.mirror n.mirror
    && maps_equal aggregates_equal m.aggregate n.aggregate

unfoldable pub info_equal : NetworkInfoSpec → NetworkInfoSpec → Bool
info_equal a b =
    participating_equal a.participating b.participating
    && main_equal a.main_domain b.main_domain
    && (a.used_account == b.used_account)

-- `updateInfoAndReturn`: `r.Update` where the info has changed
unfoldable pub update_info_and_return :
    {W : Type 0} → Kube W → Network → Network → Exec W (Unit {0})
update_info_and_return kube network copy =
    if info_equal copy.info network.info
    then pure tt
    else do kube.update_network network.meta.namespace network; pure tt
