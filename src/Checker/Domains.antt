-- ===== src/Checker/Domains.antt =====
-- Which domains of a list a host belongs to.
use subnetwork_system_torchl.Prelude.{Bool, true, false, ◌||◌, List, [], ◌∷◌, ◌++◌}
use subnetwork_system_torchl.Text.{Str, join}
use subnetwork_system_torchl.Cmap
use subnetwork_system_torchl.Cmap.{ConcurrentMap}
use subnetwork_system_torchl.Checker.Defs.{Checker}

-- One of the domains of at least two parts that end as the host does is in the map.
unfoldable pub has_suffix_in : ConcurrentMap Bool → List Str → Bool
has_suffix_in m [] = false
has_suffix_in m (p ∷ []) = false
has_suffix_in m (p ∷ q ∷ ps) = Cmap.has m (join b'.' (p ∷ q ∷ ps)) || has_suffix_in m (q ∷ ps)

-- The domain that `walk` has built up when it has gone through `parts`, which are in reverse order.
built : List Str → Str → Str
built [] domain = domain
built (p ∷ ps) domain = built ps (p ++ b'.' ∷ domain)

abbrev build : List Str → Str
build [] = []
build (top ∷ ps) = built ps top

abbrev is_empty : List Str → Bool
is_empty [] = true
is_empty (p ∷ ps) = false
