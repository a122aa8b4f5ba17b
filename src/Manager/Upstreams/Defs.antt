-- ===== src/Manager/Upstreams/Defs.antt =====
-- The operations of UpstreamManager.
use subnetwork_system_torchl.Prelude.{
  ℕ, ◌+◌, ◌-◌, ◌%◌, ◌^◌, Bool, List, [], ◌∷◌, ◌++◌, map, Option, none, ltb, length, get_elem?,
}
use subnetwork_system_torchl.Text.{Str, itoa}
use subnetwork_system_torchl.Manager.Models.{Uuid, Pool, Upstream}
use subnetwork_system_torchl.Prelude.{ℤ}

pub record UpstreamManager : Type 0 where
  pub upstreams : List Upstream
  pub index : ℕ

unfoldable pub new_pool : Uuid → Str → ℤ → Str → Pool
new_pool pool_id pool_tag pool_port pool_subdomain = record {
  pool_id = pool_id;
  pool_tag = pool_tag;
  region = [];
  pool_port = pool_port;
  pool_subdomain = pool_subdomain;
}

unfoldable pub new_upstream_manager : UpstreamManager
new_upstream_manager = record { upstreams = []; index = 0 }

unfoldable pub set_upstreams : UpstreamManager → List Upstream → UpstreamManager
set_upstreams m upstreams = record m { upstreams = upstreams }

-- idx := AddUint64(&index, 1) - 1; upstreams[idx % len(upstreams)], on a list that is not empty.
unfoldable pub pick : List Upstream → ℕ → Option Upstream
pick [] index = none
pick (u ∷ us) index =
    get_elem? (u ∷ us) (((index + 1) % 2 ^ 64 + 2 ^ 64 - 1) % 2 ^ 64 % length (u ∷ us))

abbrev pub advance : List Upstream → ℕ → ℕ
advance [] index = index
advance (u ∷ us) index = (index + 1) % 2 ^ 64

-- Next; none is the nil pointer.
unfoldable pub next : UpstreamManager → UpstreamManager × Option Upstream
unfolding pick
next m = (record m { index = advance m.upstreams m.index }, pick m.upstreams m.index)

unfoldable pub has_upstreams : UpstreamManager → Bool
has_upstreams m = ltb 0 (length m.upstreams)

unfoldable pub get_address : Upstream → Str
get_address u = u.upstream_host ++ b':' ∷ itoa u.upstream_port

unfoldable pub get_upstream_address : UpstreamManager → List Str
unfolding get_address
get_upstream_address m = map get_address m.upstreams
