-- ===== src/Manager/Users/Pools.antt =====
-- The pools of Captain's answer: "tag:limit:usage" texts.
use subnetwork_system_torchl.Prelude.{
  ◌≤◌, ◌<◌, ◌^◌, ◌≡◌, refl, List, [], ◌∷◌, ◌++◌, some, pos_part, neg_part, All, map,
}
use subnetwork_system_torchl.Text.{Str, split-append, split-Free, Free, itoa, atoi-itoa, itoa-Free}
use subnetwork_system_torchl.Manager.Models.{PoolLimit}
use subnetwork_system_torchl.Manager.Users.Defs.{parse_pool, parse_pools}

-- The text that stands for a pool in Captain's answer.
pub print_pool : PoolLimit → Str
print_pool p = p.tag ++ b':' ∷ (itoa p.data_limit ++ b':' ∷ itoa p.data_usage)

-- A tag without a colon, and numbers of 64 bits.
pub record IsPrintable (p : PoolLimit) : Type 0 where
  pub tag : Free b':' p.tag
  pub limit_hi : pos_part p.data_limit < 2 ^ 63
  pub limit_lo : neg_part p.data_limit ≤ 2 ^ 63
  pub usage_hi : pos_part p.data_usage < 2 ^ 63
  pub usage_lo : neg_part p.data_usage ≤ 2 ^ 63

-- One pool.
pub parse_pool-print_pool : (p : PoolLimit) → IsPrintable p → parse_pool (print_pool p) ≡ some p
unfolding parse_pool print_pool
parse_pool-print_pool p h = rw (
  split-append b':' p.tag _ h.tag,
  split-append b':' (itoa p.data_limit) _ (itoa-Free p.data_limit),
  split-Free b':' (itoa p.data_usage) (itoa-Free p.data_usage),
  atoi-itoa p.data_limit h.limit_hi h.limit_lo,
  atoi-itoa p.data_usage h.usage_hi h.usage_lo,
)

-- The worker reads Captain's whole list of pools back: each printed pool, in order, none dropped.
pub parse_pools-map :
    (ps : List PoolLimit) → All IsPrintable ps → parse_pools (map print_pool ps) ≡ ps
unfolding parse_pools
parse_pools-map [] h = refl
parse_pools-map (p ∷ ps) h = rw (parse_pool-print_pool p h.0, parse_pools-map ps h.1)
