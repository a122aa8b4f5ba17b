-- ===== src/Cmap/Defs.antt =====
-- The operations of worker/utils/map.go.
use subnetwork_system_torchl.Prelude.{
  ℕ, ◌+◌, ◌*◌, ◌%◌, ◌^◌, Bool, true, false, List, [], ◌∷◌, Option, ◌==◌, if◌then◌else◌, length,
  get_or, set, replicate, is_some, bit_xor,
}
use subnetwork_system_torchl.Text.{Str}
use subnetwork_system_torchl.Dict.{Dict, lookup, insert, delete}

abbrev pub shard_count : ℕ
shard_count = 32

abbrev pub prime32 : ℕ
prime32 = 16777619

-- for i := 0; i < len(key); i++ { hash *= prime32; hash ^= uint32(key[i]) }
unfoldable pub fnv32_from : ℕ → Str → ℕ
fnv32_from hash [] = hash
fnv32_from hash (c ∷ key) = fnv32_from (bit_xor (hash * prime32 % 2 ^ 32) c) key

unfoldable pub fnv32 : Str → ℕ
unfolding fnv32_from
fnv32 key = fnv32_from 2166136261 key

abbrev pub ConcurrentMap {ℓ} : Type ℓ → Type ℓ
ConcurrentMap V = List (Dict V)

unfoldable pub shard_index : Str → ℕ
unfolding fnv32
shard_index key = fnv32 key % shard_count

module _ {ℓ} {V : Type ℓ} where
  unfoldable pub new_concurrent_map : ConcurrentMap V
  new_concurrent_map = replicate shard_count []

  unfoldable pub get_shard : ConcurrentMap V → Str → Dict V
  get_shard m key = get_or m (shard_index key) []

  -- Writes the shard of `key` back.
  unfoldable pub put_shard : ConcurrentMap V → Str → Dict V → ConcurrentMap V
  put_shard m key shard = set m (shard_index key) shard

  unfoldable pub store : ConcurrentMap V → Str → V → ConcurrentMap V
  unfolding get_shard put_shard
  store m key value = put_shard m key (insert key value (get_shard m key))

  unfoldable pub m_set : ConcurrentMap V → Dict V → ConcurrentMap V
  unfolding store
  m_set m [] = m
  m_set m ((key, value) ∷ entries) = m_set (store m key value) entries

  -- The callback gets whether the key is there and, if so, its value.
  unfoldable pub upsert : ConcurrentMap V → Str → V → (Option V → V → V) → ConcurrentMap V × V
  unfolding get_shard put_shard
  upsert m key value cb =
      let shard = get_shard m key in
      let res = cb (lookup key shard) value in (put_shard m key (insert key res shard), res)

  unfoldable pub set_if_absent : ConcurrentMap V → Str → V → ConcurrentMap V × Bool
  unfolding get_shard put_shard
  set_if_absent m key value =
      let shard = get_shard m key in
      if is_some (lookup key shard)
      then (m, false)
      else (put_shard m key (insert key value shard), true)

  unfoldable pub get : ConcurrentMap V → Str → Option V
  unfolding get_shard
  get m key = lookup key (get_shard m key)

  unfoldable pub count : ConcurrentMap V → ℕ
  count [] = 0
  count (shard ∷ m) = length shard + count m

  unfoldable pub has : ConcurrentMap V → Str → Bool
  unfolding get_shard
  has m key = is_some (lookup key (get_shard m key))

  unfoldable pub remove : ConcurrentMap V → Str → ConcurrentMap V
  unfolding get_shard put_shard
  remove m key = put_shard m key (delete key (get_shard m key))

  unfoldable pub pop : ConcurrentMap V → Str → ConcurrentMap V × Option V
  unfolding get_shard put_shard
  pop m key = let shard = get_shard m key in (put_shard m key (delete key shard), lookup key shard)

  unfoldable pub is_empty : ConcurrentMap V → Bool
  unfolding count
  is_empty m = count m == 0
