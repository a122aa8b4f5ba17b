-- ===== src/Cmap/Laws.antt =====
-- The sharded map refines one map from keys to values.
use subnetwork_system_torchl.Prelude.{
  ℕ, zero, suc, ◌+◌, ◌<◌, ◌≡◌, refl, true, [], ◌∷◌, none, some, arith, ◌==◌, ==_iff, if◌then◌else◌,
  length, get_or, set, replicate, is_some, All, get_or-set_self, get_or-set_ne, length-set, inl,
  inr, Bool-cases, length-replicate, get_or-replicate, ◌∙◌,
}
use subnetwork_system_torchl.Text.{Str, str_eq, str_eq_iff}
use subnetwork_system_torchl.Dict.{
  Dict, lookup, insert, delete, lookup-insert, lookup-delete, Distinct, has_key, length-insert,
  length-delete, insert-Distinct, delete-Distinct, has_key-insert, has_key-delete,
}
use subnetwork_system_torchl.Cmap.Defs.{
  ConcurrentMap, shard_count, shard_index, new_concurrent_map, get_shard, put_shard, store, get,
  count, remove,
}

shard_index-lt : (key : Str) → shard_index key < shard_count
unfolding shard_index
shard_index-lt key = omega arith

All-replicate {ℓ} : (A : Type ℓ) (n : ℕ) → All (Distinct {V = A}) (replicate n [])
All-replicate A zero = tt
All-replicate A (suc n) = (tt, All-replicate A n)

-- The empty map has no key.
absurd_key {ℓ κ} : (V : Type ℓ) {P : Type κ} (k : Str) → has_key {V = V} k [] ≡ true → P
unfolding has_key
absurd_key V k q = cc

-- Every key of the shard number `base` and of those after it stands in its own shard.
abbrev pub Placed {ℓ} : {V : Type ℓ} → ℕ → ConcurrentMap V → Type 0
Placed base [] = Unit {0}
Placed base (s ∷ m) = ((k : Str) → has_key k s ≡ true → shard_index k ≡ base) × Placed (suc base) m

Placed-replicate {ℓ} : (V : Type ℓ) (base n : ℕ) → Placed {V = V} base (replicate n [])
Placed-replicate V base zero = tt
Placed-replicate V base (suc n) = (λ k q. absurd_key V k q, Placed-replicate V (suc base) n)

module _ {ℓ} {V : Type ℓ} where
  -- All shards are there, no shard holds a key twice, and each key is in the shard of its hash.
  pub record IsSharded (m : ConcurrentMap V) : Type 0 where
    pub shards : length m ≡ shard_count
    pub distinct : All Distinct m
    pub placed : Placed 0 m

  get_shard-put_shard :
      (m : ConcurrentMap V) (k j : Str) (s : Dict V)
      → length m ≡ shard_count
      → get_shard (put_shard m k s) j
        ≡ (if shard_index k == shard_index j then s else get_shard m j)
  unfolding get_shard put_shard
  get_shard-put_shard m k j s e = elim (Bool-cases (shard_index k == shard_index j)) [
    | inl q ↦
        rw (q, (==_iff _ _).0 q)
          (get_or-set_self m (shard_index j) s [] (omega (arith, shard_index-lt j)))
    | inr q ↦ rw q (get_or-set_ne m (shard_index k) (shard_index j) s [] (λ p. ground (arith, p)))
  ]

  pub get-store :
      (m : ConcurrentMap V) (k j : Str) (v : V)
      → length m ≡ shard_count
      → get (store m k v) j ≡ (if str_eq k j then some v else get m j)
  unfolding get store
  get-store m k j v e = ground (
    arith,
    get_shard-put_shard m k j (insert k v (get_shard m k)) e,
    lookup-insert k j v (get_shard m k),
    str_eq_iff k j,
  )

  pub get-remove :
      (m : ConcurrentMap V) (k j : Str)
      → length m ≡ shard_count
      → get (remove m k) j ≡ (if str_eq k j then none else get m j)
  unfolding get remove
  get-remove m k j e = ground (
    arith,
    get_shard-put_shard m k j (delete k (get_shard m k)) e,
    lookup-delete k j (get_shard m k),
    str_eq_iff k j,
  )

  pub length-store : (m : ConcurrentMap V) (k : Str) (v : V) → length (store m k v) ≡ length m
  unfolding store put_shard
  length-store m k v = length-set m (shard_index k) _

  pub length-remove : (m : ConcurrentMap V) (k : Str) → length (remove m k) ≡ length m
  unfolding remove put_shard
  length-remove m k = length-set m (shard_index k) _

  -- Writing one well-formed shard back keeps the whole map well formed.
  All-set :
      (m : ConcurrentMap V) (i : ℕ) (s : Dict V)
      → All Distinct m
      → Distinct s
      → All Distinct (set m i s)
  All-set [] i s h d = tt
  All-set (t ∷ m) zero s h d = (d, h.1)
  All-set (t ∷ m) (suc i) s h d = (h.0, All-set m i s h.1 d)

  All-get_or : (m : ConcurrentMap V) (i : ℕ) → All Distinct m → Distinct (get_or m i [])
  All-get_or [] i h = tt
  All-get_or (t ∷ m) zero h = h.0
  All-get_or (t ∷ m) (suc i) h = All-get_or m i h.1

  Placed-set :
      (base i : ℕ) (m : ConcurrentMap V) (s : Dict V)
      → Placed base m
      → ((j : Str) → has_key j s ≡ true → shard_index j ≡ base + i)
      → Placed base (set m i s)
  Placed-set base i [] s h p = tt
  Placed-set base zero (t ∷ m) s h p = (λ j q. omega (arith, p j q), h.1)
  Placed-set base (suc i) (t ∷ m) s h p =
      (h.0, Placed-set (suc base) i m s h.1 (λ j q. omega (arith, p j q)))

  Placed-get_or :
      (base i : ℕ) (m : ConcurrentMap V)
      → Placed base m
      → (j : Str) → has_key j (get_or m i []) ≡ true
      → shard_index j ≡ base + i
  Placed-get_or base i [] h j q = absurd_key V j q
  Placed-get_or base zero (t ∷ m) h j q = omega (arith, h.0 j q)
  Placed-get_or base (suc i) (t ∷ m) h j q = omega (arith, Placed-get_or (suc base) i m h.1 j q)

  put_shard-IsSharded :
      (m : ConcurrentMap V) (k : Str) (s : Dict V)
      → IsSharded m
      → Distinct s
      → ((j : Str) → has_key j s ≡ true → shard_index j ≡ shard_index k)
      → IsSharded (put_shard m k s)
  unfolding put_shard
  put_shard-IsSharded m k s h d p = record {
    shards = length-set m (shard_index k) s ∙ h.shards;
    distinct = All-set m (shard_index k) s h.distinct d;
    placed = Placed-set 0 (shard_index k) m s h.placed (λ j q. omega (arith, p j q));
  }

  get_shard-Placed :
      (m : ConcurrentMap V) (k : Str)
      → IsSharded m
      → (j : Str) → has_key j (get_shard m k) ≡ true
      → shard_index j ≡ shard_index k
  unfolding get_shard
  get_shard-Placed m k h j q = omega (arith, Placed-get_or 0 (shard_index k) m h.placed j q)

  insert-Placed :
      (i : ℕ) (k j : Str) (v : V) (s : Dict V)
      → shard_index k ≡ i
      → (has_key j s ≡ true → shard_index j ≡ i)
      → has_key j (insert k v s) ≡ true
      → shard_index j ≡ i
  insert-Placed i k j v s e p q = ground (arith, has_key-insert k j v s, str_eq_iff k j)

  delete-Placed :
      (i : ℕ) (k j : Str) (s : Dict V)
      → (has_key j s ≡ true → shard_index j ≡ i)
      → has_key j (delete k s) ≡ true
      → shard_index j ≡ i
  delete-Placed i k j s p q = ground (arith, has_key-delete k j s)

  get_shard-Distinct : (m : ConcurrentMap V) (k : Str) → IsSharded m → Distinct (get_shard m k)
  unfolding get_shard
  get_shard-Distinct m k h = All-get_or m (shard_index k) h.distinct

  pub store-IsSharded :
      (m : ConcurrentMap V) (k : Str) (v : V) → IsSharded m → IsSharded (store m k v)
  unfolding store
  store-IsSharded m k v h =
      put_shard-IsSharded m k _ h (insert-Distinct k v _ (get_shard-Distinct m k h))
        (λ j. insert-Placed _ k j v _ refl (get_shard-Placed m k h j))

  pub remove-IsSharded : (m : ConcurrentMap V) (k : Str) → IsSharded m → IsSharded (remove m k)
  unfolding remove
  remove-IsSharded m k h =
      put_shard-IsSharded m k _ h (delete-Distinct k _ (get_shard-Distinct m k h))
        (λ j. delete-Placed _ k j _ (get_shard-Placed m k h j))

  pub new_concurrent_map-IsSharded : IsSharded (new_concurrent_map {V = V})
  unfolding new_concurrent_map
  new_concurrent_map-IsSharded = record {
    shards = length-replicate {A = Dict V} shard_count [];
    distinct = All-replicate V shard_count;
    placed = Placed-replicate V 0 shard_count;
  }

  pub get-new_concurrent_map : (k : Str) → get (new_concurrent_map {V = V}) k ≡ none
  unfolding get get_shard new_concurrent_map lookup
  get-new_concurrent_map k = rw (get_or-replicate {A = Dict V} shard_count (shard_index k) []) refl

  count-set :
      (m : ConcurrentMap V) (i : ℕ) (s : Dict V)
      → i < length m
      → count (set m i s) + length (get_or m i []) ≡ count m + length s
  unfolding count
  count-set [] i s h = elim h [ ]
  count-set (t ∷ m) zero s h = omega arith
  count-set (t ∷ m) (suc i) s h = omega (arith, count-set m i s (omega arith))

  count-put_shard :
      (m : ConcurrentMap V) (k : Str) (s : Dict V)
      → length m ≡ shard_count
      → count (put_shard m k s) + length (get_shard m k) ≡ count m + length s
  unfolding put_shard get_shard
  count-put_shard m k s e = count-set m (shard_index k) s (omega (arith, shard_index-lt k))

  pub count-store :
      (m : ConcurrentMap V) (k : Str) (v : V)
      → length m ≡ shard_count
      → count (store m k v) ≡ (if is_some (get m k) then count m else suc (count m))
  unfolding store get
  count-store m k v e =
      ground (
        arith,
        count-put_shard m k (insert k v (get_shard m k)) e,
        length-insert k v (get_shard m k),
      )

  pub count-remove :
      (m : ConcurrentMap V) (k : Str)
      → IsSharded m
      → count m ≡ (if is_some (get m k) then suc (count (remove m k)) else count (remove m k))
  unfolding remove get
  count-remove m k h = ground (
    arith,
    count-put_shard m k (delete k (get_shard m k)) h.shards,
    length-delete k (get_shard m k) (get_shard-Distinct m k h),
  )
