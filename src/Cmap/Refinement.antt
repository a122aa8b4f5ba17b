-- ===== src/Cmap/Refinement.antt =====
-- Every operation of worker/utils/map.go as one atomic step, against one map from keys to values.
use subnetwork_system_torchl.Prelude.{
  ◌≡◌, refl, Bool, true, false, List, [], ◌∷◌, Option, none, some, arith, if◌then◌else◌, is_some,
  ◌∙◌, ap, Bool-cases, inl, inr,
}
use mathlib.Core.Path.{fun_ext}
use subnetwork_system_torchl.Text.{Str, str_eq}
use subnetwork_system_torchl.Cmap.Defs.{
  ConcurrentMap, new_concurrent_map, store, upsert, set_if_absent, get, has, remove, pop,
}
use subnetwork_system_torchl.Cmap.Laws.{
  IsSharded, get-store, get-remove, store-IsSharded, remove-IsSharded, new_concurrent_map-IsSharded,
  get-new_concurrent_map,
}

module _ {ℓ} (V : Type ℓ) where
  -- The calls that goroutines make, in the order in which they get the lock.
  pub data Call : Type ℓ where
    sets : Str → V → Call
    upserts : Str → V → (Option V → V → V) → Call
    sets_if_absent : Str → V → Call
    gets removes pops asks : Str → Call

  pub data Reply : Type ℓ where
    nothing : Reply
    value : V → Reply
    found : Option V → Reply
    flag : Bool → Reply

module _ {ℓ} {V : Type ℓ} where
  unfoldable pub exec : ConcurrentMap V → Call V → ConcurrentMap V × Reply V
  exec m (sets k v) = (store m k v, nothing)
  exec m (upserts k v cb) = let (m', r) = upsert m k v cb in (m', value r)
  exec m (sets_if_absent k v) = let (m', b) = set_if_absent m k v in (m', flag b)
  exec m (gets k) = (m, found (get m k))
  exec m (removes k) = (remove m k, nothing)
  exec m (pops k) = let (m', v) = pop m k in (m', found v)
  exec m (asks k) = (m, flag (has m k))

  -- The specification: a function from keys to values, changed at one key.
  abbrev pub update : (Str → Option V) → Str → Option V → Str → Option V
  update f k v j = if str_eq k j then v else f j

  unfoldable pub spec : (Str → Option V) → Call V → (Str → Option V) × Reply V
  spec f (sets k v) = (update f k (some v), nothing)
  spec f (upserts k v cb) = (update f k (some (cb (f k) v)), value (cb (f k) v))
  spec f (sets_if_absent k v) =
      if is_some (f k) then (f, flag false) else (update f k (some v), flag true)
  spec f (gets k) = (f, found (f k))
  spec f (removes k) = (update f k none, nothing)
  spec f (pops k) = (update f k none, found (f k))
  spec f (asks k) = (f, flag (is_some (f k)))

  upsert-store :
      (m : ConcurrentMap V) (k : Str) (v : V) (cb : Option V → V → V)
      → upsert m k v cb ≡ (store m k (cb (get m k) v), cb (get m k) v)
  unfolding upsert store get
  upsert-store m k v cb = refl

  pub set_if_absent-store :
      (m : ConcurrentMap V) (k : Str) (v : V)
      → set_if_absent m k v ≡ (if is_some (get m k) then (m, false) else (store m k v, true))
  unfolding set_if_absent store get
  set_if_absent-store m k v = refl

  pop-remove : (m : ConcurrentMap V) (k : Str) → pop m k ≡ (remove m k, get m k)
  unfolding pop remove get
  pop-remove m k = refl

  has-get : (m : ConcurrentMap V) (k : Str) → has m k ≡ is_some (get m k)
  unfolding has get
  has-get m k = refl

  exec-IsSharded : (m : ConcurrentMap V) (c : Call V) → IsSharded m → IsSharded (exec m c).0
  unfolding exec
  exec-IsSharded m (sets k v) h = store-IsSharded m k v h
  exec-IsSharded m (upserts k v cb) h = rw (upsert-store m k v cb) (store-IsSharded m k _ h)
  exec-IsSharded m (sets_if_absent k v) h =
      ground (arith, set_if_absent-store m k v, store-IsSharded m k v h)
  exec-IsSharded m (gets k) h = h
  exec-IsSharded m (removes k) h = remove-IsSharded m k h
  exec-IsSharded m (pops k) h = rw (pop-remove m k) (remove-IsSharded m k h)
  exec-IsSharded m (asks k) h = h

  -- One call answers as the specification does and leaves the map that it describes.
  exec-spec :
      (m : ConcurrentMap V) (c : Call V)
      → IsSharded m
      → (get (exec m c).0 ≡ (spec (get m) c).0) × ((exec m c).1 ≡ (spec (get m) c).1)
  unfolding exec spec
  exec-spec m (sets k v) h = (fun_ext λ j. get-store m k j v h.shards, refl)
  exec-spec m (upserts k v cb) h =
      rw (upsert-store m k v cb) (fun_ext λ j. get-store m k j _ h.shards, refl)
  exec-spec m (sets_if_absent k v) h = elim (Bool-cases (is_some (get m k))) [
    | inl e ↦ rw (set_if_absent-store m k v, e) (refl, refl)
    | inr e ↦ rw (set_if_absent-store m k v, e) (fun_ext λ j. get-store m k j v h.shards, refl)
  ]
  exec-spec m (gets k) h = (refl, refl)
  exec-spec m (removes k) h = (fun_ext λ j. get-remove m k j h.shards, refl)
  exec-spec m (pops k) h = rw (pop-remove m k) (fun_ext λ j. get-remove m k j h.shards, refl)
  exec-spec m (asks k) h = (refl, ap flag (has-get m k))

  unfoldable pub run : ConcurrentMap V → List (Call V) → List (Reply V)
  run m [] = []
  run m (c ∷ cs) = let (m', r) = exec m c in r ∷ run m' cs

  unfoldable pub run_spec : (Str → Option V) → List (Call V) → List (Reply V)
  run_spec f [] = []
  run_spec f (c ∷ cs) = let (f', r) = spec f c in r ∷ run_spec f' cs

  run-refines_from :
      (m : ConcurrentMap V) (cs : List (Call V)) → IsSharded m → run m cs ≡ run_spec (get m) cs
  unfolding run run_spec
  run-refines_from m [] h = refl
  run-refines_from m (c ∷ cs) h =
      let (s, r) = exec-spec m c h in
      rw (r, run-refines_from (exec m c).0 cs (exec-IsSharded m c h), s) refl

-- Whatever the order in which the goroutines' calls get their locks, a map that starts empty gives
-- the replies of one function from keys to values that starts empty.
pub run-refines {ℓ} :
    {V : Type ℓ} (cs : List (Call V)) → run new_concurrent_map cs ≡ run_spec (λ k. none) cs
run-refines {V} cs =
    run-refines_from new_concurrent_map cs new_concurrent_map-IsSharded
    ∙ ap (λ (f : Str → Option V). run_spec f cs) (fun_ext get-new_concurrent_map)
