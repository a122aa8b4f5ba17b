-- ===== src/Cmap/Iter.antt =====
-- The iterators of worker/utils/map.go: `snapshot`, `fanIn`, `IterBuffered`, `Items`, `Keys`,
-- `IterCb`. A shard's goroutine sends its entries in their order; `fanIn` merges the channels in
-- any interleaving, which is a derivation here.
use subnetwork_system_torchl.Prelude.{
  ℕ, zero, suc, ◌+◌, ◌≤◌, ◌≡◌, refl, true, false, List, [], ◌∷◌, ◌++◌, Option, some, arith,
  if◌then◌else◌, length, All, ◌∙◌, sym, ap, length-append, append_assoc, get_or, subst,
}
use subnetwork_system_torchl.Text.{Str, str_eq, str_eq_iff}
use subnetwork_system_torchl.Dict.{
  Dict, lookup, insert, lookup-insert, Distinct, has_key, has_key-append, Distinct-middle,
  lookup-append, lookup-has_key,
}
use subnetwork_system_torchl.Cmap.Defs.{ConcurrentMap, shard_index, get_shard, get, count}
use subnetwork_system_torchl.Cmap.Laws.{IsSharded, Placed}

module _ {ℓ} {V : Type ℓ} where
  -- The channels, each with the entries that its goroutine sends.
  unfoldable pub snapshot : ConcurrentMap V → List (Dict V)
  snapshot m = m

  -- `FanIn chans out`: `fanIn` may deliver `out` from the channels `chans`.
  pub data FanIn : List (Dict V) → Dict V → Type ℓ where
    closed : {chans : List (Dict V)} → All (λ c. c ≡ []) chans → FanIn chans []
    receive :
        {chans : List (Dict V)} {out : Dict V} (before after : List (Dict V)) (key : Str) (val : V)
        (rest : Dict V)
        → chans ≡ before ++ ((key, val) ∷ rest) ∷ after
        → FanIn (before ++ rest ∷ after) out
        → FanIn chans ((key, val) ∷ out)

  -- for item := range ... { tmp[item.Key] = item.Val }
  unfoldable pub collect : Dict V → Dict V → Dict V
  collect tmp [] = tmp
  collect tmp ((key, val) ∷ out) = collect (insert key val tmp) out

  -- Items, on what the iterator delivered.
  unfoldable pub items : Dict V → Dict V
  unfolding collect
  items out = collect [] out

  -- Keys appends what its goroutines send.
  unfoldable pub keys : Dict V → List Str
  keys [] = []
  keys ((key, val) ∷ out) = key ∷ keys out

  abbrev pub flatten : List (Dict V) → Dict V
  flatten [] = []
  flatten (c ∷ cs) = c ++ flatten cs

  flatten-middle :
      (before after : List (Dict V)) (c : Dict V)
      → flatten (before ++ c ∷ after) ≡ flatten before ++ (c ++ flatten after)
  flatten-middle [] after c = refl
  flatten-middle (b ∷ before) after c =
      ap (λ (m : Dict V). b ++ m) (flatten-middle before after c) ∙ sym (append_assoc b _ _)

  flatten-closed : (chans : List (Dict V)) → All (λ c. c ≡ []) chans → flatten chans ≡ []
  flatten-closed [] h = refl
  flatten-closed (c ∷ chans) h = rw (h.0, flatten-closed chans h.1) refl

  -- The first entry of one channel, among all the others.
  lookup-middle :
      (k key : Str) (val : V) (a r : Dict V) (x : Option V)
      → Distinct (a ++ (key, val) ∷ r)
      → (if has_key k (a ++ (key, val) ∷ r) then lookup k (a ++ (key, val) ∷ r) else x)
        ≡ (if has_key k (a ++ r) then lookup k (a ++ r) else (if str_eq key k then some val else x))
  unfolding lookup has_key
  lookup-middle k key val a r x d = ground (
    arith,
    lookup-append k a ((key, val) ∷ r),
    lookup-append k a r,
    has_key-append k a ((key, val) ∷ r),
    has_key-append k a r,
    has_key-append key a r,
    Distinct-middle a r key val d,
    str_eq_iff key k,
  )

  -- Whatever the interleaving, collecting adds the entries of the channels to `tmp`.
  lookup-collect :
      (k : Str) (chans : List (Dict V)) (out tmp : Dict V)
      → FanIn chans out
      → Distinct (flatten chans)
      → lookup k (collect tmp out)
        ≡ (if has_key k (flatten chans) then lookup k (flatten chans) else lookup k tmp)
  unfolding collect
  lookup-collect k chans out tmp (closed h) d = rw (flatten-closed chans h) (unfold has_key in refl)
  lookup-collect k chans out tmp (receive {out = out'} before after key val rest e f) d =
      let whole = ap flatten e ∙ flatten-middle before after ((key, val) ∷ rest) in
      let d' = subst (Distinct {V = V}) whole d in
      let less = flatten-middle before after rest in
      let tail = (Distinct-middle (flatten before) (rest ++ flatten after) key val d').0 in
      let ih =
        lookup-collect k (before ++ rest ∷ after) out' (insert key val tmp) f
          (subst (Distinct {V = V}) (sym less) tail) in
      rw whole (
        ih
        ∙ rw (less, lookup-insert)
            (sym (lookup-middle k key val (flatten before) (rest ++ flatten after) _ d')))

module _ {ℓ} {V : Type ℓ} where
  Distinct-append :
      (m n : Dict V)
      → Distinct m
      → Distinct n
      → ((k : Str) → has_key k m ≡ true → has_key k n ≡ false)
      → Distinct (m ++ n)
  unfolding has_key
  Distinct-append [] n d e apart = e
  Distinct-append ((j, w) ∷ m) n d e apart = (
    ground (arith, has_key-append j m n, apart j, str_eq_iff j j),
    Distinct-append m n d.1 e (λ k q. apart k (ground arith)),
  )

  has_key-flatten :
      (base : ℕ) (m : ConcurrentMap V) (k : Str)
      → Placed base m
      → has_key k (flatten m) ≡ true
      → base ≤ shard_index k
  has_key-flatten base [] k p q = unfold has_key in cc
  has_key-flatten base (s ∷ m) k p q =
      ground (arith, has_key-append k s (flatten m), p.0 k, has_key-flatten (suc base) m k p.1)

  later-absent :
      (base : ℕ) (m : ConcurrentMap V) (k : Str)
      → Placed (suc base) m
      → shard_index k ≡ base
      → has_key k (flatten m) ≡ false
  later-absent base m k p e = ground (arith, has_key-flatten (suc base) m k p)

  Distinct-flatten :
      (base : ℕ) (m : ConcurrentMap V) → Placed base m → All Distinct m → Distinct (flatten m)
  Distinct-flatten base [] p d = tt
  Distinct-flatten base (s ∷ m) p d =
      Distinct-append s (flatten m) d.0 (Distinct-flatten (suc base) m p.1 d.1)
        (λ k q. later-absent base m k p.1 (p.0 k q))

  lookup-flatten :
      (base i : ℕ) (m : ConcurrentMap V) (k : Str)
      → Placed base m
      → shard_index k ≡ base + i
      → lookup k (flatten m) ≡ lookup k (get_or m i [])
  lookup-flatten base i [] k p e = refl
  lookup-flatten base zero (s ∷ m) k p e = ground (
    arith,
    lookup-append k s (flatten m),
    lookup-has_key k s,
    lookup-has_key k (flatten m),
    later-absent base m k p.1,
  )
  lookup-flatten base (suc i) (s ∷ m) k p e =
      ground (arith, lookup-append k s (flatten m), p.0 k, lookup-flatten (suc base) i m k p.1)

  -- However `fanIn` interleaves the shards, the map that Items returns has at every key what Get
  -- returns there.
  pub items-get :
      (m : ConcurrentMap V) (out : Dict V) (k : Str)
      → IsSharded m
      → FanIn (snapshot m) out
      → lookup k (items out) ≡ get m k
  unfolding snapshot items get get_shard lookup
  items-get m out k h f = ground (
    arith,
    lookup-collect k m out [] f (Distinct-flatten 0 m h.placed h.distinct),
    lookup-flatten 0 (shard_index k) m k h.placed (omega arith),
    lookup-has_key k (flatten m),
  )

  length-flatten : (m : ConcurrentMap V) → length (flatten m) ≡ count m
  unfolding count
  length-flatten [] = refl
  length-flatten (s ∷ m) = omega (arith, length-append s (flatten m), length-flatten m)

  length-FanIn :
      (chans : List (Dict V)) (out : Dict V) → FanIn chans out → length out ≡ length (flatten chans)
  length-FanIn chans out (closed h) = rw (flatten-closed chans h) refl
  length-FanIn chans out (receive {out = out'} before after key val rest e f) = omega (
    arith,
    ap length (ap flatten e ∙ flatten-middle before after ((key, val) ∷ rest)),
    ap length (flatten-middle before after rest),
    length-append (flatten before) (((key, val) ∷ rest) ++ flatten after),
    length-append (flatten before) (rest ++ flatten after),
    length-FanIn (before ++ rest ∷ after) out' f,
  )

  length-keys : (out : Dict V) → length (keys out) ≡ length out
  unfolding keys
  length-keys [] = refl
  length-keys ((key, val) ∷ out) = ap suc (length-keys out)

  -- Keys returns as many keys as Count reports, however the shards' goroutines interleave.
  pub length-keys-count :
      (m : ConcurrentMap V) (out : Dict V) → FanIn (snapshot m) out → length (keys out) ≡ count m
  unfolding snapshot
  length-keys-count m out f = length-keys out ∙ length-FanIn m out f ∙ length-flatten m
