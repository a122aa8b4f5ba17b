-- ===== src/Manager/Upstreams/Rotation.antt =====
-- What round robin gives: after `i` calls the next one takes the upstream `index + i` modulo their number.
use subnetwork_system_torchl.Prelude.{
  ℕ, zero, suc, ◌+◌, ◌-◌, ◌%◌, ◌^◌, ◌≤◌, ◌<◌, ◌≡◌, refl, List, [], ◌∷◌, ◌++◌, map, Option, none,
  some, ltb, length, get_elem?, take, drop, arith, subst, length-drop, take-append-drop, ap, ◌∙◌,
  sym, ◌↔◌, false, Bool-cases, inl, inr, ltb→lt,
}
use Prim.Native.Nat.add
use mathlib.Core.List.{Perm, perm_append_comm, map-append}
use mathlib.Core.Path.{ap₂}
use native.Mathlib.Nat.{mod-lt, mod-add-mod, mod_self, mod-mod, mod-eq_of_lt}
use subnetwork_system_torchl.Manager.Models.{Upstream}
use subnetwork_system_torchl.Manager.Upstreams.Defs.{
  UpstreamManager, next, has_upstreams, pick, advance,
}

-- The answers of `n` calls of Next, one after the other.
pub next_n : ℕ → UpstreamManager → List (Option Upstream)
next_n zero m = []
next_n (suc n) m = let (m', u) = next m in u ∷ next_n n m'

-- The entries `i`, `i + 1`, … of a list, for the numbers below its length.
abbrev from_index : ℕ → ℕ → List Upstream → List (Option Upstream)
from_index zero i us = []
from_index (suc n) i us = get_elem? us (i % length us) ∷ from_index n (suc i) us

get_elem?-some :
    (us : List Upstream) (i : ℕ) → i < length us → (u : Upstream) × (get_elem? us i ≡ some u)
get_elem?-some [] i h = elim h [ ]
get_elem?-some (u ∷ us) zero h = (u, refl)
get_elem?-some (u ∷ us) (suc i) h = get_elem?-some us i (omega arith)

-- Next takes the entry that the index names; the atomic addition and the subtraction cancel.
pick-lem : (us : List Upstream) (i : ℕ) → i < 2 ^ 64 → pick us i ≡ get_elem? us (i % length us)
unfolding pick
pick-lem [] i h = refl
pick-lem (u ∷ us) i h = let e : ((i + 1) % 2 ^ 64 + 2 ^ 64 - 1) % 2 ^ 64 ≡ i = omega arith in rw e

pick-some : (us : List Upstream) (i : ℕ) → 0 < length us → (u : Upstream) × (pick us i ≡ some u)
unfolding pick
pick-some [] i h = elim h [ ]
pick-some (u ∷ us) i h = get_elem?-some (u ∷ us) _ (mod-lt _ h)

advance-lem : (us : List Upstream) (i : ℕ) → 0 < length us → i + 1 < 2 ^ 64 → advance us i ≡ suc i
advance-lem [] i p h = elim p [ ]
advance-lem (u ∷ us) i p h = omega arith

suc-mod : (i j k : ℕ) → i % k ≡ j % k → suc i % k ≡ suc j % k
suc-mod i j k e =
    plus i
    ∙ sym (mod-add-mod i k 1)
    ∙ ap (λ (x : ℕ). (x + 1) % k) e
    ∙ mod-add-mod j k 1
    ∙ sym (plus j)
  where
    plus : (n : ℕ) → suc n % k ≡ (n + 1) % k
    plus n = ap (λ (x : ℕ). x % k) (omega arith)

-- Next answers nil exactly when HasUpstreams says no.
pub next-eq-none_iff : (m : UpstreamManager) → ((next m).1 ≡ none) ↔ (has_upstreams m ≡ false)
unfolding next has_upstreams
next-eq-none_iff m = elim (Bool-cases (ltb 0 (length m.upstreams))) [
  | inl e ↦ let (u, q) = pick-some m.upstreams m.index (ltb→lt _ _ e) in (λ h. cc, λ h. cc)
  | inr e ↦ (λ h. e, λ h. none_of m.upstreams m.index e)
]
  where
    none_of : (us : List Upstream) (i : ℕ) → ltb 0 (length us) ≡ false → pick us i ≡ none
    none_of [] i e = unfold pick in refl
    none_of (u ∷ us) i e = ground arith

-- Without an overflow of the index, calls in a row walk the list round.
next_n-from_index :
    (n : ℕ) (m : UpstreamManager)
    → 0 < length m.upstreams
    → m.index + n ≤ 2 ^ 64
    → next_n n m ≡ from_index n m.index m.upstreams
unfolding next_n next
next_n-from_index zero m p h = refl
next_n-from_index (suc zero) m p h = rw (pick-lem m.upstreams m.index (omega arith)) refl
next_n-from_index (suc (suc n)) m p h =
    let e : advance m.upstreams m.index ≡ suc m.index =
      advance-lem m.upstreams m.index p (omega arith) in
    rw (pick-lem m.upstreams m.index (omega arith)) (
      ap (◌∷◌ (get_elem? m.upstreams (m.index % length m.upstreams))) (
        next_n-from_index (suc n) (next m).0 p (omega (arith, e))
        ∙ ap (λ (i : ℕ). from_index (suc n) i m.upstreams) e))

from_index-mod :
    (n i j : ℕ) (us : List Upstream)
    → i % length us ≡ j % length us
    → from_index n i us ≡ from_index n j us
from_index-mod zero i j us e = refl
from_index-mod (suc n) i j us e =
    rw (e, from_index-mod n (suc i) (suc j) us (suc-mod i j (length us) e)) refl

from_index-add :
    (a b i : ℕ) (us : List Upstream)
    → from_index (a + b) i us ≡ from_index a i us ++ from_index b (i + a) us
from_index-add zero b i us = let e : i + 0 ≡ i = omega arith in rw (e, add.zero b) refl
from_index-add (suc a) b i us =
    let e : suc i + a ≡ i + suc a = omega arith in
    rw (add.suc a b) (
      ap (◌∷◌ (get_elem? us (i % length us))) (
        from_index-add a b (suc i) us
        ∙ ap (λ (j : ℕ). from_index a (suc i) us ++ from_index b j us) e))

drop-cons :
    (us : List Upstream) (i : ℕ)
    → i < length us
    → (u : Upstream) × (get_elem? us i ≡ some u) × (drop i us ≡ u ∷ drop (suc i) us)
drop-cons [] i h = elim h [ ]
drop-cons (u ∷ us) zero h = (u, refl, refl)
drop-cons (u ∷ us) (suc i) h = drop-cons us i (omega arith)

-- A stretch that stays below the end of the list is a slice of it.
from_index-slice :
    (n i : ℕ) (us : List Upstream)
    → i + n ≤ length us
    → from_index n i us ≡ map some (take n (drop i us))
from_index-slice zero i us h = refl
from_index-slice (suc n) i us h =
    let (u, g, d) = drop-cons us i (omega arith) in
    rw
      (
        d,
        mod-eq_of_lt {n = i} {m = length us} (omega arith),
        g,
        from_index-slice n (suc i) us (omega arith),
      )
      refl

take-all : (n : ℕ) (us : List Upstream) → length us ≤ n → take n us ≡ us
take-all zero [] h = refl
take-all zero (u ∷ us) h = elim h [ ]
take-all (suc n) [] h = refl
take-all (suc n) (u ∷ us) h = ap (◌∷◌ u) (take-all n us (omega arith))

-- One round from the place `r`: the end of the list, then its beginning.
round :
    (r : ℕ) (us : List Upstream)
    → r < length us
    → from_index (length us) r us ≡ map some (drop r us) ++ map some (take r us)
round r us h =
    let l = length us in
    let cut : l ≡ (l - r) + r = omega arith in
    let end : r + (l - r) ≡ l = omega arith in
    let back =
      from_index-mod r l 0 us (mod_self l ∙ sym (mod-eq_of_lt {n = 0} {m = l} (omega arith))) in
    ap (λ (n : ℕ). from_index n r us) cut
    ∙ from_index-add (l - r) r r us
    ∙ ap₂ ◌++◌
        (from_index-slice (l - r) r us (omega arith)
          ∙ ap (map some) (take-all (l - r) (drop r us) (omega (arith, length-drop r us))))
        (ap (λ (j : ℕ). from_index r j us) end ∙ back ∙ from_index-slice r 0 us (omega arith))

-- As many calls as there are upstreams, with no overflow of the index on the way, give every
-- upstream exactly once (as often as the list holds it), wherever the rotation stands.
pub next_n-perm :
    (m : UpstreamManager)
    → 0 < length m.upstreams
    → m.index + length m.upstreams ≤ 2 ^ 64
    → Perm (next_n (length m.upstreams) m) (map some m.upstreams)
next_n-perm m p h =
    let us = m.upstreams in
    let r = m.index % length us in
    let walk =
      next_n-from_index (length us) m p h
      ∙ from_index-mod (length us) m.index r us (sym (mod-mod m.index (length us)))
      ∙ round r us (mod-lt m.index p) in
    let whole =
      sym (map-append some (take r us) (drop r us)) ∙ ap (map some) (take-append-drop r us) in
    subst (λ l. Perm l (map some us)) (sym walk)
      (subst (Perm (map some (drop r us) ++ map some (take r us))) whole
        (perm_append_comm (map some (drop r us)) (map some (take r us))))
