-- ===== src/Text/Number.antt =====
-- strconv.Itoa and strconv.Atoi on a 64-bit int.
use subnetwork_system_torchl.Prelude.{
  ℕ, zero, suc, ◌+◌, ◌-◌, ◌*◌, ◌/◌, ◌%◌, ◌^◌, ◌≤◌, ◌<◌, ◌≡◌, refl, ◌∙◌, Bool, true, false, ◌&&◌, [],
  ◌∷◌, arith, ltb, leb, ◌==◌, if◌then◌else◌, ℤ, pos, negsuc, pos_part, neg_part, inl, inr,
  Bool-cases, All, subst, sym, ◌⊎◌,
}
use subnetwork_system_torchl.Text.Equality.{Str}
use subnetwork_system_torchl.Text.Split.{Free}

-- The decimal digits of `n` in front of `s`; `fuel` above `n` is enough.
unfoldable pub digits : ℕ → ℕ → Str → Str
digits zero n s = s
digits (suc fuel) n s =
    let rest = digits fuel (n / 10) ((48 + n % 10) ∷ s) in if ltb n 10 then (48 + n) ∷ s else rest

unfoldable pub itoa_nat : ℕ → Str
unfolding digits
itoa_nat n = digits (suc n) n []

-- strconv.Itoa
unfoldable pub itoa : ℤ → Str
unfolding itoa_nat
itoa (pos n) = itoa_nat n
itoa (negsuc n) = b'-' ∷ itoa_nat (suc n)

pub data Digits : Type 0 where
  value : ℕ → Digits
  syntax range : Digits

-- The loop of strconv.ParseUint: it stops at the first byte that is no digit, or at the first
-- digit that takes the value past 64 bits.
unfoldable pub parse_digits : ℕ → Str → Digits
parse_digits acc [] = value acc
parse_digits acc (c ∷ cs) =
    let acc' = acc * 10 + (c - 48) in
    let rest = parse_digits acc' cs in
    if leb 48 c && leb c 57 then (if ltb acc' (2 ^ 64) then rest else range) else syntax

-- The value that strconv.Atoi returns, and whether its error is nil. On a number out of range the
-- value is the nearest int64.
abbrev nonneg : Digits → ℤ × Bool
nonneg (value n) = if ltb n (2 ^ 63) then (pos n, true) else (pos (2 ^ 63 - 1), false)
nonneg syntax = (pos 0, false)
nonneg range = (pos (2 ^ 63 - 1), false)

abbrev neg : ℕ → ℤ
neg zero = pos 0
neg (suc n) = negsuc n

abbrev negative : Digits → ℤ × Bool
negative (value n) = if leb n (2 ^ 63) then (neg n, true) else (negsuc (2 ^ 63 - 1), false)
negative syntax = (pos 0, false)
negative range = (negsuc (2 ^ 63 - 1), false)

unsigned : Str → Digits
unfolding parse_digits
unsigned [] = syntax
unsigned (c ∷ cs) = parse_digits 0 (c ∷ cs)

unfoldable pub atoi : Str → ℤ × Bool
unfolding unsigned
atoi [] = (pos 0, false)
atoi (c ∷ cs) =
    if c == b'-'
    then negative (unsigned cs)
    else if c == b'+'
    then nonneg (unsigned cs)
    else nonneg (unsigned (c ∷ cs))

parse_digits-digits :
    (fuel n : ℕ) (s : Str)
    → n < fuel
    → n < 2 ^ 64
    → parse_digits 0 (digits fuel n s) ≡ parse_digits n s
unfolding digits parse_digits
parse_digits-digits zero n s h b = elim h [ ]
parse_digits-digits (suc fuel) n s h b = elim (Bool-cases (ltb n 10)) [
  | inl e ↦ rw e (ground arith)
  | inr e ↦ rw e (
      parse_digits-digits fuel (n / 10) ((48 + n % 10) ∷ s) (ground arith) (omega arith)
      ∙ ground arith)
]

parse_digits-itoa_nat : (n : ℕ) → n < 2 ^ 64 → parse_digits 0 (itoa_nat n) ≡ value n
unfolding itoa_nat
parse_digits-itoa_nat n h =
    parse_digits-digits (suc n) n [] (omega arith) h ∙ unfold parse_digits in refl

abbrev IsDigit : ℕ → Type 0
IsDigit c = (48 ≤ c) × (c ≤ 57)

digits-IsDigit : (fuel n : ℕ) (s : Str) → All IsDigit s → All IsDigit (digits fuel n s)
unfolding digits
digits-IsDigit zero n s h = h
digits-IsDigit (suc fuel) n s h = ground (arith, digits-IsDigit fuel (n / 10) ((48 + n % 10) ∷ s))

digits-cons : (fuel n c : ℕ) (s : Str) → (d : ℕ) × (t : Str) × (digits fuel n (c ∷ s) ≡ d ∷ t)
unfolding digits
digits-cons zero n c s = (c, s, refl)
digits-cons (suc fuel) n c s = elim (Bool-cases (ltb n 10)) [
  | inl e ↦ (48 + n, c ∷ s, rw e refl)
  | inr e ↦ rw e (digits-cons fuel (n / 10) (48 + n % 10) (c ∷ s))
]

pub itoa_nat-IsDigit : (n : ℕ) → All IsDigit (itoa_nat n)
unfolding itoa_nat
itoa_nat-IsDigit n = digits-IsDigit (suc n) n [] tt

itoa_nat-cons : (n : ℕ) → (d : ℕ) × (t : Str) × (itoa_nat n ≡ d ∷ t)
unfolding itoa_nat
itoa_nat-cons n = elim (Bool-cases (ltb n 10)) [
  | inl e ↦ (48 + n, [], unfold digits in rw e refl)
  | inr e ↦ (unfold digits in rw e (digits-cons n (n / 10) (48 + n % 10) []))
]

module _ (n : ℕ) (d : ℕ) (t : Str) (e : itoa_nat n ≡ d ∷ t) where
  head-IsDigit : All IsDigit (d ∷ t)
  head-IsDigit = subst (All IsDigit) e (itoa_nat-IsDigit n)

  unsigned-itoa_nat : n < 2 ^ 64 → unsigned (d ∷ t) ≡ value n
  unfolding unsigned
  unsigned-itoa_nat h = subst (λ s. parse_digits 0 s ≡ value n) e (parse_digits-itoa_nat n h)

  atoi-nat : n < 2 ^ 63 → atoi (d ∷ t) ≡ (pos n, true)
  unfolding atoi
  atoi-nat h = ground (arith, head-IsDigit, unsigned-itoa_nat (omega arith))

  atoi-neg : 0 < n → n ≤ 2 ^ 63 → atoi (b'-' ∷ d ∷ t) ≡ (neg n, true)
  unfolding atoi
  atoi-neg p h = ground (arith, unsigned-itoa_nat (omega arith))

-- Atoi reads back what Itoa prints, on every int64.
pub atoi-itoa : (z : ℤ) → pos_part z < 2 ^ 63 → neg_part z ≤ 2 ^ 63 → atoi (itoa z) ≡ (z, true)
unfolding itoa
atoi-itoa (pos n) h k =
    let (d, t, e) = itoa_nat-cons n in
    subst (λ s. atoi s ≡ (pos n, true)) (sym e) (atoi-nat n d t e h)
atoi-itoa (negsuc n) h k =
    let (d, t, e) = itoa_nat-cons (suc n) in
    subst (λ s. atoi (b'-' ∷ s) ≡ (negsuc n, true)) (sym e) (atoi-neg (suc n) d t e (omega arith) k)

-- Nothing that Itoa prints has a colon in it.
digit-Free : (d : ℕ) (s : Str) → (d < 48) ⊎ (57 < d) → All IsDigit s → Free d s
digit-Free d [] o h = tt
digit-Free d (c ∷ s) o h = (ground (arith, o, h.0), digit-Free d s o h.1)

-- No sign and no separator stands in the digits of a number.
pub itoa_nat-Free : (d n : ℕ) → (d < 48) ⊎ (57 < d) → Free d (itoa_nat n)
itoa_nat-Free d n o = digit-Free d _ o (itoa_nat-IsDigit n)

pub itoa-Free : (z : ℤ) → Free b':' (itoa z)
unfolding itoa
itoa-Free (pos n) = itoa_nat-Free b':' n (inr (omega arith))
itoa-Free (negsuc n) = (refl, itoa_nat-Free b':' (suc n) (inr (omega arith)))
