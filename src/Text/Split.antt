-- ===== src/Text/Split.antt =====
-- strings.Split and strings.SplitN on one separating byte, on CR LF, and the joining of parts.
use subnetwork_system_torchl.Prelude.{
  ℕ, ◌≡◌, refl, ap, false, ◌&&◌, List, [], ◌∷◌, ◌++◌, arith, ◌==◌, if◌then◌else◌, All, inl, inr,
  Bool-cases, ◌∙◌,
}
use subnetwork_system_torchl.Text.Equality.{Str}

-- Puts a byte in front of the first part.
abbrev pub onto_head : ℕ → List Str → List Str
onto_head x [] = (x ∷ []) ∷ []
onto_head x (p ∷ ps) = (x ∷ p) ∷ ps

-- strings.Split(s, c)
unfoldable pub split : ℕ → Str → List Str
split c [] = [] ∷ []
split c (x ∷ xs) = let parts = split c xs in if x == c then [] ∷ parts else onto_head x parts

-- strings.Split(s, "\r\n")
unfoldable pub split_crlf : Str → List Str
split_crlf [] = [] ∷ []
split_crlf (x ∷ []) = (x ∷ []) ∷ []
split_crlf (x ∷ y ∷ r) =
    let cut = split_crlf r in
    let rest = split_crlf (y ∷ r) in if x == 13 && y == 10 then [] ∷ cut else onto_head x rest

-- strings.SplitN(s, c, 2)
unfoldable pub split_n2 : ℕ → Str → List Str
split_n2 c [] = [] ∷ []
split_n2 c (x ∷ xs) =
    let parts = split_n2 c xs in if x == c then [] ∷ xs ∷ [] else onto_head x parts

-- strings.Join(parts, c)
unfoldable pub join : ℕ → List Str → Str
join c [] = []
join c (p ∷ []) = p
join c (p ∷ q ∷ ps) = p ++ c ∷ join c (q ∷ ps)

-- A text without the byte `c`.
abbrev pub Free : ℕ → Str → Type 0
Free c = All (λ x. (x == c) ≡ false)

pub split-Free : (c : ℕ) (p : Str) → Free c p → split c p ≡ p ∷ []
unfolding split
split-Free c [] f = refl
split-Free c (x ∷ p) f = rw (f.0, split-Free c p f.1) refl

-- The first part ends at the first separator.
pub split-append : (c : ℕ) (p s : Str) → Free c p → split c (p ++ c ∷ s) ≡ p ∷ split c s
unfolding split
split-append c [] s f = ground arith
split-append c (x ∷ p) s f = rw (f.0, split-append c p s f.1) refl

pub split_n2-append : (c : ℕ) (p s : Str) → Free c p → split_n2 c (p ++ c ∷ s) ≡ p ∷ s ∷ []
unfolding split_n2
split_n2-append c [] s f = ground arith
split_n2-append c (x ∷ p) s f = rw (f.0, split_n2-append c p s f.1) refl

onto_head-two :
    (x : ℕ) (l : List Str) (p q : Str)
    → onto_head x l ≡ p ∷ q ∷ []
    → (a : Str) × (l ≡ a ∷ q ∷ []) × (p ≡ x ∷ a)
onto_head-two x [] p q e = absurd (ground arith)
onto_head-two x (a ∷ l) p q e = (a, ground arith, ground arith)

-- Two parts were cut out of the one text that has them around the separator.
pub split_n2-two : (c : ℕ) (s p q : Str) → split_n2 c s ≡ p ∷ q ∷ [] → s ≡ p ++ c ∷ q
unfolding split_n2
split_n2-two c [] p q e = absurd (ground arith)
split_n2-two c (x ∷ xs) p q e = elim (Bool-cases (x == c)) [
  | inl h ↦ ground (arith, e, h)
  | inr h ↦
      let (a, cut, front) = onto_head-two x (split_n2 c xs) p q (ground arith) in
      ground (arith, front, h, split_n2-two c xs a q cut)
]

join-onto_head :
    (c x : ℕ) (p : Str) (ps : List Str) → join c (onto_head x (p ∷ ps)) ≡ x ∷ join c (p ∷ ps)
unfolding join
join-onto_head c x p [] = refl
join-onto_head c x p (q ∷ ps) = refl

split-nonempty : (c : ℕ) (s : Str) → (p : Str) × (ps : List Str) × (split c s ≡ p ∷ ps)
unfolding split
split-nonempty c [] = ([], [], refl)
split-nonempty c (x ∷ xs) =
    let (p, ps, q) = split-nonempty c xs in
    elim (Bool-cases (x == c)) [
      | inl e ↦ ([], split c xs, rw e refl)
      | inr e ↦ (x ∷ p, ps, rw (e, q) refl)
    ]

-- Splitting loses nothing: joining the parts gives the text back.
pub join-split : (c : ℕ) (s : Str) → join c (split c s) ≡ s
unfolding split join
join-split c [] = refl
join-split c (x ∷ xs) =
    let (p, ps, q) = split-nonempty c xs in
    let ih : join c (p ∷ ps) ≡ xs = rw q at (join-split c xs) in
    elim (Bool-cases (x == c)) [
      | inl e ↦ rw (e, q) (ground (arith, ih))
      | inr e ↦ rw (e, q) (join-onto_head c x p ps ∙ ap (◌∷◌ x) ih)
    ]
