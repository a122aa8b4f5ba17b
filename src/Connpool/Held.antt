-- ===== src/Connpool/Held.antt =====
-- What a pool accounts for: the connections in its channel and those that it released.
use subnetwork_system_torchl.Prelude.{
  ℕ, zero, suc, ◌+◌, ◌≡◌, refl, Bool, true, false, List, [], ◌∷◌, ◌++◌, Option, none, some, arith,
  leb, ◌==◌, if◌then◌else◌, length, Option-cases, inl, inr, ◌∙◌,
}
use subnetwork_system_torchl.Connpool.Defs.{
  NetPool, PoolError, release, offer, fill_loop, background_pass, release_each,
}

-- How often a connection stands in a list.
unfoldable pub occ : ℕ → List ℕ → ℕ
occ c [] = 0
occ c (x ∷ xs) = if x == c then suc (occ c xs) else occ c xs

pub occ-append : (c : ℕ) (xs ys : List ℕ) → occ c (xs ++ ys) ≡ occ c xs + occ c ys
unfolding occ
occ-append c [] ys = omega arith
occ-append c (x ∷ xs) ys = ground (arith, occ-append c xs ys)

abbrev pub occ_option : ℕ → Option ℕ → ℕ
occ_option c none = 0
occ_option c (some x) = if x == c then 1 else 0

-- How often Factory has made the connection in its first `n` calls.
unfoldable pub made : (ℕ → Option ℕ) → ℕ → ℕ → ℕ
made factory c zero = 0
made factory c (suc n) = made factory c n + occ_option c (factory n)

-- What the pool itself accounts for.
abbrev pub held : NetPool → ℕ → ℕ
held p c = occ c p.conns + occ c p.released

abbrev pub made_by : NetPool → ℕ → ℕ
made_by p c = made p.factory c p.calls

pub offer-held : (p : NetPool) (x c : ℕ) → held (offer p x) c ≡ held p c + occ c (x ∷ [])
unfolding offer release occ
offer-held p x c = ground (arith, occ-append c p.conns (x ∷ []))

pub offer-made : (p : NetPool) (x c : ℕ) → made_by (offer p x) c ≡ made_by p c
unfolding offer release
offer-made p x c = ground arith

pub made-suc : (f : ℕ → Option ℕ) (c n : ℕ) → made f c (suc n) ≡ made f c n + occ_option c (f n)
unfolding made
made-suc f c n = refl

-- One round of the loop, given what the rest of it does.
unfoldable pub Keeps : NetPool → NetPool → ℕ → Type 0
Keeps p q c = held q c + made_by p c ≡ held p c + made_by q c

pub failed-Keeps :
    (p q : NetPool) (c : ℕ)
    → p.factory p.calls ≡ none
    → Keeps (record p { calls = suc p.calls }) q c
    → Keeps p q c
unfolding Keeps
failed-Keeps p q c e h = ground (arith, e, h, made-suc p.factory c p.calls)

pub dialled-Keeps :
    (p : NetPool) (x c : ℕ)
    → p.factory p.calls ≡ some x
    → Keeps p (offer (record p { calls = suc p.calls }) x) c
unfolding Keeps occ
dialled-Keeps p x c e =
    let p' = record p { calls = suc p.calls } in
    ground (arith, e, offer-held p' x c, offer-made p' x c, made-suc p.factory c p.calls)

pub Keeps-trans : (p q r : NetPool) (c : ℕ) → Keeps p q c → Keeps q r c → Keeps p r c
unfolding Keeps
Keeps-trans p q r c h k = omega arith

pub Keeps-refl : (p : NetPool) (c : ℕ) → Keeps p p c
unfolding Keeps
Keeps-refl p c = omega arith

pub if-Keeps :
    (b : Bool) (p : NetPool) (x y : NetPool × Option PoolError) (c : ℕ)
    → Keeps p x.0 c
    → Keeps p y.0 c
    → Keeps p (if b then x else y).0 c
if-Keeps true p x y c h k = h
if-Keeps false p x y c h k = k

-- Filling puts every new connection into the channel or releases it.
pub fill_loop-Keeps :
    (async : Bool) (n : ℕ) (p : NetPool) (c : ℕ) → Keeps p (fill_loop async n p).0 c
unfolding fill_loop
fill_loop-Keeps async zero p c = Keeps-refl p c
fill_loop-Keeps async (suc n) p c = elim (Option-cases (p.factory p.calls)) [
  | inl e ↦
      let p' = record p { calls = suc p.calls } in
      rw (e, fill_loop)
        (failed-Keeps p _ c e
          (if-Keeps async p' _ _ c (fill_loop-Keeps async n p' c) (Keeps-refl p' c)))
  | inr (x, e) ↦
      let filled = offer (record p { calls = suc p.calls }) x in
      rw (e, fill_loop)
        (Keeps-trans p filled _ c (dialled-Keeps p x c e) (
          if-Keeps (leb filled.initial_cap (length filled.conns)) filled _ _ c (Keeps-refl filled c)
            (fill_loop-Keeps async n filled c)))
]

pub background_pass-Keeps : (p : NetPool) (c : ℕ) → Keeps p (background_pass p) c
unfolding background_pass
background_pass-Keeps p c =
    if-Keeps _ p _ _ c (fill_loop-Keeps true p.initial_cap p c) (Keeps-refl p c)

pub fill_loop-balance :
    (p : NetPool) (c : ℕ)
    → let p' = (fill_loop true p.initial_cap p).0 in
      held p' c + made_by p c ≡ held p c + made_by p' c
fill_loop-balance p c = unfold Keeps in fill_loop-Keeps true p.initial_cap p c

pub background_pass-balance :
    (p : NetPool) (c : ℕ)
    → held (background_pass p) c + made_by p c ≡ held p c + made_by (background_pass p) c
background_pass-balance p c = unfold Keeps in background_pass-Keeps p c

pub occ-release_each : (c : ℕ) (xs ys : List ℕ) → occ c (release_each xs ys) ≡ occ c xs + occ c ys
unfolding release_each occ
occ-release_each c [] ys = omega arith
occ-release_each c (x ∷ xs) ys = ground (arith, occ-release_each c xs (x ∷ ys))

pub config-offer : (p : NetPool) (x : ℕ) → (offer p x).config ≡ p.config
unfolding offer release
config-offer p x = ground arith

pub config-if :
    (b : Bool) (p : NetPool) (x y : NetPool × Option PoolError)
    → x.0.config ≡ p.config
    → y.0.config ≡ p.config
    → (if b then x else y).0.config ≡ p.config
config-if true p x y h k = h
config-if false p x y h k = k

pub config-fill_loop :
    (async : Bool) (n : ℕ) (p : NetPool) → (fill_loop async n p).0.config ≡ p.config
unfolding fill_loop
config-fill_loop async zero p = refl
config-fill_loop async (suc n) p = elim (Option-cases (p.factory p.calls)) [
  | inl e ↦
      rw (e, fill_loop)
        (config-if async p _ _ (config-fill_loop async n (record p { calls = suc p.calls })) refl)
  | inr (x, e) ↦
      let p' = record p { calls = suc p.calls } in
      rw (e, fill_loop)
        (config-if _ p _ _ (config-offer p' x)
          (config-fill_loop async n (offer p' x) ∙ config-offer p' x))
]

pub config-background_pass : (p : NetPool) → (background_pass p).config ≡ p.config
unfolding background_pass
config-background_pass p = config-if _ p _ _ (config-fill_loop true p.initial_cap p) refl
