-- ===== src/Connpool/Filling.antt =====
-- Filling brings a pool to its size.
use subnetwork_system_torchl.Prelude.{
  ℕ, zero, suc, ◌+◌, ◌/◌, ◌≤◌, ◌<◌, ◌≡◌, refl, Bool, true, [], ◌∷◌, ◌++◌, none, arith, ltb, length,
  length-append, ◌≢◌, Option-cases, Bool-cases, lt→ltb, inl, inr,
}
use subnetwork_system_torchl.Connpool.Defs.{NetPool, offer, fill_loop, len, background_pass}

offer-room :
    (p : NetPool) (c : ℕ)
    → length p.conns < p.capacity
    → offer p c ≡ record p { conns = p.conns ++ c ∷ [] }
unfolding offer
offer-room p c h = rw (lt→ltb _ _ h) refl

-- The loop with a Factory that never fails and room enough: one more connection in each round, up
-- to InitialCap.
fill_loop-full :
    (async : Bool) (n : ℕ) (p : NetPool)
    → ((i : ℕ) → p.factory i ≢ none)
    → p.initial_cap ≤ p.capacity
    → length p.conns < p.initial_cap
    → p.initial_cap ≤ length p.conns + n
    → (length (fill_loop async n p).0.conns ≡ p.initial_cap) × ((fill_loop async n p).1 ≡ none)
unfolding fill_loop
fill_loop-full async zero p ok room below enough = absurd (omega arith)
fill_loop-full async (suc n) p ok room below enough = elim (Option-cases (p.factory p.calls)) [
  | inl e ↦ absurd (ok p.calls e)
  | inr (c, e) ↦
      rw (e, fill_loop, offer-room (record p { calls = suc p.calls }) c (omega arith))
        (ground (
          arith,
          length-append p.conns (c ∷ []),
          fill_loop-full async n (record p { calls = suc p.calls; conns = p.conns ++ c ∷ [] }) ok
              room,
        ))
]

fill_loop-zero : (async : Bool) (n : ℕ) (p : NetPool) → n ≡ 0 → fill_loop async n p ≡ (p, none)
unfolding fill_loop
fill_loop-zero async zero p z = refl
fill_loop-zero async (suc n) p z = absurd (omega arith)

-- A pass over a pool that has run half empty brings it to InitialCap, if every dial succeeds.
pub background_pass-full :
    (p : NetPool)
    → ((i : ℕ) → p.factory i ≢ none)
    → p.initial_cap ≤ p.capacity
    → len p ≤ p.initial_cap / 2
    → len (background_pass p) ≡ p.initial_cap
unfolding background_pass len
background_pass-full p ok room half = elim (Bool-cases (ltb 0 p.initial_cap)) [
  | inl e ↦ ground (arith, fill_loop-full true p.initial_cap p ok room (ground arith) (omega arith))
  | inr e ↦
      let z : p.initial_cap ≡ 0 = ground arith in
      ground (arith, z, fill_loop-zero true p.initial_cap p z)
]
