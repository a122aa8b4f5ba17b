-- ===== src/Http/Ports.antt =====
-- The port that addPortIfNot adds.
use subnetwork_system_torchl.Prelude.{ℕ, ◌≡◌, refl, true, false, ◌||◌, [], ◌∷◌, ◌++◌, arith, ◌==◌}
use subnetwork_system_torchl.Text.{Str, codes, mem_byte, has_prefix, has_suffix}
use subnetwork_system_torchl.Http.Defs.{add_port_if_not}

mem_byte-append : (c : ℕ) (xs ys : Str) → mem_byte c (xs ++ ys) ≡ (mem_byte c xs || mem_byte c ys)
unfolding mem_byte
mem_byte-append c [] ys = refl
mem_byte-append c (x ∷ xs) ys = ground (arith, mem_byte-append c xs ys)

-- A host that is no bracketed IPv6 address ends up with a colon in it.
pub add_port_if_not-colon :
    (method host : Str)
    → has_prefix b'[' host ≡ false
    → mem_byte b':' (add_port_if_not method host) ≡ true
unfolding add_port_if_not mem_byte
add_port_if_not-colon method host h =
    ground
      (arith, h, mem_byte-append b':' host (codes ":443"), mem_byte-append b':' host (codes ":80"))

has_suffix-append : (c x : ℕ) (xs : Str) → has_suffix c (xs ++ x ∷ []) ≡ (x == c)
unfolding has_suffix
has_suffix-append c x [] = refl
has_suffix-append c x (y ∷ []) = refl
has_suffix-append c x (y ∷ z ∷ xs) = has_suffix-append c x (z ∷ xs)
