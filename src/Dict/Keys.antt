-- ===== src/Dict/Keys.antt =====
-- The keys of a map: which ones it holds, and that each is there once.
use subnetwork_system_torchl.Prelude.{◌≡◌, refl, Bool, false, ◌||◌, List, [], ◌∷◌, ◌++◌, arith}
use subnetwork_system_torchl.Text.{Str, str_eq, str_eq_iff}

module _ {ℓ} {V : Type ℓ} where
  unfoldable pub has_key : Str → List (Str × V) → Bool
  has_key k [] = false
  has_key k ((j, v) ∷ m) = str_eq j k || has_key k m

  abbrev pub Distinct : List (Str × V) → Type 0
  Distinct [] = Unit {0}
  Distinct ((j, v) ∷ m) = (has_key j m ≡ false) × Distinct m

  pub has_key-append :
      (k : Str) (m n : List (Str × V)) → has_key k (m ++ n) ≡ has_key k m || has_key k n
  unfolding has_key
  has_key-append k [] n = refl
  has_key-append k ((j, v) ∷ m) n = ground (arith, has_key-append k m n)

  -- Taking one entry out of the middle keeps the keys distinct, and its key is gone.
  pub Distinct-middle :
      (m n : List (Str × V)) (k : Str) (v : V)
      → Distinct (m ++ (k, v) ∷ n)
      → Distinct (m ++ n) × (has_key k (m ++ n) ≡ false)
  unfolding has_key
  Distinct-middle [] n k v d = (d.1, d.0)
  Distinct-middle ((j, w) ∷ m) n k v d = ground (
    arith,
    Distinct-middle m n k v d.1,
    has_key-append j m ((k, v) ∷ n),
    has_key-append j m n,
    has_key-append k m n,
    str_eq_iff j k,
    str_eq_iff k j,
  )
