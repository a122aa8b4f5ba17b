-- ===== src/Dict.antt =====
-- Go's built-in map with string keys: lookup with `ok`, assignment, delete, len, and iteration.
-- Each key has one entry; the order of the entries stands for one order of a `range` loop.
mod Keys
use subnetwork_system_torchl.Prelude.{
  ℕ, zero, suc, ◌+◌, ◌-◌, ◌≤◌, ◌≡◌, refl, Bool, true, false, ◌||◌, List, [], ◌∷◌, ◌++◌, Option,
  none, some, arith, if◌then◌else◌, length, is_some,
}
use subnetwork_system_torchl.Text.{Str, str_eq, str_eq_iff}
unfoldable pub use Keys.*

abbrev pub Dict {ℓ} : Type ℓ → Type ℓ
Dict V = List (Str × V)

module _ {ℓ} {V : Type ℓ} where
  -- v, ok := m[k]
  unfoldable pub lookup : Str → Dict V → Option V
  lookup k [] = none
  lookup k ((j, v) ∷ m) = if str_eq j k then some v else lookup k m

  -- m[k] = v
  unfoldable pub insert : Str → V → Dict V → Dict V
  insert k v [] = (k, v) ∷ []
  insert k v ((j, w) ∷ m) = if str_eq j k then (k, v) ∷ m else (j, w) ∷ insert k v m

  -- delete(m, k)
  unfoldable pub delete : Str → Dict V → Dict V
  delete k [] = []
  delete k ((j, w) ∷ m) = let rest = delete k m in if str_eq j k then rest else (j, w) ∷ rest

  pub lookup-insert :
      (k j : Str) (v : V) (m : Dict V)
      → lookup j (insert k v m) ≡ (if str_eq k j then some v else lookup j m)
  unfolding lookup insert
  lookup-insert k j v [] = refl
  lookup-insert k j v ((i, w) ∷ m) =
      ground (arith, str_eq_iff k j, str_eq_iff i k, str_eq_iff i j, lookup-insert k j v m)

  pub lookup-delete :
      (k j : Str) (m : Dict V) → lookup j (delete k m) ≡ (if str_eq k j then none else lookup j m)
  unfolding lookup delete
  lookup-delete k j [] = ground arith
  lookup-delete k j ((i, w) ∷ m) =
      ground (arith, str_eq_iff k j, str_eq_iff i k, str_eq_iff i j, lookup-delete k j m)

  pub length-insert :
      (k : Str) (v : V) (m : Dict V)
      → length (insert k v m) ≡ (if is_some (lookup k m) then length m else suc (length m))
  unfolding lookup insert
  length-insert k v [] = refl
  length-insert k v ((i, w) ∷ m) = ground (arith, length-insert k v m)

  pub has_key-insert :
      (k j : Str) (v : V) (m : Dict V) → has_key j (insert k v m) ≡ (str_eq k j || has_key j m)
  unfolding has_key insert
  has_key-insert k j v [] = refl
  has_key-insert k j v ((i, w) ∷ m) =
      ground (arith, str_eq_iff k j, str_eq_iff i k, str_eq_iff i j, has_key-insert k j v m)

  pub has_key-delete :
      (k j : Str) (m : Dict V)
      → has_key j (delete k m) ≡ (if str_eq k j then false else has_key j m)
  unfolding has_key delete
  has_key-delete k j [] = ground arith
  has_key-delete k j ((i, w) ∷ m) =
      ground (arith, str_eq_iff k j, str_eq_iff i k, str_eq_iff i j, has_key-delete k j m)

  -- Assignment and delete keep one entry for each key.
  pub insert-Distinct : (k : Str) (v : V) (m : Dict V) → Distinct m → Distinct (insert k v m)
  unfolding insert
  insert-Distinct k v [] d = (unfold has_key in refl, tt)
  insert-Distinct k v ((i, w) ∷ m) d =
      ground
        (arith, str_eq_iff i k, str_eq_iff k i, has_key-insert k i v m, insert-Distinct k v m d.1)

  pub delete-Distinct : (k : Str) (m : Dict V) → Distinct m → Distinct (delete k m)
  unfolding delete
  delete-Distinct k [] d = tt
  delete-Distinct k ((i, w) ∷ m) d = ground (arith, has_key-delete k i m, delete-Distinct k m d.1)

  -- Indexing finds a value exactly at the keys that are there.
  pub lookup-has_key : (k : Str) (m : Dict V) → is_some (lookup k m) ≡ has_key k m
  unfolding lookup has_key
  lookup-has_key k [] = refl
  lookup-has_key k ((i, w) ∷ m) = ground (arith, lookup-has_key k m)

  delete-absent : (k : Str) (m : Dict V) → has_key k m ≡ false → delete k m ≡ m
  unfolding delete has_key
  delete-absent k [] h = refl
  delete-absent k ((i, w) ∷ m) h = ground (arith, delete-absent k m)

  pub length-delete :
      (k : Str) (m : Dict V)
      → Distinct m
      → length m ≡ (if is_some (lookup k m) then suc (length (delete k m)) else length (delete k m))
  unfolding lookup delete
  length-delete k [] d = refl
  length-delete k ((i, w) ∷ m) d =
      ground (arith, str_eq_iff i k, delete-absent k m, length-delete k m d.1)

  -- In a concatenation the first map that has the key answers.
  pub lookup-append :
      (k : Str) (m n : Dict V)
      → lookup k (m ++ n) ≡ (if has_key k m then lookup k m else lookup k n)
  unfolding lookup has_key
  lookup-append k [] n = refl
  lookup-append k ((i, w) ∷ m) n = ground (arith, lookup-append k m n)
