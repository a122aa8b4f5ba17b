-- ===== src/Text/HostPort.antt =====
-- net.SplitHostPort, and what it makes of a text that fmt.Sprintf("%s:%d", host, port) has printed.
use subnetwork_system_torchl.Prelude.{
  ℕ, ◌≡◌, ◌≢◌, ◌<◌, refl, true, false, ◌||◌, List, [], ◌∷◌, ◌++◌, Option, none, some, arith, ◌==◌,
  if◌then◌else◌, ◌∙◌, inr,
}
use subnetwork_system_torchl.Text.Equality.{Str}
use subnetwork_system_torchl.Text.Split.{Free, split_n2}
use subnetwork_system_torchl.Text.Trim.{mem_byte, has_prefix}
use subnetwork_system_torchl.Text.Number.{itoa_nat, itoa_nat-Free}

onto_first : ℕ → Option (Str × Str) → Option (Str × Str)
onto_first c none = none
onto_first c (some (s, t)) = some (c ∷ s, t)

-- What stands before and behind the last colon; none is a text without one.
last_colon : Str → Option (Str × Str)
unfolding onto_first
last_colon [] = none
last_colon (c ∷ s) = elim (onto_first c (last_colon s)) [
  | some cut ↦ some cut
  | none ↦ if c == b':' then some ([], s) else none
]

-- "host:port": one colon, and no bracket anywhere.
plain : Str → Option (Str × Str) → Option (Str × Str)
plain s none = none
plain s (some (host, port)) =
    if mem_byte b':' host || (mem_byte b'[' s || mem_byte b']' s) then none else some (host, port)

behind_bracket : Str → Str → Option (Str × Str)
behind_bracket host [] = none
behind_bracket host (c ∷ port) =
    if c == b':'
    then (if mem_byte b':' port
          || (mem_byte b'[' host || (mem_byte b'[' port || mem_byte b']' port))
        then none
        else some (host, port))
    else none

-- "[host]:port", on what follows the first bracket.
bracketed : List Str → Option (Str × Str)
unfolding behind_bracket
bracketed (host ∷ rest ∷ []) = behind_bracket host rest
bracketed _ = none

-- none is an error.
unfoldable pub split_host_port : Str → Option (Str × Str)
unfolding plain last_colon bracketed
split_host_port [] = none
split_host_port (c ∷ s) =
    if c == b'[' then bracketed (split_n2 b']' s) else plain (c ∷ s) (last_colon (c ∷ s))

last_colon-Free : (p : Str) → Free b':' p → last_colon p ≡ none
unfolding last_colon
last_colon-Free [] f = refl
last_colon-Free (c ∷ p) f = ground (arith, last_colon-Free p f.1)

last_colon-append : (h p : Str) → Free b':' p → last_colon (h ++ b':' ∷ p) ≡ some (h, p)
unfolding last_colon
last_colon-append [] p f = ground (arith, last_colon-Free p f)
last_colon-append (c ∷ h) p f = ground (arith, last_colon-append h p f)

mem_byte-Free : (c : ℕ) (s : Str) → Free c s → mem_byte c s ≡ false
unfolding mem_byte
mem_byte-Free c [] f = refl
mem_byte-Free c (x ∷ s) f = ground (arith, mem_byte-Free c s f.1)

-- A text in which a search does not find a byte is free of it.
pub Free-mem_byte : (c : ℕ) (s : Str) → mem_byte c s ≡ false → Free c s
unfolding mem_byte
Free-mem_byte c [] h = tt
Free-mem_byte c (x ∷ s) h = ground (arith, Free-mem_byte c s)

mem_byte-append : (c : ℕ) (s t : Str) → mem_byte c (s ++ t) ≡ (mem_byte c s || mem_byte c t)
unfolding mem_byte
mem_byte-append c [] t = refl
mem_byte-append c (x ∷ s) t = ground (arith, mem_byte-append c s t)

module _ (host : Str) (n : ℕ) where
  cut_lem : last_colon (host ++ b':' ∷ itoa_nat n) ≡ some (host, itoa_nat n)
  cut_lem = last_colon-append host (itoa_nat n) (itoa_nat-Free b':' n (inr (omega arith)))

  digits_lem :
      (d : ℕ) → 57 < d → d ≢ b':' → mem_byte d (host ++ b':' ∷ itoa_nat n) ≡ mem_byte d host
  unfolding mem_byte
  digits_lem d h k =
      mem_byte-append d host (b':' ∷ itoa_nat n)
      ∙ ground (arith, mem_byte-Free d (itoa_nat n) (itoa_nat-Free d n (inr h)))

-- A host with a colon in it is refused, as it needs brackets.
pub split_host_port-colon :
    (host : Str) (n : ℕ)
    → mem_byte b':' host ≡ true
    → has_prefix b'[' host ≡ false
    → split_host_port (host ++ b':' ∷ itoa_nat n) ≡ none
unfolding split_host_port has_prefix mem_byte
split_host_port-colon [] n h b = absurd (cc)
split_host_port-colon (c ∷ host) n h b = ground (arith, cut_lem (c ∷ host) n, h)

-- A host with neither a colon nor a bracket is found again, with the port's digits.
pub split_host_port-plain :
    (host : Str) (n : ℕ)
    → Free b':' host
    → Free b'[' host
    → Free b']' host
    → split_host_port (host ++ b':' ∷ itoa_nat n) ≡ some (host, itoa_nat n)
unfolding split_host_port
split_host_port-plain [] n colon opening closing = ground (
  arith,
  cut_lem [] n,
  digits_lem [] n b'[' (omega arith) (omega arith),
  digits_lem [] n b']' (omega arith) (omega arith),
  mem_byte-Free b':' [] tt,
  mem_byte-Free b'[' [] tt,
  mem_byte-Free b']' [] tt,
)
split_host_port-plain (c ∷ host) n colon opening closing = ground (
  arith,
  cut_lem (c ∷ host) n,
  digits_lem (c ∷ host) n b'[' (omega arith) (omega arith),
  digits_lem (c ∷ host) n b']' (omega arith) (omega arith),
  mem_byte-Free b':' (c ∷ host) colon,
  mem_byte-Free b'[' (c ∷ host) opening,
  mem_byte-Free b']' (c ∷ host) closing,
)
