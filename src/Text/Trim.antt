-- ===== src/Text/Trim.antt =====
-- strings.Trim, TrimSpace, ToUpper, ToLower, HasPrefix, HasSuffix, Index and Fields.
use mathlib.Core.List.{reverse}
use subnetwork_system_torchl.Prelude.{
  ℕ, ◌+◌, ◌-◌, Bool, false, ◌&&◌, ◌||◌, List, [], ◌∷◌, map, ◌==◌, leb, if◌then◌else◌,
}
use subnetwork_system_torchl.Text.Equality.{Str}

unfoldable pub mem_byte : ℕ → Str → Bool
mem_byte c [] = false
mem_byte c (x ∷ xs) = c == x || mem_byte c xs

-- strings.TrimLeft(s, cutset)
unfoldable pub trim_left : Str → Str → Str
trim_left cut [] = []
trim_left cut (x ∷ xs) = let rest = trim_left cut xs in if mem_byte x cut then rest else x ∷ xs

-- strings.Trim(s, cutset)
unfoldable pub trim : Str → Str → Str
unfolding trim_left mem_byte
trim cut s = reverse (trim_left cut (reverse (trim_left cut s)))

unfoldable pub upper_byte : ℕ → ℕ
upper_byte c = if leb b'a' c && leb c b'z' then c - 32 else c

unfoldable pub lower_byte : ℕ → ℕ
lower_byte c = if leb b'A' c && leb c b'Z' then c + 32 else c

unfoldable pub to_upper : Str → Str
unfolding upper_byte
to_upper = map upper_byte

unfoldable pub to_lower : Str → Str
unfolding lower_byte
to_lower = map lower_byte

-- strings.HasPrefix(s, one byte)
unfoldable pub has_prefix : ℕ → Str → Bool
has_prefix c [] = false
has_prefix c (x ∷ xs) = x == c

-- strings.HasSuffix(s, one byte)
unfoldable pub has_suffix : ℕ → Str → Bool
has_suffix c [] = false
has_suffix c (x ∷ []) = x == c
has_suffix c (x ∷ y ∷ r) = has_suffix c (y ∷ r)

-- The white space of ASCII, at which strings.Fields cuts.
unfoldable pub is_space : ℕ → Bool
is_space c = (leb 9 c && leb c 13) || c == 32

abbrev flush : Str → List Str → List Str
flush [] ws = ws
flush (x ∷ w) ws = reverse (x ∷ w) ∷ ws

-- `word` holds the bytes of the open field, last first.
unfoldable pub fields_from : Str → Str → List Str
fields_from word [] = flush word []
fields_from word (x ∷ xs) =
    let next = fields_from [] xs in
    let more = fields_from (x ∷ word) xs in if is_space x then flush word next else more

-- strings.Fields(s)
unfoldable pub fields : Str → List Str
unfolding fields_from is_space
fields = fields_from []
