-- ===== src/Manager/Users/Races.antt =====
-- The connection count of one user under addConnection and removeConnection calls that overlap: each
-- tests the count and then changes it, and no lock keeps the two together. A `++` or `--` is one step.
use subnetwork_system_torchl.Prelude.{
  ◌≡◌, refl, ◌∙◌, Option, none, some, length, ℕ, ◌+◌, ◌-◌, ◌≤◌, ◌<◌, List, [], ◌∷◌, if◌then◌else◌,
  ℤ, pos, negsuc, ◌+ℤ◌, ◌-ℤ◌, ltb, arith,
}
use subnetwork_system_torchl.Text.{Str, str_eq_refl}
use subnetwork_system_torchl.Cmap.{shard_count}
use subnetwork_system_torchl.Manager.Users.Defs.{
  UserManager, has_room, has_open, add_connection, remove_connection,
}
use subnetwork_system_torchl.Manager.Users.Connections.{
  count_of, opened, closed, add_connection-count, remove_connection-count,
}

-- `opening` and `closing` are the calls that have passed their test and not changed the count yet.
pub record Counter : Type 0 where
  pub count : ℤ
  pub opening : ℕ
  pub closing : ℕ

-- A new User, in processVerifyUserResponse.
unfoldable pub new_counter : Counter
new_counter = record { count = pos 0; opening = 0; closing = 0 }

pub data Move : Type 0 where
  tests_open opens tests_close closes resets : Move

-- One move of any goroutine that holds the pointer; without a call in flight nobody changes the count.
unfoldable pub move : Counter → Move → Counter
unfolding has_room has_open
move s tests_open = if has_room s.count then record s { opening = s.opening + 1 } else s
move s opens =
    if ltb 0 s.opening then record s { opening = s.opening - 1; count = s.count +ℤ pos 1 } else s
move s tests_close = if has_open s.count then record s { closing = s.closing + 1 } else s
move s closes =
    if ltb 0 s.closing then record s { closing = s.closing - 1; count = s.count -ℤ pos 1 } else s
move s resets = record s { count = pos 0 }

unfoldable pub moves : Counter → List Move → Counter
unfolding move
moves s [] = s
moves s (m ∷ ms) = moves (move s m) ms

-- At no time more than `n` openings and `n` closings are between their test and their change.
unfoldable pub AtMost : ℕ → Counter → List Move → Type 0
unfolding move
AtMost n s [] = Unit
AtMost n s (m ∷ ms) = ((move s m).opening ≤ n) × ((move s m).closing ≤ n) × AtMost n (move s m) ms

-- Between -n and 49 + n.
abbrev pub IsBetween : ℕ → ℤ → Type 0
IsBetween n (pos c) = c ≤ 49 + n
IsBetween n (negsuc c) = c < n

-- What the calls in flight will still do is in the bounds already.
abbrev Holds : ℕ → ℤ → ℕ → ℕ → Type 0
Holds n (pos c) opening closing = (c + opening ≤ 49 + n) × (opening ≤ n) × (closing ≤ n)
Holds n (negsuc c) opening closing = (opening ≤ n) × (c + 1 + closing ≤ n)

move-Holds :
    (n : ℕ) (count : ℤ) (opening closing : ℕ) (m : Move)
    → let s' = move (record { count = count; opening = opening; closing = closing }) m in
      Holds n count opening closing
      → s'.opening ≤ n
      → s'.closing ≤ n
      → Holds n s'.count s'.opening s'.closing
unfolding move has_room has_open ◌+ℤ◌ ◌-ℤ◌
move-Holds n (pos c) o l tests_open h a b = ground arith
move-Holds n (pos c) o l opens h a b = ground arith
move-Holds n (pos c) o l tests_close h a b = ground arith
move-Holds n (pos c) o l closes h a b = ground arith
move-Holds n (pos c) o l resets h a b = ground arith
move-Holds n (negsuc c) o l tests_open h a b = ground arith
move-Holds n (negsuc c) o l opens h a b = ground arith
move-Holds n (negsuc c) o l tests_close h a b = ground arith
move-Holds n (negsuc c) o l closes h a b = ground arith
move-Holds n (negsuc c) o l resets h a b = ground arith

moves-Holds :
    (n : ℕ) (s : Counter) (ms : List Move)
    → AtMost n s ms
    → Holds n s.count s.opening s.closing
    → Holds n (moves s ms).count (moves s ms).opening (moves s ms).closing
unfolding moves AtMost
moves-Holds n s [] a h = h
moves-Holds n s (m ∷ ms) a h =
    moves-Holds n (move s m) ms a.2 (move-Holds n s.count s.opening s.closing m h a.0 a.1)

Holds-IsBetween : (n : ℕ) (c : ℤ) (o l : ℕ) → Holds n c o l → IsBetween n c
Holds-IsBetween n (pos c) o l h = omega arith
Holds-IsBetween n (negsuc c) o l h = omega arith

-- However the calls on one user overlap, with the resets of every minute in between: as long as at
-- most n openings and n closings are between their test and their change at any time, the count is
-- never above 49 + n or below -n, with each ++ and -- taken as one step. So calls that do not overlap keep it between -1 and fifty, and each
-- further call that overlaps may take it one beyond.
pub moves-IsBetween :
    (n : ℕ) (ms : List Move) → AtMost n new_counter ms → IsBetween n (moves new_counter ms).count
unfolding new_counter
moves-IsBetween n ms a =
    let s = moves new_counter ms in
    Holds-IsBetween n s.count s.opening s.closing
      (moves-Holds n new_counter ms a (omega arith, omega arith, omega arith))

-- What moves on one count do when no other call is in flight.
abbrev apart : List Move → Option ℤ → Option ℤ
apart ms none = none
apart ms (some n) = some (moves (record { count = n; opening = 0; closing = 0 }) ms).count

-- A call that no other overlaps is its test and its change.
module _ (u : UserManager) (k : Str) (ready : length u.cached_users ≡ shard_count) where
  pub add_connection-moves :
      count_of (add_connection u k).0 k ≡ apart (tests_open ∷ opens ∷ []) (count_of u k)
  unfolding moves move has_room
  add_connection-moves =
      ((add_connection-count u k ready k).1 ∙ rw (str_eq_refl k) refl) ∙ go (count_of u k)
    where
      go : (o : Option ℤ) → opened o ≡ apart (tests_open ∷ opens ∷ []) o
      go none = refl
      go (some n) = ground arith

  pub remove_connection-moves :
      count_of (remove_connection u k) k ≡ apart (tests_close ∷ closes ∷ []) (count_of u k)
  unfolding moves move has_open
  remove_connection-moves =
      (remove_connection-count u k ready k ∙ rw (str_eq_refl k) refl) ∙ go (count_of u k)
    where
      go : (o : Option ℤ) → closed o ≡ apart (tests_close ∷ closes ∷ []) o
      go none = refl
      go (some n) = ground arith
