-- ===== src/Checker/Defs.antt =====
-- The operations of Checker.
use mathlib.Core.List.{reverse}
use subnetwork_system_torchl.Prelude.{
  ℕ, ◌+◌, ◌%◌, ◌^◌, Bool, true, false, ◌&&◌, ◌||◌, not, List, [], ◌∷◌, ◌++◌, Option, none, some,
  ltb, leb, if◌then◌else◌,
}
use subnetwork_system_torchl.Text.{Str, codes, str_eq, split, trim, to_lower}
use subnetwork_system_torchl.Cmap
use subnetwork_system_torchl.Cmap.{ConcurrentMap, new_concurrent_map}

pub record CheckerItem : Type 0 where
  pub is_https : Bool
  pub method : Str
  pub url : Str
  pub domain : Str
  pub host : Str
  pub body : Str
  pub success_count : ℕ
  pub fail_count : ℕ

-- `items` and `body` are the fields named data.
pub record Checker : Type 0 where
  pub items : ConcurrentMap CheckerItem
  pub blocked_map : ConcurrentMap Bool
  pub direct_map : ConcurrentMap Bool

abbrev put_line : ConcurrentMap Bool → Str → ConcurrentMap Bool
put_line m [] = m
put_line m (c ∷ line) = Cmap.store m (c ∷ line) true

load_lines : ConcurrentMap Bool → List Str → ConcurrentMap Bool
load_lines m [] = m
load_lines m (line ∷ lines) = load_lines (put_line m (trim (codes "\r \t") line)) lines

-- loadMap; none is a file that is not there or cannot be read.
unfoldable pub load_map : Option Str → ConcurrentMap Bool
unfolding load_lines
load_map none = new_concurrent_map
load_map (some contents) = load_lines new_concurrent_map (split b'\n' contents)

-- NewChecker, on the contents of its two files.
unfoldable pub new_checker : Option Str → Option Str → Checker
new_checker blocked direct = record {
  items = new_concurrent_map;
  blocked_map = load_map blocked;
  direct_map = load_map direct;
}

-- The loop over subSlice from its end: each round puts one more part in front of the domain.
unfoldable pub walk : ConcurrentMap Bool → List Str → Str → Bool
walk m [] domain = false
walk m (part ∷ parts) domain =
    let longer = part ++ b'.' ∷ domain in
    let rest = walk m parts longer in if Cmap.has m longer then true else rest

unfoldable pub walk_back : ConcurrentMap Bool → List Str → Bool
unfolding walk
walk_back m [] = false
walk_back m (top ∷ parts) = walk m parts top

unfoldable pub map_of : Checker → Bool → ConcurrentMap Bool
map_of c true = c.blocked_map
map_of c false = c.direct_map

unfoldable pub host_in : ConcurrentMap Bool → Option Str → Bool
unfolding walk_back
host_in m none = true
host_in m (some host) = walk_back m (reverse (split b'.' host))

-- `hostname` is url.Parse("http://" + address) and its Hostname(); none is an error.
module _ (hostname : Str → Option Str) where
  unfoldable pub domain_is_in_map : Checker → Str → Bool → Bool
  unfolding host_in map_of
  domain_is_in_map c address blocked = host_in (map_of c blocked) (hostname address)

  unfoldable pub is_need_check : Checker → CheckerItem → Bool
  is_need_check c item =
      if (leb 5 item.success_count && ltb item.fail_count item.success_count)
        || (leb 5 item.fail_count && ltb item.fail_count item.success_count)
        || domain_is_in_map c item.host false
        || domain_is_in_map c item.host true
      then false
      else true

  unfoldable pub counted : Option CheckerItem → Bool × ℕ × ℕ
  counted none = (true, 0, 0)
  counted (some item) =
      (leb item.success_count item.fail_count, item.fail_count, item.success_count)

  -- IsBlocked: the answer, and the counts of failures and successes.
  unfoldable pub is_blocked : Checker → Str → Bool × ℕ × ℕ
  unfolding counted
  is_blocked c address =
      if domain_is_in_map c address true
      then (true, 0, 0)
      else if domain_is_in_map c address false
      then (false, 0, 0)
      else counted (Cmap.get c.items address)

  abbrev first_part : List Str → Str
  first_part [] = []
  first_part (p ∷ ps) = p

  unfoldable pub add : Checker → Str → Bool → Str → Str → Str → Checker
  add c address is_https method url body =
      if domain_is_in_map c address false || domain_is_in_map c address true
      then c
      else if not is_https && not (str_eq (to_lower method) (codes "get"))
      then c
      else record c {
        items =
            (Cmap.set_if_absent c.items address (record {
              is_https = is_https;
              method = method;
              url = url;
              domain = first_part (split b':' address);
              host = address;
              body = body;
              success_count = 0;
              fail_count = 0;
            })).0;
      }

  -- What one check of `start` does with the item that it was started for.
  unfoldable pub record_check : Checker → CheckerItem → Bool → Checker
  record_check c item failed =
      if is_need_check c item
      then (let item' =
            if failed
            then record item { fail_count = (item.fail_count + 1) % 2 ^ 64 }
            else record item { success_count = (item.success_count + 1) % 2 ^ 64 } in
          record c { items = Cmap.store c.items item.host item' })
      else c
