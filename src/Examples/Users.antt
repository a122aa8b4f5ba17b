-- ===== src/Examples/Users.antt =====
-- Logins and connection counts, run.
use subnetwork_system_torchl.Prelude.{
  ◌≡◌, refl, ◌↔◌, true, false, List, ◌+ℤ◌, [], ◌∷◌, some, pos, arith, length,
}
use subnetwork_system_torchl.Text.{codes, str_eq, split, atoi}
use subnetwork_system_torchl.Dict.{lookup, insert}
use subnetwork_system_torchl.Cmap
use subnetwork_system_torchl.Cmap.{new_concurrent_map, store, get, shard_index, shard_count}
use subnetwork_system_torchl.Cmap.Laws.{length-store}
use subnetwork_system_torchl.Manager.Models.{PoolLimit, User, CachedUser, UserPayload}
use subnetwork_system_torchl.Manager.Users.{
  UserManager, verify_user, answer, user_of_payload, parse_pools, pool_allows, parse_pool,
}
use subnetwork_system_torchl.Manager.Users.Login.{IsAccepted, verify_user-accepts_iff}
use subnetwork_system_torchl.Manager.Users.Connections.{count_of}
use subnetwork_system_torchl.Manager.Users.Races.{
  Move, tests_open, opens, tests_close, closes, move, moves, new_counter, AtMost, IsBetween,
  moves-IsBetween,
}
use subnetwork_system_torchl.Manager.Users.{has_room, has_open}

abbrev alice : UserPayload
alice = record {
  id = codes "1";
  username = codes "alice";
  password = codes "pw";
  status = codes "active";
  ip_whitelist = [];
  pools = codes "us:100:99" ∷ codes "eu:10:10" ∷ codes "bad" ∷ [];
}

abbrev us : PoolLimit
us = record { tag = codes "us"; data_limit = pos 100; data_usage = pos 99 }

abbrev eu : PoolLimit
eu = record { tag = codes "eu"; data_limit = pos 10; data_usage = pos 10 }

abbrev alice_user : User
alice_user = record {
  id = codes "1";
  username = codes "alice";
  password = codes "pw";
  status = codes "active";
  ip_whitelist = [];
  pools = us ∷ eu ∷ [];
  sessions = [];
  connection_count = pos 3;
}

alice_parsed : (user_of_payload alice).pools ≡ us ∷ eu ∷ []
unfolding user_of_payload parse_pools parse_pool split atoi
alice_parsed = refl

abbrev cached : CachedUser
cached = record { user = alice_user; cached_at = 0; expire_at = 900 }

abbrev known : UserManager
known = record {
  cached_users = store new_concurrent_map (codes "alice") cached;
  pending_validations = (codes "bob", 4) ∷ [];
  ttl = 900;
}

known-IsReady : length known.cached_users ≡ shard_count
unfolding new_concurrent_map
known-IsReady = length-store new_concurrent_map (codes "alice") cached

known_get : Cmap.get known.cached_users (codes "alice") ≡ some cached
unfolding get store new_concurrent_map shard_index insert lookup str_eq
known_get = refl

-- A login with the right password on the pool "us", and one on "eu", whose data is used up.
accepted : (verify_user known 899 (codes "alice") (codes "pw") (codes "us") 5).1 ≡ answer true
unfolding verify_user pool_allows str_eq
accepted = rw known_get refl

refused : (verify_user known 899 (codes "alice") (codes "pw") (codes "eu") 5).1 ≡ answer false
unfolding verify_user pool_allows str_eq
refused = rw known_get refl

verify_user-accepts_iff_example :
    ((verify_user known 899 (codes "alice") (codes "pw") (codes "us") 5).1 ≡ answer true)
    ↔ IsAccepted known 899 (codes "alice") (codes "pw") (codes "us")
verify_user-accepts_iff_example =
    verify_user-accepts_iff known 899 (codes "alice") (codes "pw") (codes "us") 5

abbrev bob : UserPayload
bob = record {
  id = codes "2";
  username = codes "bob";
  password = codes "x";
  status = codes "banned";
  ip_whitelist = [];
  pools = [];
}

abbrev idle : UserManager
idle = record {
  cached_users = store new_concurrent_map (codes "alice") (record {
    user = record alice_user { connection_count = pos 0 };
    cached_at = 0;
    expire_at = 900;
  });
  pending_validations = [];
  ttl = 900;
}

idle-IsReady : length idle.cached_users ≡ shard_count
unfolding new_concurrent_map
idle-IsReady = length-store new_concurrent_map (codes "alice") (record {
  user = record alice_user { connection_count = pos 0 };
  cached_at = 0;
  expire_at = 900;
})

idle_count : count_of idle (codes "alice") ≡ some (pos 0)
unfolding count_of get store new_concurrent_map shard_index insert lookup str_eq
idle_count = refl

-- Two calls at 49 that overlap go past the limit.
overlap_at_49 :
    (moves
      (record { count = pos 49; opening = 0; closing = 0 })
      (tests_open ∷ tests_open ∷ opens ∷ opens ∷ [])).count
    ≡ pos 51
unfolding moves move has_room ◌+ℤ◌
overlap_at_49 = refl

-- Two openings that overlap, and a closing.
abbrev overlapping : List Move
overlapping = tests_open ∷ tests_open ∷ opens ∷ opens ∷ tests_close ∷ closes ∷ []

overlapping-AtMost : AtMost 2 new_counter overlapping
unfolding AtMost new_counter move has_room has_open ◌+ℤ◌
overlapping-AtMost = (
  omega arith,
  omega arith,
  (
    omega arith,
    omega arith,
    (
      omega arith,
      omega arith,
      (omega arith, omega arith, (omega arith, omega arith, (omega arith, omega arith, tt))),
    ),
  ),
)

moves-IsBetween_example : IsBetween 2 (moves new_counter overlapping).count
moves-IsBetween_example = moves-IsBetween 2 overlapping overlapping-AtMost
