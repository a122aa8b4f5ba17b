-- ===== src/Manager/Users/Defs.antt =====
-- The operations of UserManager. `now` is the clock that a call reads. A cached `*User` is reached
-- through the cache alone, so a write through the pointer is a write of the cache's entry.
use subnetwork_system_torchl.Prelude.{
  ℕ, ◌+◌, Bool, true, false, ◌&&◌, List, [], ◌∷◌, Option, none, some, ltb, if◌then◌else◌, ℤ, pos,
  ◌+ℤ◌, ◌-ℤ◌, ltb_ℤ, leb_ℤ,
}
use subnetwork_system_torchl.Text.{Str, codes, str_eq, split, atoi}
use subnetwork_system_torchl.Dict.{Dict, lookup, insert, delete}
use subnetwork_system_torchl.Cmap
use subnetwork_system_torchl.Cmap.{ConcurrentMap}
use subnetwork_system_torchl.Manager.Models.{
  hour, PoolLimit, User, CachedUser, UserPayload, UserLoginPayload,
}

-- `pending_validations` maps a user name to the channel that a login waits on.
pub record UserManager : Type 0 where
  pub cached_users : ConcurrentMap CachedUser
  pub pending_validations : Dict ℕ
  pub ttl : ℕ

unfoldable pub new_user_manager : UserManager
new_user_manager = record {
  cached_users = Cmap.new_concurrent_map;
  pending_validations = [];
  ttl = hour;
}

unfoldable pub set_user : UserManager → ℕ → User → UserManager
set_user u now user = record u {
  cached_users =
      Cmap.store u.cached_users user.username
        (record { user = user; cached_at = now; expire_at = now + u.ttl });
}

unfoldable pub remove_user : UserManager → Str → UserManager
remove_user u username = record u { cached_users = Cmap.remove u.cached_users username }

get_cached : UserManager → ℕ → Str → Option CachedUser → UserManager × Option User
unfolding remove_user
get_cached u now username none = (u, none)
get_cached u now username (some c) =
    if ltb now c.expire_at then (u, some c.user) else (remove_user u username, none)

unfoldable pub get_user : UserManager → ℕ → Str → UserManager × Option User
unfolding get_cached
get_user u now username = get_cached u now username (Cmap.get u.cached_users username)

-- One round of `cleanupLoop` over the entries that IterBuffered delivered.
unfoldable pub cleanup : UserManager → ℕ → Dict CachedUser → UserManager
unfolding remove_user
cleanup u now [] = u
cleanup u now ((key, c) ∷ items) =
    cleanup (if ltb c.expire_at now then remove_user u key else u) now items

-- The loop over user.Pools: the first pool with the tag decides.
unfoldable pub pool_allows : Str → List PoolLimit → Bool
pool_allows pool [] = false
pool_allows pool (p ∷ pools) =
    if str_eq p.tag pool then ltb_ℤ p.data_usage p.data_limit else pool_allows pool pools

-- What VerifyUser has decided: an answer, or an event to send and a channel to wait on.
pub data Verify : Type 0 where
  answer : Bool → Verify
  wait : UserLoginPayload → Verify

-- The cached user's password, status and pool, as VerifyUser tests them.
unfoldable pub login_allowed : User → Str → Str → Bool
unfolding pool_allows
login_allowed user password pool =
    str_eq user.password password
    && str_eq user.status (codes "active")
    && pool_allows pool user.pools

verify_cached : UserManager → Str → Str → Str → ℕ → Option User → UserManager × Verify
unfolding remove_user login_allowed
verify_cached u username password pool chan (some user) =
    if login_allowed user password pool
    then (u, answer true)
    else (remove_user u username, answer false)
verify_cached u username password pool chan none = (
  record u { pending_validations = insert username chan u.pending_validations },
  wait (record { username = username; password = password }),
)

-- VerifyUser up to its `select`; `chan` is the channel that it makes.
unfoldable pub verify_user : UserManager → ℕ → Str → Str → Str → ℕ → UserManager × Verify
unfolding get_user verify_cached
verify_user u now username password pool chan =
    let (u', found) = get_user u now username in verify_cached u' username password pool chan found

-- The deferred Delete, when the wait of VerifyUser ends by a result or by the timeout.
unfoldable pub verify_done : UserManager → Str → UserManager
verify_done u username = record u { pending_validations = delete username u.pending_validations }

limit_of : Str → ℤ × Bool → ℤ × Bool → Option PoolLimit
limit_of tag (data_limit, true) (data_usage, true) =
    some (record { tag = tag; data_limit = data_limit; data_usage = data_usage })
limit_of tag (data_limit, true) (data_usage, false) = none
limit_of tag (data_limit, false) data_usage = none

pool_of_parts : List Str → Option PoolLimit
unfolding limit_of
pool_of_parts [] = none
pool_of_parts (tag ∷ []) = none
pool_of_parts (tag ∷ limit ∷ []) = none
pool_of_parts (tag ∷ limit ∷ usage ∷ rest) = limit_of tag (atoi limit) (atoi usage)

-- One round of the loop over userPayload.Pools; none is `continue`.
unfoldable pub parse_pool : Str → Option PoolLimit
unfolding pool_of_parts
parse_pool pool = pool_of_parts (split b':' pool)

add_pool : Option PoolLimit → List PoolLimit → List PoolLimit
add_pool none pools = pools
add_pool (some p) pools = p ∷ pools

unfoldable pub parse_pools : List Str → List PoolLimit
unfolding add_pool
parse_pools [] = []
parse_pools (pool ∷ pools) = add_pool (parse_pool pool) (parse_pools pools)

unfoldable pub user_of_payload : UserPayload → User
user_of_payload p = record {
  id = p.id;
  username = p.username;
  password = p.password;
  status = p.status;
  ip_whitelist = p.ip_whitelist;
  pools = parse_pools p.pools;
  sessions = [];
  connection_count = pos 0;
}

process_pending : UserManager → ℕ → UserPayload → Option ℕ → UserManager × Option ℕ
unfolding set_user
process_pending u now p none = (u, none)
process_pending u now p (some chan) = (set_user u now (user_of_payload p), some chan)

-- processVerifyUserResponse up to its last statement: the new state, and the channel on which it then
-- sends `true`. The channel has no buffer, so the caller is held there until the login receives.
unfoldable pub process_verify_user_response : UserManager → ℕ → UserPayload → UserManager × Option ℕ
unfolding process_pending
process_verify_user_response u now p =
    process_pending u now p (lookup p.username u.pending_validations)

abbrev pub max_connections : ℤ
max_connections = pos 50

pub data ConnectionError : Type 0 where
  too_many not_found : ConnectionError

unfoldable pub set_count : UserManager → Str → CachedUser → ℤ → UserManager
set_count u username c n = record u {
  cached_users =
      Cmap.store u.cached_users username
        (record c { user = record c.user { connection_count = n } });
}

-- The two tests on a connection count.
unfoldable pub has_room : ℤ → Bool
has_room n = ltb_ℤ n max_connections

unfoldable pub has_open : ℤ → Bool
has_open n = leb_ℤ (pos 0) n

add_cached : UserManager → Str → Option CachedUser → UserManager × Option ConnectionError
unfolding has_room
add_cached u username none = (u, some not_found)
add_cached u username (some c) =
    if has_room c.user.connection_count
    then (set_count u username c (c.user.connection_count +ℤ pos 1), none)
    else (u, some too_many)

-- addConnection; none is the nil error. No lock is held from its test to its increment: this is a
-- call that no other call on the same user overlaps, and Races has the ones that do.
unfoldable pub add_connection : UserManager → Str → UserManager × Option ConnectionError
unfolding add_cached
add_connection u username = add_cached u username (Cmap.get u.cached_users username)

remove_cached : UserManager → Str → Option CachedUser → UserManager
unfolding has_open
remove_cached u username none = u
remove_cached u username (some c) =
    if has_open c.user.connection_count
    then set_count u username c (c.user.connection_count -ℤ pos 1)
    else u

-- removeConnection, likewise.
unfoldable pub remove_connection : UserManager → Str → UserManager
unfolding remove_cached
remove_connection u username = remove_cached u username (Cmap.get u.cached_users username)

-- One round of `resetConnectionCount` over the entries that Items returned.
unfoldable pub reset_connection_count : UserManager → Dict CachedUser → UserManager
reset_connection_count u [] = u
reset_connection_count u ((item, c) ∷ items) =
    reset_connection_count (set_count u item c (pos 0)) items
