-- ===== src/Captain/Users/Defs.antt =====
-- captain/internal/server/service/user_service.go: the operations on users, their pools and their
-- addresses. Each query of the database is an argument. Time stamps are left out.
use subnetwork_system_torchl.Prelude.{
  ℕ, Bool, List, [], ◌∷◌, map, Option, none, some, if◌then◌else◌, ℤ, ◌==◌,
}
use subnetwork_system_torchl.Text.{Str, codes}
use subnetwork_system_torchl.Manager.Models.{Uuid}
use subnetwork_system_torchl.Captain.Replies.{
  Answer, rows, no_rows, broken, Ret, done, failed, crashed, user_change, Noted, ok_200,
  created_201, not_found_404, internal_500,
}

pub record PoolDataStat : Type 0 where
  pub pool : Str
  pub data_limit : ℤ

-- The pointers of a decoded body; none is nil.
pub record CreateUserRequest : Type 0 where
  pub allow_pools : Option (List PoolDataStat)
  pub ip_whitelist : Option (List Str)

-- A user as the insertion returns it.
pub record NewUser : Type 0 where
  pub id : Uuid
  pub username : Str
  pub password : Str
  pub status : Str

pub record CreateUserResponse : Type 0 where
  pub user : NewUser
  pub ip_whitelist : List Str
  pub allow_pools : List Str

-- The queries inside the transaction; `create` gets the random name and password.
pub record UserQueries (S : Type 0) : Type 0 where
  pub begins : Bool
  pub create : S → Answer (NewUser × S)
  pub add_pools : S → Uuid → List Str → List ℤ → Answer (List Str × S)
  pub add_whitelist : S → Uuid → List Str → Answer (List Str × S)
  pub commits : Bool

abbrev create_failed : {A : Type 0} → Ret A
create_failed = failed internal_500 (codes "failed to create user")

module _ {S : Type 0} (q : UserQueries S) (s : S) where
  -- A query that is made only if there is something to insert; without it the row is the zero value.
  unfoldable pub pools_step : NewUser → S → Option (List PoolDataStat) → Answer (List Str × S)
  pools_step user t none = rows ([], t)
  pools_step user t (some []) = rows ([], t)
  pools_step user t (some (p ∷ ps)) =
      q.add_pools t user.id (map (λ x. x.pool) (p ∷ ps)) (map (λ x. x.data_limit) (p ∷ ps))

  unfoldable pub whitelist_step : NewUser → S → Option (List Str) → Answer (List Str × S)
  whitelist_step user t none = rows ([], t)
  whitelist_step user t (some []) = rows ([], t)
  whitelist_step user t (some (ip ∷ ips)) = q.add_whitelist t user.id (ip ∷ ips)

  unfoldable pub commit : NewUser → List Str → List Str → S → Ret CreateUserResponse × S
  commit user pools ips t =
      if q.commits
      then (
        done (record { user = user; ip_whitelist = ips; allow_pools = pools }) created_201
            (codes "user created"),
        t,
      )
      else (create_failed, s)

  unfoldable pub whitelisted :
      NewUser → List Str → Answer (List Str × S) → Ret CreateUserResponse × S
  unfolding commit
  whitelisted user pools (rows (ips, t)) = commit user pools ips t
  whitelisted user pools no_rows = (create_failed, s)
  whitelisted user pools broken = (create_failed, s)

  unfoldable pub pooled :
      CreateUserRequest → NewUser → Answer (List Str × S) → Ret CreateUserResponse × S
  unfolding whitelist_step whitelisted
  pooled req user (rows (pools, t)) =
      whitelisted user pools (whitelist_step user t req.ip_whitelist)
  pooled req user no_rows = (create_failed, s)
  pooled req user broken = (create_failed, s)

  unfoldable pub user_created :
      CreateUserRequest → Answer (NewUser × S) → Ret CreateUserResponse × S
  unfolding pools_step pooled
  user_created req (rows (user, t)) = pooled req user (pools_step user t req.allow_pools)
  user_created req no_rows = (create_failed, s)
  user_created req broken = (create_failed, s)

  -- CreateUser: its results, and the state of the database behind it.
  unfoldable pub create_user : CreateUserRequest → Ret CreateUserResponse × S
  unfolding user_created
  create_user req = if q.begins then user_created req (q.create s) else (create_failed, s)

-- A row of GetUserbyId and GetAllusers.
pub record UserRow : Type 0 where
  pub id : Uuid
  pub username : Str
  pub password : Str
  pub status : Str
  pub ip_whitelist : List Str
  pub pools : List Str

unfoldable pub get_user_by_id : Answer UserRow → Ret UserRow
get_user_by_id (rows user) = done user ok_200 []
get_user_by_id no_rows = failed not_found_404 (codes "user not found")
get_user_by_id broken = failed internal_500 (codes "cant get user by id")

unfoldable pub get_users : Answer (List UserRow) → Ret (List UserRow)
get_users (rows users) = done users ok_200 []
get_users no_rows = failed internal_500 (codes "cant get users")
get_users broken = failed internal_500 (codes "cant get users")

abbrev status_arg : Option Str → Option Str
status_arg none = none
status_arg (some []) = none
status_arg (some (c ∷ s)) = some (c ∷ s)

pub record UpdateUserResponse : Type 0 where
  pub id : Uuid
  pub status : Str

status_updated : Answer NewUser → Noted UpdateUserResponse
status_updated (rows user) =
    (done (record { id = user.id; status = user.status }) ok_200 [], user_change user.username ∷ [])
status_updated no_rows = (failed not_found_404 (codes "user not found"), [])
status_updated broken = (failed internal_500 (codes "server error"), [])

-- UpdateUserStatus; the argument of the query is a NullString, so that none keeps the status.
unfoldable pub update_user_status :
    (Option Str → Answer NewUser) → Option Str → Noted UpdateUserResponse
unfolding status_updated
update_user_status query status = status_updated (query (status_arg status))

-- The name of a user whose query's error is not looked at; it is empty on an error.
unfoldable pub name_of : Answer UserRow → Str
name_of (rows user) = user.username
name_of _ = []

unfoldable pub delete_user : Answer UserRow → Answer (Unit {0}) → Noted (Unit {0})
unfolding name_of
delete_user user (rows _) = (done tt ok_200 (codes "user deleted"), user_change (name_of user) ∷ [])
delete_user user no_rows = (failed not_found_404 (codes "user not found"), [])
delete_user user broken = (failed internal_500 (codes "server error"), [])

-- The rows that AddUserPoolsByPoolTags has inserted.
pub record AddedPools : Type 0 where
  pub inserted_tags : List Str
  pub inserted_data_limits : List ℤ

stat_with : Str → ℤ → Option (List PoolDataStat) → Option (List PoolDataStat)
stat_with tag limit none = none
stat_with tag limit (some stats) = some (record { pool = tag; data_limit = limit } ∷ stats)

-- The loop over InsertedDataLimits, with InsertedTags[i]; none is out of range.
unfoldable pub pair_limits : List Str → List ℤ → Option (List PoolDataStat)
unfolding stat_with
pair_limits tags [] = some []
pair_limits [] (limit ∷ limits) = none
pair_limits (tag ∷ tags) (limit ∷ limits) = stat_with tag limit (pair_limits tags limits)

pools_added : Answer UserRow → Option (List PoolDataStat) → Noted (List PoolDataStat)
unfolding name_of
pools_added user none = (crashed, [])
pools_added user (some stats) = (done stats created_201 [], user_change (name_of user) ∷ [])

pools_answered : Answer UserRow → Answer AddedPools → Noted (List PoolDataStat)
unfolding pools_added
pools_answered user (rows added) =
    pools_added user (pair_limits added.inserted_tags added.inserted_data_limits)
pools_answered user no_rows = (failed not_found_404 (codes "Nothing added to the database"), [])
pools_answered user broken = (failed internal_500 (codes "server error"), [])

-- AddUserAllowPool
unfoldable pub add_user_allow_pool :
    (List Str → List ℤ → Answer AddedPools)
    → Answer UserRow
    → List PoolDataStat
    → Noted (List PoolDataStat)
unfolding pools_answered
add_user_allow_pool query user pools =
    pools_answered user (query (map (λ p. p.pool) pools) (map (λ p. p.data_limit) pools))

-- GetDataUsage, whose rows are copied field by field.
pub record DataUsage : Type 0 where
  pub data_limit : ℤ
  pub data_usage : ℤ
  pub pool_tag : Str

unfoldable pub get_data_usage : Answer (List DataUsage) → Ret (List DataUsage)
get_data_usage (rows usages) = done usages ok_200 []
get_data_usage _ = failed internal_500 (codes "server error")

-- RemoveUserAllowPool and RemoveUserIpWhitelist, on the number of rows affected.
unfoldable pub removed : Str → Answer UserRow → Answer ℕ → Noted (Unit {0})
unfolding name_of
removed message user (rows affected) =
    if affected == 0
    then (done tt not_found_404 (codes "Nothing deleted from the database"), [])
    else (done tt ok_200 message, user_change (name_of user) ∷ [])
removed message user _ = (failed internal_500 (codes "server error"), [])

unfoldable pub remove_user_allow_pool : Answer UserRow → Answer ℕ → Noted (Unit {0})
unfolding removed
remove_user_allow_pool user affected = removed (codes "pool removed") user affected

unfoldable pub remove_user_ip_whitelist : Answer UserRow → Answer ℕ → Noted (Unit {0})
unfolding removed
remove_user_ip_whitelist user affected = removed (codes "ip whitelist removed") user affected

-- AddUserIpWhitelist
unfoldable pub add_user_ip_whitelist : Answer UserRow → Answer (List Str) → Noted (List Str)
unfolding name_of
add_user_ip_whitelist user (rows ips) = (done ips created_201 [], user_change (name_of user) ∷ [])
add_user_ip_whitelist user no_rows =
    (failed not_found_404 (codes "nothing added to the database"), [])
add_user_ip_whitelist user broken = (failed internal_500 (codes "server error"), [])

-- GetUserAllowPools and GetUserIpWhitelist
unfoldable pub get_user_allow_pools : Answer (List Str) → Ret (List Str)
get_user_allow_pools (rows tags) = done tags ok_200 []
get_user_allow_pools no_rows = failed not_found_404 (codes "pools not found")
get_user_allow_pools broken = failed internal_500 (codes "server error")

unfoldable pub get_user_ip_whitelist : Answer (List Str) → Ret (List Str)
get_user_ip_whitelist (rows ips) = done ips ok_200 []
get_user_ip_whitelist no_rows = failed not_found_404 (codes "user ip whitelist not found")
get_user_ip_whitelist broken = failed internal_500 (codes "server error")
