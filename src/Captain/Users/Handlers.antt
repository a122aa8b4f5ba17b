-- ===== src/Captain/Users/Handlers.antt =====
-- captain/internal/server/handlers/user_handler.go. `id` is what uuid.Parse made of the URL's id and a
-- body is what the JSON decoder made of it; none is an error.
use subnetwork_system_torchl.Prelude.{ℕ, List, [], Option, none, some, ℤ}
use subnetwork_system_torchl.Text.{Str, codes}
use subnetwork_system_torchl.Manager.Models.{Uuid}
use subnetwork_system_torchl.Captain.Replies.{
  Answer, Response, error, Note, ok_200, created_201, bad_request_400, internal_500, respond,
  respond_message, respond_code,
}
use subnetwork_system_torchl.Captain.Users.Defs.{
  PoolDataStat, CreateUserRequest, NewUser, CreateUserResponse, UserQueries, create_user, UserRow,
  get_user_by_id, get_users, UpdateUserResponse, update_user_status, delete_user, AddedPools,
  add_user_allow_pool, DataUsage, get_data_usage, remove_user_allow_pool, remove_user_ip_whitelist,
  add_user_ip_whitelist, get_user_allow_pools, get_user_ip_whitelist,
}

abbrev invalid_id : {A : Type 0} → Response A
invalid_id = error bad_request_400 (codes "invalid user id")

abbrev server_error : {A : Type 0} → Response A
server_error = error internal_500 (codes "server error")

unfoldable pub create_user_handler :
    {S : Type 0} → UserQueries S → S → Option CreateUserRequest → Response CreateUserResponse × S
create_user_handler q s none = (error bad_request_400 (codes "invalid request body"), s)
create_user_handler q s (some req) =
    let (r, s') = create_user q s req in (respond created_201 r, s')

unfoldable pub get_user_by_id_handler : (Uuid → Answer UserRow) → Option Uuid → Response UserRow
get_user_by_id_handler query none = error internal_500 (codes "incorrect user id")
get_user_by_id_handler query (some id) = respond ok_200 (get_user_by_id (query id))

unfoldable pub get_users_handler : Answer (List UserRow) → Response (List UserRow)
get_users_handler answer = respond ok_200 (get_users answer)

unfoldable pub update_user_status_handler :
    (Uuid → Option Str → Answer NewUser)
    → Option Uuid
    → Option (Option Str)
    → Response UpdateUserResponse × List Note
update_user_status_handler query none body = (invalid_id, [])
update_user_status_handler query (some id) none = (error bad_request_400 (codes "invalid body"), [])
update_user_status_handler query (some id) (some status) =
    let (r, notes) = update_user_status (query id) status in (respond ok_200 r, notes)

-- The reply says "user deleted", which is the service's message.
unfoldable pub delete_user_handler :
    (Uuid → Answer UserRow) → (Uuid → Answer (Unit {0})) → Option Uuid → Response Str × List Note
delete_user_handler query delete none = (invalid_id, [])
delete_user_handler query delete (some id) =
    let (r, notes) = delete_user (query id) (delete id) in (respond_message ok_200 r, notes)

unfoldable pub get_data_usage_handler :
    (Uuid → Answer (List DataUsage)) → Option Uuid → Response (List DataUsage)
get_data_usage_handler query none = invalid_id
get_data_usage_handler query (some id) = respond ok_200 (get_data_usage (query id))

unfoldable pub get_user_allow_pools_handler :
    (Uuid → Answer (List Str)) → Option Uuid → Response (List Str)
get_user_allow_pools_handler query none = invalid_id
get_user_allow_pools_handler query (some id) = respond ok_200 (get_user_allow_pools (query id))

unfoldable pub get_user_ip_whitelist_handler :
    (Uuid → Answer (List Str)) → Option Uuid → Response (List Str)
get_user_ip_whitelist_handler query none = invalid_id
get_user_ip_whitelist_handler query (some id) = respond ok_200 (get_user_ip_whitelist (query id))

-- The four handlers that change what a user may use. `user` is the GetUserbyId behind the change.
module _ (user : Uuid → Answer UserRow) where
  unfoldable pub add_user_allow_pool_handler :
      (Uuid → List Str → List ℤ → Answer AddedPools)
      → Option Uuid
      → Option (List PoolDataStat)
      → Response (List PoolDataStat) × List Note
  add_user_allow_pool_handler query none body = (invalid_id, [])
  add_user_allow_pool_handler query (some id) none = (server_error, [])
  add_user_allow_pool_handler query (some id) (some pools) =
      let (r, notes) = add_user_allow_pool (query id) (user id) pools in
      (respond created_201 r, notes)

  -- Answers with the code of the service.
  unfoldable pub remove_user_allow_pool_handler :
      (Uuid → List Str → Answer ℕ) → Option Uuid → Option (List Str) → Response Str × List Note
  remove_user_allow_pool_handler delete none body = (invalid_id, [])
  remove_user_allow_pool_handler delete (some id) none = (server_error, [])
  remove_user_allow_pool_handler delete (some id) (some tags) =
      let (r, notes) = remove_user_allow_pool (user id) (delete id tags) in (respond_code r, notes)

  unfoldable pub add_user_ip_whitelist_handler :
      (Uuid → List Str → Answer (List Str))
      → Option Uuid
      → Option (List Str)
      → Response (List Str) × List Note
  add_user_ip_whitelist_handler insert none body = (invalid_id, [])
  add_user_ip_whitelist_handler insert (some id) none = (server_error, [])
  add_user_ip_whitelist_handler insert (some id) (some ips) =
      let (r, notes) = add_user_ip_whitelist (user id) (insert id ips) in
      (respond created_201 r, notes)

  -- Answers 200 where the handler of pools answers with the code of the service.
  unfoldable pub remove_user_ip_whitelist_handler :
      (Uuid → List Str → Answer ℕ) → Option Uuid → Option (List Str) → Response Str × List Note
  remove_user_ip_whitelist_handler delete none body = (invalid_id, [])
  remove_user_ip_whitelist_handler delete (some id) none = (server_error, [])
  remove_user_ip_whitelist_handler delete (some id) (some ips) =
      let (r, notes) = remove_user_ip_whitelist (user id) (delete id ips) in
      (respond_message ok_200 r, notes)
