-- ===== src/Captain/Users/Notices.antt =====
-- Which changes of a user Captain tells its workers.
use subnetwork_system_torchl.Prelude.{ℕ, ◌≡◌, List, [], ◌∷◌, some, if◌then◌else◌, ◌==◌, arith}
use subnetwork_system_torchl.Text.{Str, codes}
use subnetwork_system_torchl.Manager.Models.{Uuid}
use subnetwork_system_torchl.Captain.Replies.{
  Answer, rows, json, user_change, respond_code, respond_message,
}
use subnetwork_system_torchl.Captain.Users.Defs.{
  UserRow, name_of, removed, remove_user_allow_pool, remove_user_ip_whitelist,
}
use subnetwork_system_torchl.Captain.Users.Handlers.{
  remove_user_allow_pool_handler, remove_user_ip_whitelist_handler,
}

-- The same request to remove nothing is answered 404 for a pool and 200 for an address. Whatever is
-- removed, the workers are told once, and if nothing was, they are told nothing.
pub remove_handlers_lem :
    (query : Uuid → Answer UserRow) (delete : Uuid → List Str → Answer ℕ) (id : Uuid)
    (names : List Str) (user : UserRow) (affected : ℕ)
    → query id ≡ rows user
    → delete id names ≡ rows affected
    → let notes = if affected == 0 then [] else user_change user.username ∷ [] in
      (remove_user_allow_pool_handler query delete (some id) (some names) ≡ (
        if affected == 0
            then json 404 (codes "Nothing deleted from the database")
            else json 200 (codes "pool removed"),
        notes,
      ))
      × (remove_user_ip_whitelist_handler query delete (some id) (some names) ≡ (
        json 200 (
            if affected == 0
            then codes "Nothing deleted from the database"
            else codes "ip whitelist removed"),
        notes,
      ))
unfolding remove_user_allow_pool_handler remove_user_ip_whitelist_handler remove_user_allow_pool
    remove_user_ip_whitelist removed name_of respond_code respond_message
remove_handlers_lem query delete id names user affected e f =
    (rw (e, f) (ground arith), rw (e, f) (ground arith))
