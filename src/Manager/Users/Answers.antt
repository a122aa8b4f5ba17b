-- ===== src/Manager/Users/Answers.antt =====
-- What Captain's answer does to the login that waits for it, and to the later ones.
use subnetwork_system_torchl.Prelude.{
  ℕ, ◌+◌, ◌≡◌, refl, none, some, arith, ltb, if◌then◌else◌, length,
}
use subnetwork_system_torchl.Text.{Str, str_eq_refl}
use subnetwork_system_torchl.Dict.{lookup}
use subnetwork_system_torchl.Cmap.Laws.{get-store, length-remove}
use subnetwork_system_torchl.Manager.Models.{User, UserPayload}
use subnetwork_system_torchl.Manager.Users.Defs.{
  UserManager, set_user, remove_user, get_user, verify_user, user_of_payload,
  process_verify_user_response,
}
use subnetwork_system_torchl.Manager.Users.Login.{IsReady}

-- VerifyUser keeps the shards of the cache and the TTL.
pub verify_user-config :
    (u : UserManager) (now : ℕ) (username password pool : Str) (chan : ℕ)
    → let w = (verify_user u now username password pool chan).0 in
      (length w.cached_users ≡ length u.cached_users) × (w.ttl ≡ u.ttl)
unfolding verify_user remove_user
verify_user-config u now username password pool chan =
    ground (arith, length-remove u.cached_users username)

-- A user that was just cached is found until the TTL has passed.
get_user-set_user :
    (u : UserManager) (now later : ℕ) (user : User)
    → IsReady u
    → (get_user (set_user u now user) later user.username).1
      ≡ (if ltb later (now + u.ttl) then some user else none)
unfolding get_user set_user
get_user-set_user u now later user r = ground (
  arith,
  get-store u.cached_users user.username user.username
      (record { user = user; cached_at = now; expire_at = now + u.ttl }) r,
  str_eq_refl user.username,
)

process-some :
    (u : UserManager) (now : ℕ) (p : UserPayload) (chan : ℕ)
    → lookup p.username u.pending_validations ≡ some chan
    → process_verify_user_response u now p ≡ (set_user u now (user_of_payload p), some chan)
unfolding process_verify_user_response set_user
process-some u now p chan e = rw e refl

module _ (u : UserManager) (now : ℕ) (p : UserPayload) where
  -- Captain's answer goes to the login that registered last under the user's name; if none waits,
  -- the answer changes nothing. The user is then found until the TTL has passed.
  pub process-answers :
      (chan later : ℕ)
      → IsReady u
      → lookup p.username u.pending_validations ≡ some chan
      → ((process_verify_user_response u now p).1 ≡ some chan)
        × ((get_user (process_verify_user_response u now p).0 later p.username).1
            ≡ (if ltb later (now + u.ttl) then some (user_of_payload p) else none))
  process-answers chan later r e =
      rw (process-some u now p chan e)
        (refl, unfold user_of_payload in get_user-set_user u now later (user_of_payload p) r)

  pub process-unanswered :
      lookup p.username u.pending_validations ≡ none
      → process_verify_user_response u now p ≡ (u, none)
  unfolding process_verify_user_response
  process-unanswered e = rw e refl
