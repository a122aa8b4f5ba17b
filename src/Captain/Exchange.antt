-- ===== src/Captain/Exchange.antt =====
-- The two sides of the link together: what a worker asks, Captain answers and the worker does with it.
use subnetwork_system_torchl.Prelude.{
  ℕ, ◌≡◌, [], ◌∷◌, ◌++◌, Option, none, some, if◌then◌else◌, arith, ◌∙◌,
}
use subnetwork_system_torchl.Text.{Str, str_eq, itoa}
use subnetwork_system_torchl.Dict.{lookup}
use subnetwork_system_torchl.Manager.Models.{UserPayload, UserLoginPayload}
use subnetwork_system_torchl.Manager.Users.{
  UserManager, verify_user, process_verify_user_response, wait,
}
use subnetwork_system_torchl.Manager.Users.Answers.{process-answers, verify_user-config}
use subnetwork_system_torchl.Manager.Users.Login.{IsReady, verify_user-waits}
use subnetwork_system_torchl.Captain.Workers.{Worker, login_success, send}
use subnetwork_system_torchl.Captain.Events.{wrong_password, handle_login, ConfigRow}

-- A login that the cache cannot decide, and whose user Captain knows under that name, is decided by
-- the password alone: Captain answers exactly if the passwords agree, whatever the status, pools and
-- quota of the user are, and its answer lets the waiting login in.
pub handle_login-process :
    (query : Str → Option UserPayload) (w : Worker) (u : UserManager) (now answered : ℕ)
    (username password pool : Str) (chan : ℕ) (e : UserLoginPayload) (user : UserPayload)
    → IsReady u
    → (verify_user u now username password pool chan).1 ≡ wait e
    → query username ≡ some user
    → user.username ≡ username
    → let r = handle_login query w (some e) in
      let u' = (verify_user u now username password pool chan).0 in
      (r.1 ≡ (if str_eq user.password password then none else some wrong_password))
      × (r.0.egress ≡ (
          if str_eq user.password password then w.egress ++ login_success user ∷ [] else w.egress))
      × ((process_verify_user_response u' answered user).1 ≡ some chan)
unfolding handle_login send
handle_login-process query w u now answered username password pool chan e user r h q n =
    let (pending, asked) = verify_user-waits u now username password pool chan e h in
    let u' = (verify_user u now username password pool chan).0 in
    let ready : IsReady u' = (verify_user-config u now username password pool chan).0 ∙ r in
    let waiting : lookup user.username u'.pending_validations ≡ some chan = rw n pending in
    (
      rw (asked, q) (ground arith),
      rw (asked, q) (ground arith),
      (process-answers u' answered user chan answered ready waiting).0,
    )

abbrev pub row_address : ConfigRow → Str
row_address r = r.upstream_address ++ b':' ∷ itoa r.upstream_port
