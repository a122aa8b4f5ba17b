-- ===== src/Examples/Controller.antt =====
-- Captain's side, run, and the two sides together.
use subnetwork_system_torchl.Prelude.{◌≡◌, refl, ◌≤◌, [], ◌∷◌, Option, none, some, length}
use subnetwork_system_torchl.Text.{Str, codes, str_eq}
use subnetwork_system_torchl.Cmap
use subnetwork_system_torchl.Cmap.Laws.{get-new_concurrent_map}
use subnetwork_system_torchl.Manager.Models.{UserPayload}
use subnetwork_system_torchl.Manager.Users.{
  new_user_manager, verify_user, process_verify_user_response, wait,
}
use subnetwork_system_torchl.Captain.Otp.{
  issues, verifies, ticks, accepted, issued, accepted-issued,
}
use subnetwork_system_torchl.Captain.Workers.{Worker, login_success}
use subnetwork_system_torchl.Captain.Events.{handle_login}
use subnetwork_system_torchl.Captain.Exchange.{handle_login-process}

accepted-issued_example :
    accepted (codes "k") [] (
      issues 1 (codes "k") (codes "w")
      ∷ verifies (codes "k")
      ∷ verifies (codes "k")
      ∷ ticks 10 20
      ∷ [])
    ≤ 1
unfolding issued str_eq
accepted-issued_example = accepted-issued (codes "k") (
    issues 1 (codes "k") (codes "w")
    ∷ verifies (codes "k")
    ∷ verifies (codes "k")
    ∷ ticks 10 20
    ∷ [])

abbrev first : Worker
first = record { id = codes "w"; name = codes "w1"; pool_id = codes "p"; egress = [] }

abbrev bob : UserPayload
bob = record {
  id = codes "2";
  username = codes "bob";
  password = codes "x";
  status = codes "banned";
  ip_whitelist = [];
  pools = [];
}

abbrev query : Str → Option UserPayload
query name = some bob

empty_asks :
    (verify_user new_user_manager 10 (codes "bob") (codes "x") (codes "us") 4).1
    ≡ wait (record { username = codes "bob"; password = codes "x" })
unfolding verify_user new_user_manager
empty_asks = rw get-new_concurrent_map refl

empty-IsReady : length new_user_manager.cached_users ≡ 32
unfolding new_user_manager Cmap.new_concurrent_map
empty-IsReady = refl

handle_login-process_example :
    let r =
      handle_login query first (some (record { username = codes "bob"; password = codes "x" })) in
    let u' = (verify_user new_user_manager 10 (codes "bob") (codes "x") (codes "us") 4).0 in
    (r.1 ≡ none)
    × (r.0.egress ≡ login_success bob ∷ [])
    × ((process_verify_user_response u' 20 bob).1 ≡ some 4)
unfolding str_eq
handle_login-process_example =
    handle_login-process query first new_user_manager 10 20 (codes "bob") (codes "x") (codes "us") 4
      (record { username = codes "bob"; password = codes "x" }) bob empty-IsReady empty_asks refl
      refl
