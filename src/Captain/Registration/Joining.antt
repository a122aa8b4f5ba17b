-- ===== src/Captain/Registration/Joining.antt =====
-- How a worker comes to be connected: its login, its one-time password and its websocket.
use subnetwork_system_torchl.Prelude.{ℕ, ◌≡◌, refl, true, false, [], ◌∷◌, none, some, arith}
use subnetwork_system_torchl.Text.{Str, codes, str_eq, str_eq_refl}
use subnetwork_system_torchl.Dict.{lookup, insert, delete, lookup-insert, lookup-delete}
use subnetwork_system_torchl.Manager.Models.{Uuid}
use subnetwork_system_torchl.Captain.Otp.{Otp, RetentionMap, new_otp, verify_otp}
use subnetwork_system_torchl.Captain.Workers.{Worker, WorkerList, serve_ws, add_worker}
use subnetwork_system_torchl.Captain.Replies.{Answer, rows, json}
use subnetwork_system_torchl.Captain.Registration.Defs.{WorkerRow, login}
use subnetwork_system_torchl.Captain.Registration.Handlers.{
  nil_uuid, login_handler, refused, joined, serve_worker, serve_ws_handler,
}

-- A worker that Captain knows and that is not connected gets a one-time password by its login, and
-- with it a websocket under its own identity, name and pool. The same password is refused when it is
-- tried again, and the workers stay as they are.
pub login-serve_ws :
    (query : Uuid → Answer WorkerRow) (rm : RetentionMap) (ws : WorkerList) (now c : ℕ) (otp : Str)
    (id : Uuid) (worker : WorkerRow)
    → query id ≡ rows worker
    → str_eq id nil_uuid ≡ false
    → lookup id ws ≡ none
    → let (answer, rm') = login_handler query rm now (c ∷ otp) (some (some id)) in
      let (join, (rm'', ws')) = serve_ws_handler query true rm' ws (c ∷ otp) in
      (answer ≡ json 200 (c ∷ otp))
      × (join ≡ joined true)
      × (lookup id ws'
          ≡ some (record { id = id; name = worker.name; pool_id = worker.pool_id; egress = [] }))
      × (serve_ws_handler query true rm'' ws' (c ∷ otp)
          ≡ (refused 401 (codes "Invalid OTP"), (rm'', ws')))
unfolding login_handler serve_ws_handler serve_worker login verify_otp new_otp serve_ws add_worker
login-serve_ws query rm ws now c otp id worker known real new =
    let key : Str = c ∷ otp in
    let issued : Otp = record { key = key; created = now; worker_id = id } in
    let w : Worker = record {
      id = id;
      name = worker.name;
      pool_id = worker.pool_id;
      egress = [];
    } in
    let found : lookup key (insert key issued rm) ≡ some issued =
      ground (arith, lookup-insert key key issued rm, str_eq_refl key) in
    let gone : lookup key (delete key (insert key issued rm)) ≡ none =
      ground (arith, lookup-delete key key (insert key issued rm), str_eq_refl key) in
    let there : lookup id (insert id w ws) ≡ some w =
      ground (arith, lookup-insert id id w ws, str_eq_refl id) in
    rw (real, known, found, known, new, gone) (refl, refl, there, refl)
