-- ===== src/Captain/Registration/Handlers.antt =====
-- captain/internal/server/handlers/worker_handler.go. A body is what the JSON decoder made of it; none
-- is its error.
use subnetwork_system_torchl.Prelude.{
  ℕ, String, Bool, true, ◌&&◌, List, [], ◌∷◌, Option, none, some, if◌then◌else◌, ℤ, pos, leb_ℤ,
  replicate,
}
use subnetwork_system_torchl.Text.{Str, codes, str_eq}
use subnetwork_system_torchl.Manager.Models.{Uuid}
use subnetwork_system_torchl.Captain.Otp.{RetentionMap, new_otp, verify_otp}
use subnetwork_system_torchl.Captain.Workers.{WorkerList, serve_ws}
use subnetwork_system_torchl.Captain.Replies.{
  Answer, rows, Ret, done, failed, crashed, Response, json, error, aborted, bad_request_400,
  respond_code,
}
use subnetwork_system_torchl.Captain.Registration.Defs.{
  AddWorkerRequest, AddWorkerResponse, CreateWorkerParams, WorkerRow, login, create_worker,
  get_workers, get_worker_by_name, delete_worker, add_worker_domain, delete_worker_domain,
}

-- uuid.Nil
abbrev pub nil_uuid : Uuid
nil_uuid = replicate 16 0

abbrev bad : {A : Type 0} → String → Response A
bad message = error bad_request_400 (codes message)

-- RespondwithJSON(w, code, value)
coded : {A : Type 0} → Ret A → Response A
coded (done a code message) = json code a
coded (failed code message) = error code message
coded crashed = aborted

logged_in : RetentionMap → ℕ → Str → Uuid → Ret (Unit {0}) → Response Str × RetentionMap
logged_in rm now key id (done u code message) = (json code key, new_otp rm now key id)
logged_in rm now key id (failed code message) = (error code message, rm)
logged_in rm now key id crashed = (aborted, rm)

-- login: the one-time password of the response is `key`, the result of uuid.NewString.
unfoldable pub login_handler :
    (Uuid → Answer WorkerRow)
    → RetentionMap
    → ℕ
    → Str
    → Option (Option Uuid)
    → Response Str × RetentionMap
unfolding logged_in
login_handler query rm now key none = (bad "Invalid request body", rm)
login_handler query rm now key (some none) = (bad "WorkerId is required", rm)
login_handler query rm now key (some (some id)) =
    if str_eq id nil_uuid
    then (bad "WorkerId is required", rm)
    else logged_in rm now key id (login (query id))

-- What serveWS comes to: a refusal, nothing at all, or a websocket that is kept or closed again.
pub data Join : Type 0 where
  refused : ℕ → Str → Join
  silent : Join
  joined : Bool → Join

-- ServeWS of the service, and the upgrade of ServeWS of the manager, which may fail.
unfoldable pub serve_worker : Bool → WorkerList → Uuid → Answer WorkerRow → Join × WorkerList
serve_worker upgrades ws id (rows worker) =
    if upgrades
    then (let (ws', kept) = serve_ws ws id worker.name worker.pool_id in (joined kept, ws'))
    else (refused bad_request_400 (codes "Could not open websocket connection"), ws)
serve_worker upgrades ws id _ = (silent, ws)

verified :
    (Uuid → Answer WorkerRow)
    → Bool
    → WorkerList
    → RetentionMap × Option Uuid
    → Join × (RetentionMap × WorkerList)
unfolding serve_worker
verified query upgrades ws (rm, none) = (refused 401 (codes "Invalid OTP"), (rm, ws))
verified query upgrades ws (rm, some id) =
    let (join, ws') = serve_worker upgrades ws id (query id) in (join, (rm, ws'))

-- serveWS; `otp` is the parameter of the query.
unfoldable pub serve_ws_handler :
    (Uuid → Answer WorkerRow)
    → Bool
    → RetentionMap
    → WorkerList
    → Str
    → Join × (RetentionMap × WorkerList)
unfolding verified
serve_ws_handler query upgrades rm ws [] =
    (refused bad_request_400 (codes "OTP is required"), (rm, ws))
serve_ws_handler query upgrades rm ws (c ∷ otp) =
    verified query upgrades ws (verify_otp rm (c ∷ otp))

abbrev lacks : Option Str → Bool
lacks none = true
lacks (some s) = str_eq s []

abbrev lacks_id : Option Uuid → Bool
lacks_id none = true
lacks_id (some id) = str_eq id nil_uuid

abbrev lacks_port : Option ℤ → Bool
lacks_port none = true
lacks_port (some p) = leb_ℤ p (pos 0) && leb_ℤ (pos 0) p

-- AddWorker
unfoldable pub add_worker_handler :
    (Uuid → Str)
    → (CreateWorkerParams → Answer WorkerRow)
    → Uuid
    → Option AddWorkerRequest
    → Response AddWorkerResponse
unfolding coded
add_worker_handler string query id none = bad "Invalid request body"
add_worker_handler string query id (some req) =
    if lacks req.region_name
    then bad "RegionName is required"
    else if lacks req.ip_address
    then bad "IPAddress is required"
    else if lacks_port req.port
    then bad "Port is required"
    else if lacks_id req.pool_id
    then bad "PoolId is required"
    else coded (create_worker string query id req.region_name req.ip_address req.port req.pool_id)

unfoldable pub get_all_workers_handler :
    (Uuid → Str) → Answer (List WorkerRow) → Response (Option (List AddWorkerResponse))
unfolding coded
get_all_workers_handler string answer = coded (get_workers string answer)

unfoldable pub get_worker_by_name_handler :
    (Uuid → Str) → (Str → Answer WorkerRow) → Str → Response AddWorkerResponse
unfolding coded
get_worker_by_name_handler string query [] = bad "Worker name is required"
get_worker_by_name_handler string query (c ∷ name) =
    coded (get_worker_by_name string (query (c ∷ name)))

unfoldable pub delete_worker_handler : (Str → Answer ℕ) → Str → Response Str
delete_worker_handler delete [] = bad "Worker name is required"
delete_worker_handler delete (c ∷ name) = respond_code (delete_worker (delete (c ∷ name)))

unfoldable pub add_worker_domain_handler :
    (Str → List Str → Answer (Unit {0})) → Str → Option (List Str) → Response Str
add_worker_domain_handler insert [] body = bad "Worker name is required"
add_worker_domain_handler insert (c ∷ name) none = bad "Invalid request body"
add_worker_domain_handler insert (c ∷ name) (some []) = bad "Domains are required"
add_worker_domain_handler insert (c ∷ name) (some (d ∷ ds)) =
    respond_code (add_worker_domain (insert (c ∷ name) (d ∷ ds)))

unfoldable pub delete_worker_domain_handler :
    (Str → List Str → Answer ℕ) → Str → Option (List Str) → Response Str
delete_worker_domain_handler delete [] body = bad "Worker name is required"
delete_worker_domain_handler delete (c ∷ name) none = bad "Invalid request body"
delete_worker_domain_handler delete (c ∷ name) (some []) = bad "Domains are required"
delete_worker_domain_handler delete (c ∷ name) (some (d ∷ ds)) =
    respond_code (delete_worker_domain (delete (c ∷ name) (d ∷ ds)))
