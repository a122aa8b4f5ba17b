-- ===== src/Captain/Registration/Defs.antt =====
-- captain/internal/server/service/worker_service.go. Each query of the database is an argument. Time
-- stamps are left out. `id` is what uuid.New returned.
use subnetwork_system_torchl.Prelude.{
  ℕ, List, [], ◌∷◌, ◌++◌, Option, none, some, if◌then◌else◌, ℤ, ◌==◌, map,
}
use subnetwork_system_torchl.Text.{Str, codes, str_eq}
use subnetwork_system_torchl.Manager.Models.{Uuid}
use subnetwork_system_torchl.Captain.Replies.{
  Answer, rows, no_rows, broken, Ret, done, failed, crashed, ok_200, created_201, not_found_404,
  internal_500,
}

-- The pointers of a decoded body; none is nil.
pub record AddWorkerRequest : Type 0 where
  pub region_name : Option Str
  pub ip_address : Option Str
  pub port : Option ℤ
  pub pool_id : Option Uuid

pub record CreateWorkerParams : Type 0 where
  pub id : Uuid
  pub name : Str
  pub region_name : Str
  pub ip_address : Str
  pub port : ℤ
  pub pool_id : Uuid

-- A worker as the database returns it.
pub record WorkerRow : Type 0 where
  pub id : Uuid
  pub name : Str
  pub region_name : Str
  pub ip_address : Str
  pub status : Str
  pub port : ℤ
  pub pool_id : Uuid
  pub domains : List Str

-- A worker as the API answers it; its identity is a text here.
pub record AddWorkerResponse : Type 0 where
  pub id : Str
  pub name : Str
  pub region_name : Str
  pub ip_address : Str
  pub status : Str
  pub port : ℤ
  pub pool_id : Uuid
  pub domains : List Str

-- Login
unfoldable pub login : Answer WorkerRow → Ret (Unit {0})
login (rows worker) = done tt ok_200 []
login no_rows = failed not_found_404 (codes "Worker not found")
login broken = failed internal_500 (codes "Failed to get worker")

-- The name that CreateWorker gives to a worker, by its region and by id.String().
unfoldable pub worker_name : Str → Str → Str
worker_name region id =
    if str_eq region (codes "North America")
    then codes "usa-" ++ id
    else if str_eq region (codes "Europe")
    then codes "eu-" ++ id
    else if str_eq region (codes "Asia")
    then codes "asia-" ++ id
    else codes "globe-" ++ id

-- `string` is uuid.UUID.String.
unfoldable pub response_of : (Uuid → Str) → WorkerRow → AddWorkerResponse
response_of string worker = record {
  id = string worker.id;
  name = worker.name;
  region_name = worker.region_name;
  ip_address = worker.ip_address;
  status = worker.status;
  port = worker.port;
  pool_id = worker.pool_id;
  domains = worker.domains;
}

-- The response has the region of the request and no domains.
worker_created : (Uuid → Str) → Str → Answer WorkerRow → Ret AddWorkerResponse
unfolding response_of
worker_created string region (rows worker) =
    done (record (response_of string worker) { region_name = region; domains = [] }) ok_200 []
worker_created string region _ = failed internal_500 (codes "Internal Server Error")

-- CreateWorker dereferences all four pointers.
unfoldable pub create_worker :
    (Uuid → Str)
    → (CreateWorkerParams → Answer WorkerRow)
    → Uuid
    → Option Str
    → Option Str
    → Option ℤ
    → Option Uuid
    → Ret AddWorkerResponse
unfolding worker_created worker_name
create_worker string query id (some region) (some ip) (some port) (some pool) =
    worker_created string region (
      query (record {
        id = id;
        name = worker_name region (string id);
        region_name = region;
        ip_address = ip;
        port = port;
        pool_id = pool;
      }))
create_worker string query id _ _ _ _ = crashed

-- none is the nil slice; the error of a query without rows is not passed on.
unfoldable pub get_workers :
    (Uuid → Str) → Answer (List WorkerRow) → Ret (Option (List AddWorkerResponse))
get_workers string (rows []) = done none ok_200 []
get_workers string (rows (w ∷ ws)) = done (some (map (response_of string) (w ∷ ws))) ok_200 []
get_workers string no_rows = done none not_found_404 (codes "No workers found")
get_workers string broken = failed internal_500 (codes "Internal Server Error")

unfoldable pub get_worker_by_name : (Uuid → Str) → Answer WorkerRow → Ret AddWorkerResponse
get_worker_by_name string (rows worker) = done (response_of string worker) ok_200 []
get_worker_by_name string no_rows = failed not_found_404 (codes "Worker not found")
get_worker_by_name string broken = failed internal_500 (codes "Internal Server Error")

-- On the number of rows affected.
unfoldable pub delete_worker : Answer ℕ → Ret (Unit {0})
delete_worker (rows affected) =
    if affected == 0
    then done tt not_found_404 (codes "Worker not found")
    else done tt ok_200 (codes "worker deleted successfully")
delete_worker _ = failed internal_500 (codes "Internal Server Error")

unfoldable pub add_worker_domain : Answer (Unit {0}) → Ret (Unit {0})
add_worker_domain (rows _) = done tt created_201 (codes "Domains added successfully")
add_worker_domain no_rows = failed not_found_404 (codes "Worker not found")
add_worker_domain broken = failed internal_500 (codes "Failed to add domain")

unfoldable pub delete_worker_domain : Answer ℕ → Ret (Unit {0})
delete_worker_domain (rows affected) =
    if affected == 0
    then done tt not_found_404 (codes "No domains deleted")
    else done tt ok_200 (codes "Domain deleted successfully")
delete_worker_domain _ = failed internal_500 (codes "Failed to delete domain")
