-- ===== src/Captain/Workers.antt =====
-- captain/internal/server/websocket/ws_manager.go: the connected workers and the events that go to
-- them. A worker's channel `egress` is the list of the events sent to it.
use subnetwork_system_torchl.Prelude.{
  ◌≡◌, refl, Bool, true, false, List, [], ◌∷◌, ◌++◌, Option, none, some, if◌then◌else◌, arith,
  is_some,
}
use subnetwork_system_torchl.Text.{Str, str_eq, str_eq_iff}
use subnetwork_system_torchl.Dict.{Dict, lookup, insert, delete, lookup-insert}
use subnetwork_system_torchl.Manager.Models.{Uuid, UserPayload, ConfigPayload}

pub data Reply : Type 0 where
  user_change : Str → Reply
  pool_change : Uuid → Reply
  login_success : UserPayload → Reply
  config : ConfigPayload → Reply

pub record Worker : Type 0 where
  pub id : Uuid
  pub name : Str
  pub pool_id : Uuid
  pub egress : List Reply

abbrev pub WorkerList : Type 0
WorkerList = Dict Worker

-- w.egress <- event
unfoldable pub send : Reply → Worker → Worker
send r w = record w { egress = w.egress ++ r ∷ [] }

unfoldable pub add_worker : WorkerList → Worker → WorkerList
add_worker ws w = insert w.id w ws

-- ServeWS behind the upgrade: the workers, and whether the connection was kept. The code tests under
-- the read lock and adds under the lock; here no other connection of the same worker comes in between.
unfoldable pub serve_ws : WorkerList → Uuid → Str → Uuid → WorkerList × Bool
unfolding add_worker
serve_ws ws id name pool_id =
    if is_some (lookup id ws)
    then (ws, false)
    else (add_worker ws (record { id = id; name = name; pool_id = pool_id; egress = [] }), true)

-- RemoveWorker, which looks the worker up by its identity alone.
unfoldable pub remove_worker : WorkerList → Worker → WorkerList
remove_worker ws w = if is_some (lookup w.id ws) then delete w.id ws else ws

unfoldable pub notify_user_change : WorkerList → Str → WorkerList
notify_user_change [] username = []
notify_user_change ((id, w) ∷ ws) username =
    (id, send (user_change username) w) ∷ notify_user_change ws username

unfoldable pub notify_pool_change : WorkerList → Uuid → WorkerList
notify_pool_change [] pool_id = []
notify_pool_change ((id, w) ∷ ws) pool_id =
    (id, if str_eq w.pool_id pool_id then send (pool_change pool_id) w else w)
    ∷ notify_pool_change ws pool_id

abbrev pub noticed : Str → Option Worker → Option Worker
noticed username none = none
noticed username (some w) = some (send (user_change username) w)

abbrev pub noticed_pool : Uuid → Option Worker → Option Worker
noticed_pool pool_id none = none
noticed_pool pool_id (some w) =
    some (if str_eq w.pool_id pool_id then send (pool_change pool_id) w else w)

-- A change of a user is sent once to every connected worker, and nothing else changes.
pub lookup-notify_user_change :
    (ws : WorkerList) (username : Str) (id : Uuid)
    → lookup id (notify_user_change ws username) ≡ noticed username (lookup id ws)
unfolding lookup notify_user_change
lookup-notify_user_change [] username id = refl
lookup-notify_user_change ((k, w) ∷ ws) username id =
    ground (arith, lookup-notify_user_change ws username id)

-- A change of a pool is sent once to every connected worker of that pool and to no other.
pub lookup-notify_pool_change :
    (ws : WorkerList) (pool_id id : Uuid)
    → lookup id (notify_pool_change ws pool_id) ≡ noticed_pool pool_id (lookup id ws)
unfolding lookup notify_pool_change
lookup-notify_pool_change [] pool_id id = refl
lookup-notify_pool_change ((k, w) ∷ ws) pool_id id =
    ground (arith, lookup-notify_pool_change ws pool_id id)

-- A second connection of a worker is closed and leaves the first one alone; the first connection of
-- a worker joins the others, without an event sent to anyone.
pub serve_ws_lem :
    (ws : WorkerList) (id j : Uuid) (name : Str) (pool_id : Uuid)
    → ((serve_ws ws id name pool_id).1 ≡ (if is_some (lookup id ws) then false else true))
      × (lookup j (serve_ws ws id name pool_id).0 ≡ (
          if is_some (lookup j ws)
          then lookup j ws
          else if str_eq id j
          then some (record { id = id; name = name; pool_id = pool_id; egress = [] })
          else none))
unfolding serve_ws add_worker
serve_ws_lem ws id j name pool_id = ground (
  arith,
  lookup-insert id j (record { id = id; name = name; pool_id = pool_id; egress = [] }) ws,
  str_eq_iff id j,
)
