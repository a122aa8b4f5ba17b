-- ===== src/Manager/Worker/Defs.antt =====
-- The operations of WorkerManager.
use subnetwork_system_torchl.Prelude.{
  ℕ, Bool, List, [], ◌∷◌, ◌++◌, map, Option, none, some, Outcome, ok, err, panic, replicate,
}
use subnetwork_system_torchl.Text.{Str, codes}
use subnetwork_system_torchl.Dict.{lookup, insert}
use subnetwork_system_torchl.Cmap
use subnetwork_system_torchl.Manager.Models.{
  Uuid, Pool, Upstream, User, CachedUser, UserPayload, UserLoginPayload, UpstreamConfig,
  ConfigPayload, UserDataUsage,
}
use subnetwork_system_torchl.Manager.Upstreams
use subnetwork_system_torchl.Manager.Upstreams.{
  UpstreamManager, new_upstream_manager, new_pool, set_upstreams, next,
}
use subnetwork_system_torchl.Manager.Users
use subnetwork_system_torchl.Manager.Users.{
  UserManager, new_user_manager, get_user, Verify, answer, wait, ConnectionError, remove_user,
}
use subnetwork_system_torchl.Manager.Health
use subnetwork_system_torchl.Manager.Health.{
  Float32, HealthCollector, WorkerHealth, new_health_collector,
}

abbrev pub nil_uuid : Uuid
nil_uuid = replicate 16 0

module _ (F : Float32) where
  pub data Payload : Type 0 where
    login : UserLoginPayload → Payload
    usage : UserDataUsage → Payload
    health : WorkerHealth F → Payload
    pool : Uuid → Payload

  pub record Event : Type 0 where
    pub type : Str
    pub payload : Payload

  -- `egress` lists the events written to the websocket, in order; none is a nil websocketManager, as
  -- before the first Connect. A disconnect leaves the manager there.
  pub record WorkerManager : Type 0 where
    pub id : Uuid
    pub name : Str
    pub region : Str
    pub pool : Option Pool
    pub upstream_manager : UpstreamManager
    pub health_collector : HealthCollector F
    pub user_manager : UserManager
    pub egress : Option (List Event)

  unfoldable pub new_worker_manager : Uuid → WorkerManager
  new_worker_manager id = record {
    id = id;
    name = [];
    region = [];
    pool = none;
    upstream_manager = new_upstream_manager;
    health_collector = new_health_collector F id;
    user_manager = new_user_manager;
    egress = none;
  }

  append_event : WorkerManager → Event → Option (List Event) → Outcome (Unit {0}) WorkerManager
  append_event w event none = panic
  append_event w event (some sent) = ok (record w { egress = some (sent ++ event ∷ []) })

  -- c.websocketManager.WriteEvent(event), which dereferences the manager. The channel behind it has
  -- room for a hundred events, and a writer that finds it full waits: this is the write once it is
  -- done.
  unfoldable pub write_event : WorkerManager → Event → Outcome (Unit {0}) WorkerManager
  unfolding append_event
  write_event w event = append_event w event w.egress

  abbrev pub upstream_of : UpstreamConfig → Upstream
  upstream_of u = record {
    upstream_id = u.upstream_id;
    upstream_tag = u.upstream_tag;
    upstream_format = u.upstream_format;
    upstream_username = u.upstream_username;
    upstream_password = u.upstream_password;
    upstream_host = u.upstream_host;
    upstream_port = u.upstream_port;
    upstream_provider = u.upstream_provider;
    weight = u.weight;
  }

  unfoldable pub process_config : WorkerManager → ConfigPayload → WorkerManager
  unfolding new_pool
  process_config w cfg =
      let pool = new_pool cfg.pool_id cfg.pool_tag cfg.pool_port cfg.pool_subdomain in
      record w {
        name = cfg.worker_name;
        region = cfg.region;
        pool = some pool;
        upstream_manager = set_upstreams w.upstream_manager (map upstream_of cfg.upstreams);
        health_collector =
            Health.update_worker_info F cfg.worker_name pool.region w.health_collector;
      }

  pool_tag_of : Option Pool → Str
  pool_tag_of none = []
  pool_tag_of (some p) = p.pool_tag

  ask : WorkerManager → Verify → Outcome (Unit {0}) (WorkerManager × Verify)
  unfolding write_event
  ask w (answer b) = ok (w, answer b)
  ask w (wait p) = elim (write_event w (record { type = codes "verify_user"; payload = login p })) [
    | ok w' ↦ ok (w', wait p)
    | err e ↦ err e
    | panic ↦ panic
  ]

  -- VerifyUser up to its wait; `chan` is the channel that it makes.
  unfoldable pub verify_user :
      WorkerManager → ℕ → Str → Str → ℕ → Outcome (Unit {0}) (WorkerManager × Verify)
  unfolding ask pool_tag_of
  verify_user w now username password chan =
      let (u, v) =
        Users.verify_user w.user_manager now username password (pool_tag_of w.pool) chan in
      ask (record w { user_manager = u }) v

  unfoldable pub has_upstreams : WorkerManager → Bool
  has_upstreams w = Upstreams.has_upstreams w.upstream_manager

  -- sessions[session] = upstream, in the map of the cached user.
  put_session : UserManager → Str → Str → Upstream → Option CachedUser → UserManager
  put_session u username session up none = u
  put_session u username session up (some c) = record u {
    cached_users =
        Cmap.store u.cached_users username
          (record c { user = record c.user { sessions = insert session up c.user.sessions } });
  }

  take_next : WorkerManager → WorkerManager × Option Upstream
  take_next w = let (m, up) = next w.upstream_manager in (record w { upstream_manager = m }, up)

  -- The new upstream of a session; *upstream dereferences what Next returned.
  start_session :
      WorkerManager
      → Str
      → Str
      → Option Upstream
      → Outcome (Unit {0}) (WorkerManager × Option Upstream)
  unfolding put_session
  start_session w username session none = panic
  start_session w username session (some up) =
      let u = w.user_manager in
      ok (
        record w {
          user_manager = put_session u username session up (Cmap.get u.cached_users username);
        },
        some up,
      )

  unfoldable pub known_session :
      WorkerManager
      → Str
      → Str
      → Option Upstream
      → Outcome (Unit {0}) (WorkerManager × Option Upstream)
  unfolding take_next start_session
  known_session w username session (some up) = ok (w, some up)
  known_session w username session none =
      let (w', up) = take_next w in start_session w' username session up

  with_user :
      WorkerManager → Str → Str → Option User → Outcome (Unit {0}) (WorkerManager × Option Upstream)
  unfolding take_next known_session
  with_user w username session none = ok (take_next w)
  with_user w username session (some user) =
      known_session w username session (lookup session user.sessions)

  -- NextUpstream; none is the nil pointer.
  unfoldable pub next_upstream :
      WorkerManager → ℕ → Str → Str → Outcome (Unit {0}) (WorkerManager × Option Upstream)
  unfolding take_next with_user
  next_upstream w now username [] = ok (take_next w)
  next_upstream w now username (c ∷ session) =
      let (u, found) = get_user w.user_manager now username in
      with_user (record w { user_manager = u }) username (c ∷ session) found

  unfoldable pub add_user_connection : WorkerManager → Str → WorkerManager × Option ConnectionError
  add_user_connection w username =
      let (u, e) = Users.add_connection w.user_manager username in
      (record w { user_manager = u }, e)

  unfoldable pub remove_user_connection : WorkerManager → Str → WorkerManager
  remove_user_connection w username = record w {
    user_manager = Users.remove_connection w.user_manager username;
  }

  unfoldable pub process_user_change : WorkerManager → Str → WorkerManager
  process_user_change w username = record w { user_manager = remove_user w.user_manager username }

  unfoldable pub process_pool_change : WorkerManager → Uuid → Outcome (Unit {0}) WorkerManager
  process_pool_change w pool_id =
      write_event w (record { type = codes "request_config"; payload = pool pool_id })

  unfoldable pub process_verify_user_response :
      WorkerManager → ℕ → UserPayload → WorkerManager × Option ℕ
  process_verify_user_response w now p =
      let (u, chan) = Users.process_verify_user_response w.user_manager now p in
      (record w { user_manager = u }, chan)
