-- ===== src/Captain/Events.antt =====
-- captain/internal/server/websocket/ws_manager.go: handleLogin and handleRequestConfig, the events
-- that a worker sends to be answered.
use subnetwork_system_torchl.Prelude.{List, [], ◌∷◌, map, Option, none, some, if◌then◌else◌, ℤ}
use subnetwork_system_torchl.Text.{Str, str_eq}
use subnetwork_system_torchl.Manager.Models.{
  Uuid, UserPayload, UserLoginPayload, UpstreamConfig, ConfigPayload,
}
use subnetwork_system_torchl.Captain.Workers.{Worker, login_success, config, send}

pub data LoginError : Type 0 where
  bad_payload no_user wrong_password : LoginError

answer_login : UserLoginPayload → Worker → Option UserPayload → Worker × Option LoginError
answer_login p w none = (w, some no_user)
answer_login p w (some user) =
    if str_eq user.password p.password
    then (send (login_success user) w, none)
    else (w, some wrong_password)

login_payload :
    (Str → Option UserPayload) → Worker → Option UserLoginPayload → Worker × Option LoginError
unfolding answer_login
login_payload query w none = (w, some bad_payload)
login_payload query w (some p) = answer_login p w (query p.username)

-- handleLogin on the decoded payload; `query` is GetUserByUsername, none its error.
unfoldable pub handle_login :
    (Str → Option UserPayload) → Worker → Option UserLoginPayload → Worker × Option LoginError
unfolding login_payload
handle_login query w payload = login_payload query w payload

-- A row of GetWorkerPoolConfig.
pub record ConfigRow : Type 0 where
  pub worker_name : Str
  pub region : Str
  pub pool_id : Uuid
  pub pool_tag : Str
  pub pool_port : ℤ
  pub pool_subdomain : Str
  pub upstream_id : Uuid
  pub upstream_tag : Str
  pub config_format : Str
  pub username : Str
  pub password : Str
  pub upstream_address : Str
  pub upstream_port : ℤ
  pub upstream_provider : Str
  pub weight : ℤ

abbrev pub upstream_config : ConfigRow → UpstreamConfig
upstream_config r = record {
  upstream_id = r.upstream_id;
  upstream_tag = r.upstream_tag;
  upstream_format = r.config_format;
  upstream_username = r.username;
  upstream_password = r.password;
  upstream_host = r.upstream_address;
  upstream_port = r.upstream_port;
  upstream_provider = r.upstream_provider;
  weight = r.weight;
}

abbrev pub config_of : ConfigRow → List ConfigRow → ConfigPayload
config_of first rows = record {
  worker_name = first.worker_name;
  region = first.region;
  pool_id = first.pool_id;
  pool_tag = first.pool_tag;
  pool_port = first.pool_port;
  pool_subdomain = first.pool_subdomain;
  upstreams = map upstream_config rows;
}

abbrev named : Worker → Str → Worker
named w name = if str_eq w.name [] then record w { name = name } else w

pub data ConfigError : Type 0 where
  query_failed no_configuration : ConfigError

-- handleRequestConfig, on the rows of the query; none is its error.
unfoldable pub handle_request_config :
    Worker → Option (List ConfigRow) → Worker × Option ConfigError
handle_request_config w none = (w, some query_failed)
handle_request_config w (some []) = (w, some no_configuration)
handle_request_config w (some (r ∷ rows)) =
    (send (config (config_of r (r ∷ rows))) (named w r.worker_name), none)
