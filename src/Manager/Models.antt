-- ===== src/Manager/Models.antt =====
-- worker/manager/models.go and the structs of user_manager.go and pool_upstream_manager.go.
-- A uuid.UUID is the text of its sixteen bytes; a Go int is an integer.
use subnetwork_system_torchl.Prelude.{ℕ, List, ℤ, ◌*◌}
use subnetwork_system_torchl.Text.{Str}
use subnetwork_system_torchl.Dict.{Dict}

abbrev pub Uuid : Type 0
Uuid = Str

-- Instants and durations in nanoseconds.
abbrev pub second : ℕ
second = 1000000000

abbrev pub hour : ℕ
hour = 3600 * second

pub record PoolLimit : Type 0 where
  pub tag : Str
  pub data_limit : ℤ
  pub data_usage : ℤ

pub record Pool : Type 0 where
  pub pool_id : Uuid
  pub pool_tag : Str
  pub region : Str
  pub pool_port : ℤ
  pub pool_subdomain : Str

pub record Upstream : Type 0 where
  pub upstream_id : Uuid
  pub upstream_tag : Str
  pub upstream_format : Str
  pub upstream_username : Str
  pub upstream_password : Str
  pub upstream_host : Str
  pub upstream_port : ℤ
  pub upstream_provider : Str
  pub weight : ℤ

pub record User : Type 0 where
  pub id : Uuid
  pub username : Str
  pub password : Str
  pub status : Str
  pub ip_whitelist : List Str
  pub pools : List PoolLimit
  pub sessions : Dict Upstream
  pub connection_count : ℤ

pub record CachedUser : Type 0 where
  pub user : User
  pub cached_at : ℕ
  pub expire_at : ℕ

pub record UserPayload : Type 0 where
  pub id : Uuid
  pub username : Str
  pub password : Str
  pub status : Str
  pub ip_whitelist : List Str
  pub pools : List Str

pub record UserLoginPayload : Type 0 where
  pub username : Str
  pub password : Str

pub record UpstreamConfig : Type 0 where
  pub upstream_id : Uuid
  pub upstream_tag : Str
  pub upstream_format : Str
  pub upstream_username : Str
  pub upstream_password : Str
  pub upstream_host : Str
  pub upstream_port : ℤ
  pub upstream_provider : Str
  pub weight : ℤ

pub record ConfigPayload : Type 0 where
  pub worker_name : Str
  pub region : Str
  pub pool_id : Uuid
  pub pool_tag : Str
  pub pool_port : ℤ
  pub pool_subdomain : Str
  pub upstreams : List UpstreamConfig

pub record UserDataUsage : Type 0 where
  pub user_id : Uuid
  pub username : Str
  pub pool_id : Uuid
  pub pool_name : Str
  pub worker_id : Uuid
  pub worker_region : Str
  pub bytes_sent : ℕ
  pub bytes_received : ℕ
  pub source_ip : Str
  pub protocol : Str
  pub destination_host : Str
  pub destination_port : ℕ
  pub status_code : ℕ
