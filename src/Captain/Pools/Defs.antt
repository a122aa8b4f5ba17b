-- ===== src/Captain/Pools/Defs.antt =====
-- captain/internal/server/service/pool_service.go. Each query of the database is an argument: its
-- answer, or a function from its parameters to its answer.
use subnetwork_system_torchl.Prelude.{
  List, [], ◌∷◌, ◌++◌, Option, none, some, if◌then◌else◌, ℤ, pos,
}
use subnetwork_system_torchl.Text.{Str, codes, str_eq}
use subnetwork_system_torchl.Manager.Models.{Uuid}
use subnetwork_system_torchl.Captain.Replies.{
  Answer, rows, no_rows, broken, Ret, done, failed, ok_200, not_found_404, internal_500,
}

-- A row of ListPoolsWithUpstreams and of GetPoolByTagWithUpstreams; none is an SQL NULL.
pub record PoolRow : Type 0 where
  pub pool_id : Uuid
  pub pool_tag : Str
  pub pool_subdomain : Str
  pub pool_port : ℤ
  pub upstream_tag : Option Str
  pub config_format : Option Str
  pub username : Option Str
  pub password : Option Str
  pub upstream_port : Option ℤ
  pub upstream_domain : Option Str

pub record PoolUpstream : Type 0 where
  pub tag : Str
  pub config_format : Str
  pub username : Str
  pub password : Str
  pub port : ℤ
  pub domain : Str

pub record PoolResponse : Type 0 where
  pub id : Uuid
  pub tag : Str
  pub subdomain : Str
  pub port : ℤ
  pub upstreams : List PoolUpstream

-- The String of a NullString.
abbrev pub text_of : Option Str → Str
text_of none = []
text_of (some s) = s

abbrev pub int_of : Option ℤ → ℤ
int_of none = pos 0
int_of (some n) = n

unfoldable pub new_response : PoolRow → PoolResponse
new_response r = record {
  id = r.pool_id;
  tag = r.pool_tag;
  subdomain = r.pool_subdomain;
  port = r.pool_port;
  upstreams = [];
}

upstream_in : PoolRow → Option Str → List PoolUpstream
upstream_in r none = []
upstream_in r (some tag) =
    record {
      tag = tag;
      config_format = text_of r.config_format;
      username = text_of r.username;
      password = text_of r.password;
      port = int_of r.upstream_port;
      domain = text_of r.upstream_domain;
    }
    ∷ []

-- The upstream that a row adds, if its tag is valid.
unfoldable pub add_upstream : PoolRow → PoolResponse → PoolResponse
unfolding upstream_in
add_upstream r p = record p { upstreams = p.upstreams ++ upstream_in r r.upstream_tag }

-- One row of the loop of GetPools. The map and the list of that loop hold the same pointers, so one
-- list stands for both.
unfoldable pub add_row : PoolRow → List PoolResponse → List PoolResponse
unfolding add_upstream new_response
add_row r [] = add_upstream r (new_response r) ∷ []
add_row r (p ∷ ps) = if str_eq p.id r.pool_id then add_upstream r p ∷ ps else p ∷ add_row r ps

unfoldable pub group : List PoolResponse → List PoolRow → List PoolResponse
group ps [] = ps
group ps (r ∷ rs) = group (add_row r ps) rs

-- none is the nil slice.
unfoldable pub get_pools : Answer (List PoolRow) → Ret (Option (List PoolResponse))
get_pools (rows []) = done none not_found_404 (codes "pools not found")
get_pools (rows (r ∷ rs)) = done (some (group [] (r ∷ rs))) ok_200 []
get_pools no_rows = failed internal_500 (codes "Failed to fetch pools")
get_pools broken = failed internal_500 (codes "Failed to fetch pools")

-- The loop of GetPoolByTag; none is the nil poolResponse.
unfoldable pub collect : Option PoolResponse → List PoolRow → Option PoolResponse
unfolding add_upstream new_response
collect p [] = p
collect none (r ∷ rs) = collect (some (add_upstream r (new_response r))) rs
collect (some p) (r ∷ rs) = collect (some (add_upstream r p)) rs

found_pool : Option PoolResponse → Ret (Option PoolResponse)
found_pool p = done p ok_200 []

unfoldable pub get_pool_by_tag : Answer (List PoolRow) → Ret (Option PoolResponse)
unfolding found_pool
get_pool_by_tag (rows []) = failed not_found_404 (codes "Pool not found")
get_pool_by_tag (rows (r ∷ rs)) = found_pool (collect none (r ∷ rs))
get_pool_by_tag no_rows = failed internal_500 (codes "Failed to fetch pool")
get_pool_by_tag broken = failed internal_500 (codes "Failed to fetch pool")
