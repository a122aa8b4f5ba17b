-- ===== src/Examples/Admin.antt =====
-- Requests to Captain's administration, run.
use subnetwork_system_torchl.Prelude.{
  ℕ, ◌+◌, leb, if◌then◌else◌, ◌≡◌, refl, ◌≤◌, true, false, List, [], ◌∷◌, ◌++◌, Option, none, some,
  arith, pos, ℤ, All, length,
}
use subnetwork_system_torchl.Text.{Str, codes, str_eq, Free, Free-mem_byte, mem_byte}
use subnetwork_system_torchl.Tags.{generate_proxy_string, pool_group}
use subnetwork_system_torchl.Manager.Models.{Uuid}
use subnetwork_system_torchl.Captain.Replies.{rows, no_rows, broken}
use subnetwork_system_torchl.Captain.Pools.{PoolRow, group, collect}
use subnetwork_system_torchl.Captain.Pools.{PoolQueries, CreatePoolRequest}
use subnetwork_system_torchl.Captain.Pools.{create_pool_handler}
use subnetwork_system_torchl.Captain.Pools.Grouping.{find_pool, rows_of, occurrences, group_lem}
use subnetwork_system_torchl.Captain.Pools.Creating.{Told, create_pool_handler-Told}
use subnetwork_system_torchl.Captain.Users.{CreateUserRequest, NewUser, UserQueries}
use subnetwork_system_torchl.Captain.Users.{
  ProxyRequest, ProxyRow, ProxyArgs, host_of, config_of, proxies,
}
use subnetwork_system_torchl.Captain.Users.Creating
use subnetwork_system_torchl.Captain.Users.Generating.{Reads, proxies-Reads}
use subnetwork_system_torchl.Captain.Places.{
  CreateUpstreamRequest, upstream_check, create_upstream_handler,
}
use subnetwork_system_torchl.Captain.Places.Checks.{is_aborted, create_upstream_handler-aborted}

abbrev row : Str → Option Str → PoolRow
row id upstream = record {
  pool_id = id;
  pool_tag = codes "t";
  pool_subdomain = codes "s";
  pool_port = pos 80;
  upstream_tag = upstream;
  config_format = none;
  username = none;
  password = none;
  upstream_port = none;
  upstream_domain = none;
}

-- The rows of two pools in turn.
abbrev mixed : List PoolRow
mixed =
    row (codes "a") (some (codes "u1"))
    ∷ row (codes "b") none
    ∷ row (codes "a") (some (codes "u2"))
    ∷ []

group_lem_example :
    (find_pool (codes "a") (group [] mixed) ≡ collect none (rows_of (codes "a") mixed))
    × (occurrences (codes "a") (group [] mixed) ≡ 1)
unfolding rows_of str_eq
group_lem_example = group_lem (codes "a") mixed

-- A database that counts its insertions.
abbrev queries : PoolQueries ℕ
queries = record {
  begins = true;
  inset_pool = λ n params. rows (
    record {
      id = codes "p";
      tag = params.tag;
      region_id = params.region_id;
      subdomain = params.subdomain;
      port = params.port;
    },
    n + 1,
  );
  insert_weights = λ n id weights tags.
      if leb (length weights) (length tags) then rows (weights, n + 1) else broken;
  commits = true;
}

abbrev pool_body : CreatePoolRequest
pool_body = record {
  tag = some (codes "t");
  region_id = some (codes "r");
  subdomain = some (codes "s");
  port = some (pos 80);
  upstreams = some (record { upstream_tag = some (codes "u1"); weight = some (pos 5) } ∷ []);
}

queries_few :
    (t t' : ℕ) (id : Uuid) (weights inserted : List ℤ) (tags : List Str)
    → queries.insert_weights t id weights tags ≡ rows (inserted, t')
    → length inserted ≤ length tags
queries_few t t' id weights inserted tags h = ground arith

create_pool_handler-Told_example :
    let (r, s) = create_pool_handler queries 0 (some pool_body) in
    Told queries 0 (some pool_body) r s
create_pool_handler-Told_example = create_pool_handler-Told queries 0 queries_few (some pool_body)

abbrev new_user : NewUser
new_user = record {
  id = codes "u";
  username = codes "bob";
  password = codes "pw";
  status = codes "active";
}

abbrev user_queries : UserQueries ℕ
user_queries = record {
  begins = true;
  create = λ n. rows (new_user, n + 1);
  add_pools = λ n id tags limits. broken;
  add_whitelist = λ n id ips. rows (ips, n + 1);
  commits = true;
}

abbrev user_body : CreateUserRequest
user_body = record {
  allow_pools = some (record { pool = codes "nopool"; data_limit = pos 1 } ∷ []);
  ip_whitelist = none;
}

abbrev proxy_row : ProxyRow
proxy_row = record {
  username = codes "bob";
  password = codes "pw";
  subdomain = codes "eu";
  port = pos 8080;
}

abbrev asked : ProxyArgs
asked = record {
  user_id = codes "u";
  amount = pos 2;
  format = codes "ip:port:user:pass";
  pool_group = codes "g";
  proxy_type = codes "t";
  country_code = codes "de";
  state = [];
  city = [];
  is_sticky = false;
  session_duration = none;
}

abbrev sessions : ℕ → Str
sessions i = codes "s"

abbrev proxy_body : ProxyRequest
proxy_body = record {
  user_id = some (codes "u");
  amount = some (pos 2);
  format = some (codes "ip:port:user:pass");
  pool_group = some (codes "g");
  proxy_type = some (codes "t");
  country_code = some (codes "de");
  state = none;
  city = none;
  is_sticky = some false;
  session_duration = none;
}

host_Free : Free b':' (host_of proxy_row)
unfolding mem_byte
host_Free = Free-mem_byte b':' (host_of proxy_row) refl

secret_Free : (i : ℕ) → Free b':' (proxy_row.password ++ config_of sessions asked i)
unfolding mem_byte config_of generate_proxy_string pool_group
secret_Free i = Free-mem_byte b':' (proxy_row.password ++ config_of sessions asked i) refl

proxies-Reads_example : All (Reads sessions asked proxy_row) (proxies sessions asked proxy_row 0 2)
proxies-Reads_example =
    proxies-Reads sessions asked proxy_row refl host_Free (refl, (refl, (refl, tt))) secret_Free 0 2

-- A body without a password, which passes the check.
abbrev no_password : CreateUpstreamRequest
no_password = record {
  tag = some (codes "t");
  upstream_provider = some (codes "netnut");
  config_format = some (codes "f");
  username = some (codes "bob");
  password = none;
  port = some (pos 80);
  domain = some (codes "up.de");
}

create_upstream_handler-aborted_example :
    is_aborted (create_upstream_handler (λ params. no_rows) (some no_password)) ≡ true
create_upstream_handler-aborted_example =
    create_upstream_handler-aborted (λ params. no_rows) no_password
      (unfold upstream_check str_eq in refl)
