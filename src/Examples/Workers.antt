-- ===== src/Examples/Workers.antt =====
-- The worker's manager, run.
use subnetwork_system_torchl.Prelude.{
  ℕ, ◌≡◌, refl, ◌+◌, ◌*◌, ◌/◌, true, Bool, List, [], ◌∷◌, Option, none, some, Outcome, ok, ltb, pos,
  arith, length, ◌==◌,
}
use subnetwork_system_torchl.Text.{Str, codes, str_eq}
use subnetwork_system_torchl.Dict.{lookup, insert}
use subnetwork_system_torchl.Cmap
use subnetwork_system_torchl.Cmap.{store, new_concurrent_map, shard_count, get, shard_index}
use subnetwork_system_torchl.Cmap.Laws.{length-store}
use subnetwork_system_torchl.Manager.Models.{CachedUser, Upstream, UpstreamConfig}
use subnetwork_system_torchl.Manager.Upstreams.{next, pick}
use subnetwork_system_torchl.Manager.Users
use subnetwork_system_torchl.Manager.Users.{UserManager, wait}
use subnetwork_system_torchl.Manager.Health.{Float32, new_health_collector}
use subnetwork_system_torchl.Manager.Health.Counters
use subnetwork_system_torchl.Manager.Health.Counters.{
  opens, closes, reports, run-active, run-totals, reported, opened, closed,
}
use subnetwork_system_torchl.Manager.Worker.{
  WorkerManager, next_upstream, process_user_change, upstream_of,
}
use subnetwork_system_torchl.Captain.Workers.{Worker, config}
use subnetwork_system_torchl.Captain.Events.{ConfigRow}
use subnetwork_system_torchl.Manager.Worker.Kept
use subnetwork_system_torchl.Manager.Worker.Kept.{Call, asks, changes, configures}
use subnetwork_system_torchl.Manager.Worker.Sessions.{next_upstream-sticky}
use subnetwork_system_torchl.Manager.Worker.Events.{
  Decoders, handle_event, handle_event-user_change, decoded,
}
use subnetwork_system_torchl.Manager.Worker.Reports
use subnetwork_system_torchl.Manager.Worker.Telemetry.{Transfer}
use subnetwork_system_torchl.Manager.Worker.Reports.{
  report, report-bytes, transferred, told_sent, told_received, sent_by, received_by,
}

-- Whole numbers in place of float32.
abbrev whole : Float32
whole = record {
  Carrier = ℕ;
  of_nat = λ n. n;
  add = λ a b. a + b;
  mul = λ a b. a * b;
  div = λ a b. a / b;
  above = λ a b. ltb b a;
}

abbrev calls : List Counters.Call
calls = opens ∷ opens ∷ reports ∷ closes ∷ opens ∷ []

run-active_example :
    (Counters.run whole (new_health_collector whole []) calls).active_connections ≡ 2
unfolding opened closed
run-active_example = run-active whole [] calls (omega arith) (omega arith)

-- A worker that is connected and knows alice until 900, with two upstreams.
abbrev config_row : ℕ → UpstreamConfig
config_row n = record {
  upstream_id = n ∷ [];
  upstream_tag = codes "dc";
  upstream_format = [];
  upstream_username = codes "u";
  upstream_password = codes "p";
  upstream_host = codes "10.0.0.1";
  upstream_port = pos (8000 + n);
  upstream_provider = codes "geonode";
  weight = pos 1;
}

abbrev alice : CachedUser
alice = record {
  user = record {
    id = codes "1";
    username = codes "alice";
    password = codes "pw";
    status = codes "active";
    ip_whitelist = [];
    pools = [];
    sessions = [];
    connection_count = pos 0;
  };
  cached_at = 0;
  expire_at = 900;
}

abbrev up : ℕ → Upstream
up n = upstream_of whole (config_row n)

abbrev running : WorkerManager whole
running = record {
  id = codes "w";
  name = codes "w1";
  region = codes "eu";
  pool = none;
  upstream_manager = record { upstreams = up 0 ∷ up 1 ∷ []; index = 3 };
  health_collector = new_health_collector whole (codes "w");
  user_manager = record {
    cached_users = store new_concurrent_map (codes "alice") alice;
    pending_validations = [];
    ttl = 900;
  };
  egress = some [];
}

running-IsReady : length running.user_manager.cached_users ≡ shard_count
unfolding new_concurrent_map
running-IsReady = length-store new_concurrent_map (codes "alice") alice

alice_known : get running.user_manager.cached_users (codes "alice") ≡ some alice
unfolding get store new_concurrent_map shard_index insert lookup str_eq
alice_known = refl

-- What the first call of the session leaves: the second upstream, kept for the session.
abbrev in_session : WorkerManager whole
in_session = record running {
  upstream_manager = record { upstreams = up 0 ∷ up 1 ∷ []; index = 4 };
  user_manager = record running.user_manager {
    cached_users =
        store (store new_concurrent_map (codes "alice") alice) (codes "alice")
          (record alice { user = record alice.user { sessions = (codes "s", up 1) ∷ [] } });
  };
}

first_call :
    next_upstream whole running 100 (codes "alice") (codes "s") ≡ ok (in_session, some (up 1))
unfolding next_upstream Users.get_user get store new_concurrent_map shard_index insert lookup str_eq
    next pick
first_call = refl

-- Another session, a connection, a change of another user, and a configuration without upstreams.
abbrev meanwhile : List Call
meanwhile =
    asks 200 (codes "alice") (codes "other")
    ∷ Call.opens (codes "alice")
    ∷ configures (record {
      worker_name = codes "w1";
      region = codes "eu";
      pool_id = codes "p";
      pool_tag = codes "us";
      pool_port = pos 80;
      pool_subdomain = codes "us";
      upstreams = [];
    })
    ∷ changes (codes "carol")
    ∷ Call.closes (codes "alice")
    ∷ []

abbrev result : Outcome (Unit {0}) (WorkerManager whole) → WorkerManager whole
result (ok w) = w
result _ = in_session

abbrev later_on : WorkerManager whole
later_on = result (Kept.calls whole in_session meanwhile)

meanwhile_lem : Kept.calls whole in_session meanwhile ≡ ok later_on
unfolding Kept.calls Kept.call next_upstream Users.get_user get store new_concurrent_map shard_index
    insert lookup str_eq next pick
meanwhile_lem = refl

next_upstream-sticky_example :
    next_upstream whole later_on 800 (codes "alice") (codes "s") ≡ ok (later_on, some (up 1))
next_upstream-sticky_example =
    next_upstream-sticky whole running in_session later_on (codes "alice") b's' [] alice (up 1) 100
      800 meanwhile running-IsReady alice_known (omega arith) (omega arith) first_call
      (omega arith, (tt, (tt, (unfold str_eq in refl, (tt, tt))))) meanwhile_lem

-- Payloads that are text: an empty one is no response, one that starts with zero is no success.
abbrev response : Str → Option (Bool × Str)
response [] = none
response (c ∷ p) = some (c == 1, p)

abbrev texts : Decoders Str
texts = record {
  response = response;
  config = λ p. none;
  user = λ p. none;
  text = λ p. some p;
  uuid = λ p. some p;
}

handle_event-user_change_example :
    let w' = process_user_change whole running (codes "alice") in
    (handle_event whole texts running 5 (codes "user_change") (1 ∷ codes "alice") ≡ ok (w', none))
    × (Cmap.get w'.user_manager.cached_users (codes "alice") ≡ none)
    × ((Users.verify_user w'.user_manager 6 (codes "alice") (codes "pw") (codes "us") 4).1
        ≡ wait (record { username = codes "alice"; password = codes "pw" }))
unfolding decoded str_eq
handle_event-user_change_example =
    handle_event-user_change whole texts running 5 6 4 (1 ∷ codes "alice") (codes "alice")
      (codes "pw") (codes "us") (codes "alice") running-IsReady refl

abbrev transfers : List Transfer
transfers =
    record {
      sent = 10;
      received = 20;
      username = codes "alice";
      source_ip = [];
      dest_host = codes "a.de";
      dest_port = 443;
      is_https = true;
    }
    ∷ record {
      sent = 7;
      received = 0;
      username = codes "carol";
      source_ip = [];
      dest_host = codes "a.de";
      dest_port = 443;
      is_https = true;
    }
    ∷ []

report-bytes_example :
    (Reports.written whole
        (told_sent (codes "alice"))
        (report whole (λ u. u) (λ s. s) running transfers).egress
      ≡ 10)
    × (Reports.written whole
          (told_received (codes "alice"))
          (report whole (λ u. u) (λ s. s) running transfers).egress
        ≡ 20)
unfolding transferred Reports.told sent_by received_by str_eq
report-bytes_example = report-bytes whole (λ u. u) (λ s. s) (codes "alice") running transfers

-- An upstream of a pool, as Captain's query finds it.
abbrev found : Str → ℕ → ConfigRow
found address port = record {
  worker_name = codes "w1";
  region = codes "eu";
  pool_id = codes "p";
  pool_tag = codes "us";
  pool_port = pos 80;
  pool_subdomain = codes "us";
  upstream_id = address;
  upstream_tag = codes "dc";
  config_format = [];
  username = codes "u";
  password = codes "p";
  upstream_address = address;
  upstream_port = pos port;
  upstream_provider = codes "geonode";
  weight = pos 1;
}

abbrev asking : Worker
asking = record { id = codes "w"; name = codes "w1"; pool_id = codes "p"; egress = [] }
