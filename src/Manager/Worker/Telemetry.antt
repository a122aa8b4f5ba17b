-- ===== src/Manager/Worker/Telemetry.antt =====
-- What the worker counts and reports: the traffic of its users and its own health.
use subnetwork_system_torchl.Prelude.{
  ℕ, Bool, ◌||◌, List, [], ◌∷◌, ◌++◌, Option, none, some, if◌then◌else◌, ltb, ℤ, Outcome, ok, panic,
}
use subnetwork_system_torchl.Text.{Str, codes}
use subnetwork_system_torchl.Manager.Models.{Uuid, Pool, Upstream, UserDataUsage}
use subnetwork_system_torchl.Manager.Health
use subnetwork_system_torchl.Manager.Health.{Float32, HealthCollector, WorkerHealth}
use subnetwork_system_torchl.Manager.Worker.Defs.{WorkerManager, Event, usage, health, nil_uuid}

module _ (F : Float32) where
  unfoldable pub record_upstream_latency : WorkerManager F → Upstream → ℤ → Bool → WorkerManager F
  record_upstream_latency w up latency failed = record w {
    health_collector =
        Health.record_upstream_latency F up.upstream_id up.upstream_tag latency failed
          w.health_collector;
  }

  unfoldable pub increment_connection : WorkerManager F → WorkerManager F
  increment_connection w = record w {
    health_collector = Health.increment_connection F w.health_collector;
  }

  unfoldable pub decrement_connection : WorkerManager F → Bool → WorkerManager F
  decrement_connection w is_err =
      let h = Health.decrement_connection F w.health_collector in
      record w {
        health_collector = if is_err then Health.record_error F h else Health.record_success F h;
      }

  unfoldable pub add_throughput : WorkerManager F → ℕ → WorkerManager F
  add_throughput w bytes = record w {
    health_collector = Health.add_throughput F bytes w.health_collector;
  }

  -- `string` is uuid.UUID.String.
  unfoldable pub get_pool_info : (Uuid → Str) → WorkerManager F → Str × Str
  get_pool_info string w = elim w.pool [ none ↦ ([], []) | some p ↦ (string p.pool_id, p.pool_tag) ]

  -- SendDataUsage and SendHealthTelemetry test the manager before they write.
  send_to : WorkerManager F → UserDataUsage → Option (List (Event F)) → WorkerManager F
  send_to w u none = w
  send_to w u (some sent) = record w {
    egress = some (sent ++ record { type = codes "telemetry_usage"; payload = usage u } ∷ []);
  }

  unfoldable pub send_data_usage : WorkerManager F → UserDataUsage → WorkerManager F
  unfolding send_to
  send_data_usage w u = send_to w u w.egress

  health_to : WorkerManager F → List (Event F) → Option Pool → Outcome (Unit {0}) (WorkerManager F)
  health_to w sent none = panic
  health_to w sent (some p) =
      let (h, report) = Health.build_worker_health F w.health_collector in
      let event : Event F = record {
        type = codes "telemetry_health";
        payload = health (record report { pool_tag = p.pool_tag });
      } in
      ok (record w { health_collector = h; egress = some (sent ++ event ∷ []) })

  unfoldable pub send_health_telemetry : WorkerManager F → Outcome (Unit {0}) (WorkerManager F)
  unfolding health_to
  send_health_telemetry w = elim w.egress [ none ↦ ok w | some sent ↦ health_to w sent w.pool ]

  -- The usage that is reported; `parse` is the UUID that uuid.Parse returns, whatever its error.
  unfoldable pub usage_for :
      (Uuid → Str)
      → (Str → Uuid)
      → WorkerManager F
      → ℕ
      → ℕ
      → Str
      → Str
      → Str
      → ℕ
      → Bool
      → UserDataUsage
  unfolding get_pool_info
  usage_for string parse w sent received username source_ip dest_host dest_port is_https =
      let (pool_id, pool_name) = get_pool_info string w in
      record {
        user_id = nil_uuid;
        username = username;
        pool_id = parse pool_id;
        pool_name = pool_name;
        worker_id = parse (string w.id);
        worker_region = elim w.pool [ none ↦ [] | some p ↦ p.region ];
        bytes_sent = sent;
        bytes_received = received;
        source_ip = source_ip;
        protocol = if is_https then codes "HTTPS" else codes "HTTP";
        destination_host = dest_host;
        destination_port = dest_port;
        status_code = 200;
      }

  unfoldable pub record_data_usage :
      (Uuid → Str)
      → (Str → Uuid)
      → WorkerManager F
      → ℕ
      → ℕ
      → Str
      → Str
      → Str
      → ℕ
      → Bool
      → WorkerManager F
  unfolding send_data_usage usage_for
  record_data_usage string parse w sent received username source_ip dest_host dest_port is_https =
      let used =
        send_data_usage w (
          usage_for string parse w sent received username source_ip dest_host dest_port is_https) in
      if ltb 0 sent || ltb 0 received then used else w

-- A transfer that a service reports.
pub record Transfer : Type 0 where
  pub sent : ℕ
  pub received : ℕ
  pub username : Str
  pub source_ip : Str
  pub dest_host : Str
  pub dest_port : ℕ
  pub is_https : Bool
