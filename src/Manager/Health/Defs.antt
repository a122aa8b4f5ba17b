-- ===== src/Manager/Health/Defs.antt =====
-- The operations of HealthCollector.
use subnetwork_system_torchl.Prelude.{
  ℕ, zero, suc, ◌+◌, ◌-◌, ◌*◌, ◌/◌, ◌%◌, ◌^◌, Bool, List, [], ◌∷◌, ◌++◌, Option, none, some,
  if◌then◌else◌, ltb, ℤ, pos, negsuc,
}
use subnetwork_system_torchl.Text.{Str}
use subnetwork_system_torchl.Dict.{Dict, lookup, insert}
use subnetwork_system_torchl.Manager.Models.{Uuid}

-- The bits of an int64, its value, and the quotient that Go rounds towards zero.
abbrev pub to_bits : ℤ → ℕ
to_bits (pos n) = n % 2 ^ 64
to_bits (negsuc n) = (2 ^ 64 - suc n % 2 ^ 64) % 2 ^ 64

abbrev pub of_bits : ℕ → ℤ
of_bits n = if ltb n (2 ^ 63) then pos n else negsuc (2 ^ 64 - n - 1)

abbrev neg : ℕ → ℤ
neg zero = pos 0
neg (suc n) = negsuc n

unfoldable pub quot : ℤ → ℤ → ℤ
quot (pos a) (pos b) = pos (a / b)
quot (pos a) (negsuc b) = neg (a / suc b)
quot (negsuc a) (pos b) = neg (suc a / b)
quot (negsuc a) (negsuc b) = pos (suc a / suc b)

-- float32, as far as the collector computes with it.
pub record Float32 : Type 1 where
  pub Carrier : Type 0
  pub of_nat : ℕ → Carrier
  pub add : Carrier → Carrier → Carrier
  pub mul : Carrier → Carrier → Carrier
  pub div : Carrier → Carrier → Carrier
  pub above : Carrier → Carrier → Bool

pub record UpstreamStats : Type 0 where
  pub upstream_id : Uuid
  pub upstream_tag : Str
  pub total_latency : ℕ
  pub request_count : ℕ
  pub error_count : ℕ

-- latency.Milliseconds() of a duration in nanoseconds.
abbrev pub milliseconds : ℤ → ℤ
milliseconds latency = quot latency (pos 1000000)

abbrev pub wrap64 : ℕ → ℕ
wrap64 n = n % 2 ^ 64

abbrev no_stats : Uuid → Str → UpstreamStats
no_stats id tag = record {
  upstream_id = id;
  upstream_tag = tag;
  total_latency = 0;
  request_count = 0;
  error_count = 0;
}

count_in : ℤ → Bool → UpstreamStats → UpstreamStats
count_in latency is_error s = record s {
  total_latency = wrap64 (s.total_latency + to_bits (milliseconds latency));
  request_count = wrap64 (s.request_count + 1);
  error_count = if is_error then wrap64 (s.error_count + 1) else s.error_count;
}

-- The entry of the table after one more request to the upstream.
unfoldable pub count_request : Uuid → Str → ℤ → Bool → Option UpstreamStats → UpstreamStats
unfolding count_in
count_request id tag latency is_error none = count_in latency is_error (no_stats id tag)
count_request id tag latency is_error (some s) = count_in latency is_error s

module _ (F : Float32) where
  pub record HealthSample : Type 0 where
    pub cpu_usage : F.Carrier
    pub memory_usage : F.Carrier

  pub record HealthCollector : Type 0 where
    pub worker_id : Uuid
    pub worker_name : Str
    pub region : Str
    pub samples : List HealthSample
    pub active_connections : ℕ
    pub total_connections : ℕ
    pub bytes_throughput : ℕ
    pub error_count : ℕ
    pub success_count : ℕ
    pub upstream_stats : Dict UpstreamStats

  pub record UpstreamHealth : Type 0 where
    pub upstream_id : Uuid
    pub upstream_tag : Str
    pub status : Str
    pub latency : ℤ
    pub error_rate : F.Carrier

  pub record WorkerHealth : Type 0 where
    pub worker_id : Uuid
    pub worker_name : Str
    pub region : Str
    pub pool_tag : Str
    pub status : Str
    pub cpu_usage : F.Carrier
    pub memory_usage : F.Carrier
    pub active_connections : ℕ
    pub total_connections : ℕ
    pub bytes_throughput_per_sec : ℕ
    pub error_rate : F.Carrier
    pub upstreams : List UpstreamHealth

  unfoldable pub new_health_collector : Uuid → HealthCollector
  new_health_collector id = record {
    worker_id = id;
    worker_name = [];
    region = [];
    samples = [];
    active_connections = 0;
    total_connections = 0;
    bytes_throughput = 0;
    error_count = 0;
    success_count = 0;
    upstream_stats = [];
  }

  -- What RecordSample reads from the runtime: the heap in use and the memory taken from the
  -- system, the goroutines and the processors.
  unfoldable pub record_sample : ℕ → ℕ → ℕ → ℕ → HealthCollector → HealthCollector
  record_sample alloc sys goroutines cpus h =
      let hundred = F.of_nat 100 in
      let mem =
        if ltb 0 sys then F.mul (F.div (F.of_nat alloc) (F.of_nat sys)) hundred else F.of_nat 0 in
      let load = F.mul (F.div (F.of_nat goroutines) (F.of_nat (cpus * 100))) hundred in
      let cpu = if F.above load hundred then hundred else load in
      record h { samples = h.samples ++ record { cpu_usage = cpu; memory_usage = mem } ∷ [] }

  unfoldable pub increment_connection : HealthCollector → HealthCollector
  increment_connection h = record h {
    active_connections = (h.active_connections + 1) % 2 ^ 32;
    total_connections = wrap64 (h.total_connections + 1);
  }

  -- AddUint32(&h.activeConnections, ^uint32(0))
  unfoldable pub decrement_connection : HealthCollector → HealthCollector
  decrement_connection h = record h {
    active_connections = (h.active_connections + (2 ^ 32 - 1)) % 2 ^ 32;
  }

  unfoldable pub add_throughput : ℕ → HealthCollector → HealthCollector
  add_throughput bytes h = record h { bytes_throughput = wrap64 (h.bytes_throughput + bytes) }

  unfoldable pub record_error : HealthCollector → HealthCollector
  record_error h = record h { error_count = wrap64 (h.error_count + 1) }

  unfoldable pub record_success : HealthCollector → HealthCollector
  record_success h = record h { success_count = wrap64 (h.success_count + 1) }

  unfoldable pub record_upstream_latency : Uuid → Str → ℤ → Bool → HealthCollector → HealthCollector
  record_upstream_latency id tag latency is_error h = record h {
    upstream_stats =
        insert id (count_request id tag latency is_error (lookup id h.upstream_stats))
          h.upstream_stats;
  }

  unfoldable pub update_worker_info : Str → Str → HealthCollector → HealthCollector
  update_worker_info name region h = record h { worker_name = name; region = region }
