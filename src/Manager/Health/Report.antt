-- ===== src/Manager/Health/Report.antt =====
-- BuildWorkerHealth.
use subnetwork_system_torchl.Prelude.{
  ℕ, ◌+◌, ◌/◌, ◌&&◌, List, [], ◌∷◌, if◌then◌else◌, ◌==◌, ltb, pos, length,
}
use subnetwork_system_torchl.Text.{Str, codes}
use subnetwork_system_torchl.Dict.{Dict}
use subnetwork_system_torchl.Manager.Health.Defs.{
  to_bits, of_bits, quot, Float32, UpstreamStats, wrap64, HealthSample, HealthCollector,
  UpstreamHealth, WorkerHealth,
}

module _ (F : Float32) where
  total_of : (HealthSample F → F.Carrier) → List (HealthSample F) → F.Carrier → F.Carrier
  total_of usage [] total = total
  total_of usage (s ∷ samples) total = total_of usage samples (F.add total (usage s))

  pub average : (HealthSample F → F.Carrier) → List (HealthSample F) → F.Carrier
  average usage [] = F.of_nat 0
  average usage (s ∷ samples) =
      F.div (total_of usage (s ∷ samples) (F.of_nat 0)) (F.of_nat (length (s ∷ samples)))

  -- float32(errors) / float32(total) * 100, and 0 of no requests.
  pub rate : ℕ → ℕ → F.Carrier
  rate errors total =
      if ltb 0 total
      then F.mul (F.div (F.of_nat errors) (F.of_nat total)) (F.of_nat 100)
      else F.of_nat 0

  unfoldable pub upstream_health : UpstreamStats → UpstreamHealth F
  upstream_health s =
      let error_rate = rate s.error_count s.request_count in
      record {
        upstream_id = s.upstream_id;
        upstream_tag = s.upstream_tag;
        status =
            if F.above error_rate (F.of_nat 80)
            then codes "unhealthy"
            else if F.above error_rate (F.of_nat 50)
            then codes "degraded"
            else codes "healthy";
        latency =
            if ltb 0 s.request_count
            then of_bits (to_bits (quot (of_bits s.total_latency) (of_bits s.request_count)))
            else pos 0;
        error_rate = error_rate;
      }

  unfoldable pub stats_health : Dict UpstreamStats → List (UpstreamHealth F)
  stats_health [] = []
  stats_health ((id, s) ∷ stats) = upstream_health s ∷ stats_health stats

  unfoldable pub worker_status : ℕ → ℕ → F.Carrier → Str
  worker_status active total error_rate =
      if (active == 0) && (total == 0)
      then codes "idle"
      else if F.above error_rate (F.of_nat 50)
      then codes "degraded"
      else codes "healthy"

  -- BuildWorkerHealth: the collector as the report leaves it, and the report, whose pool tag the
  -- caller sets. The order of `upstream_stats` is that of the loop over the table.
  unfoldable pub build_worker_health : HealthCollector F → HealthCollector F × WorkerHealth F
  build_worker_health h =
      let error_rate = rate h.error_count (wrap64 (h.error_count + h.success_count)) in
      (
        record h {
          samples = [];
          total_connections = 0;
          bytes_throughput = 0;
          error_count = 0;
          success_count = 0;
          upstream_stats = [];
        },
        record {
          worker_id = h.worker_id;
          worker_name = h.worker_name;
          region = h.region;
          pool_tag = [];
          status = worker_status h.active_connections h.total_connections error_rate;
          cpu_usage = average (λ s. s.cpu_usage) h.samples;
          memory_usage = average (λ s. s.memory_usage) h.samples;
          active_connections = h.active_connections;
          total_connections = h.total_connections;
          bytes_throughput_per_sec = h.bytes_throughput / 3600;
          error_rate = error_rate;
          upstreams = stats_health h.upstream_stats;
        },
      )
