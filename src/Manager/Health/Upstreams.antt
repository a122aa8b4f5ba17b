-- ===== src/Manager/Health/Upstreams.antt =====
-- What the report says of the upstreams.
use subnetwork_system_torchl.Prelude.{
  ℕ, suc, ◌+◌, ◌≤◌, ◌<◌, ◌^◌, ◌%◌, ◌≡◌, Bool, ◌&&◌, List, [], ◌∷◌, Option, none, some,
  if◌then◌else◌, arith, ℤ, inl, inr, Option-cases,
}
use subnetwork_system_torchl.Text.{Str, str_eq, str_eq_iff}
use subnetwork_system_torchl.Dict.{lookup, lookup-insert}
use subnetwork_system_torchl.Manager.Models.{Uuid}
use subnetwork_system_torchl.Manager.Health.Defs.{
  Float32, HealthCollector, UpstreamStats, count_request, record_upstream_latency,
}
use subnetwork_system_torchl.Manager.Health.Report.{build_worker_health}

-- A request to an upstream: its identity and tag, the latency, whether it failed.
pub record Request : Type 0 where
  pub id : Uuid
  pub tag : Str
  pub latency : ℤ
  pub failed : Bool

-- How many of the requests went to an upstream, and how many of these failed.
unfoldable pub sent_to : Uuid → List Request → ℕ
sent_to id [] = 0
sent_to id (r ∷ rs) = if str_eq r.id id then suc (sent_to id rs) else sent_to id rs

unfoldable pub failed_at : Uuid → List Request → ℕ
failed_at id [] = 0
failed_at id (r ∷ rs) =
    if str_eq r.id id && r.failed then suc (failed_at id rs) else failed_at id rs

failed-sent : (id : Uuid) (rs : List Request) → failed_at id rs ≤ sent_to id rs
unfolding sent_to failed_at
failed-sent id [] = omega arith
failed-sent id (r ∷ rs) = ground (arith, failed-sent id rs)

abbrev pub requests_of : Option UpstreamStats → ℕ
requests_of none = 0
requests_of (some s) = s.request_count

abbrev pub errors_of : Option UpstreamStats → ℕ
errors_of none = 0
errors_of (some s) = s.error_count

module _ (F : Float32) where
  unfoldable pub measure : HealthCollector F → List Request → HealthCollector F
  measure h [] = h
  measure h (r ∷ rs) = measure (record_upstream_latency F r.id r.tag r.latency r.failed h) rs

  measured :
      (id : Uuid) (h : HealthCollector F) (r : Request)
      → let after =
          lookup id (record_upstream_latency F r.id r.tag r.latency r.failed h).upstream_stats in
        let before = lookup id h.upstream_stats in
        (requests_of after
          ≡ (if str_eq r.id id then (requests_of before + 1) % 2 ^ 64 else requests_of before))
        × (errors_of after ≡ (
            if str_eq r.id id && r.failed
            then (errors_of before + 1) % 2 ^ 64
            else errors_of before))
  unfolding record_upstream_latency count_request
  measured id h r = elim (Option-cases (lookup r.id h.upstream_stats)) [
    | inl e ↦ ground (
      arith,
      e,
      str_eq_iff r.id id,
      lookup-insert r.id id (count_request r.id r.tag r.latency r.failed none) h.upstream_stats,
    )
    | inr (s, e) ↦ ground (
      arith,
      e,
      str_eq_iff r.id id,
      lookup-insert r.id id (count_request r.id r.tag r.latency r.failed (some s)) h.upstream_stats,
    )
  ]

  measure_from :
      (id : Uuid) (h : HealthCollector F) (rs : List Request)
      → requests_of (lookup id h.upstream_stats) + sent_to id rs < 2 ^ 64
      → errors_of (lookup id h.upstream_stats) + failed_at id rs < 2 ^ 64
      → (requests_of (lookup id (measure h rs).upstream_stats)
          ≡ requests_of (lookup id h.upstream_stats) + sent_to id rs)
        × (errors_of (lookup id (measure h rs).upstream_stats)
            ≡ errors_of (lookup id h.upstream_stats) + failed_at id rs)
  unfolding measure sent_to failed_at
  measure_from id h [] l m = (omega arith, omega arith)
  measure_from id h (r ∷ rs) l m =
      let next = record_upstream_latency F r.id r.tag r.latency r.failed h in
      ground (arith, measured id h r, measure_from id next rs)

  -- The requests measured after a report, fewer than 2^64, are counted for the upstream that they
  -- went to and for no other, with exactly the failed ones as errors; nothing of an earlier period
  -- is left.
  pub measure-counts :
      (id : Uuid) (h : HealthCollector F) (rs : List Request)
      → sent_to id rs < 2 ^ 64
      → let stats = lookup id (measure (build_worker_health F h).0 rs).upstream_stats in
        (requests_of stats ≡ sent_to id rs) × (errors_of stats ≡ failed_at id rs)
  unfolding build_worker_health lookup
  measure-counts id h rs l =
      let fewer = failed-sent id rs in
      ground (arith, measure_from id (build_worker_health F h).0 rs, fewer)
