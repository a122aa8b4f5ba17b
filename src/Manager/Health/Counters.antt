-- ===== src/Manager/Health/Counters.antt =====
-- What the counters and the reports say of the connections that were opened and closed.
use subnetwork_system_torchl.Prelude.{
  ℕ, suc, ◌+◌, ◌-◌, ◌%◌, ◌^◌, ◌≤◌, ◌<◌, ◌≡◌, refl, ◌↔◌, Bool, ◌&&◌, List, [], ◌∷◌, ◌==◌, arith, ℤ,
  Bool-cases, inl, inr,
}
use subnetwork_system_torchl.Text.{Str, codes}
use subnetwork_system_torchl.Manager.Models.{Uuid}
use subnetwork_system_torchl.Manager.Health.Defs.{
  Float32, HealthCollector, new_health_collector, record_sample, increment_connection,
  decrement_connection, add_throughput, record_error, record_success, record_upstream_latency,
  update_worker_info,
}
use subnetwork_system_torchl.Manager.Health.Report.{build_worker_health, worker_status}

-- The calls of the collector, in the order in which they take effect.
pub data Call : Type 0 where
  opens closes errs succeeds reports : Call
  carries : ℕ → Call
  measures : Uuid → Str → ℤ → Bool → Call
  samples : ℕ → ℕ → ℕ → ℕ → Call
  renames : Str → Str → Call

unfoldable pub opened : List Call → ℕ
opened [] = 0
opened (opens ∷ cs) = suc (opened cs)
opened (_ ∷ cs) = opened cs

unfoldable pub closed : List Call → ℕ
closed [] = 0
closed (closes ∷ cs) = suc (closed cs)
closed (_ ∷ cs) = closed cs

module _ (F : Float32) where
  unfoldable pub step : HealthCollector F → Call → HealthCollector F
  step h opens = increment_connection F h
  step h closes = decrement_connection F h
  step h errs = record_error F h
  step h succeeds = record_success F h
  step h reports = (build_worker_health F h).0
  step h (carries bytes) = add_throughput F bytes h
  step h (measures id tag latency is_error) = record_upstream_latency F id tag latency is_error h
  step h (samples alloc sys goroutines cpus) = record_sample F alloc sys goroutines cpus h
  step h (renames name region) = update_worker_info F name region h

  unfoldable pub run : HealthCollector F → List Call → HealthCollector F
  run h [] = h
  run h (c ∷ cs) = run (step h c) cs

  -- The sum of the connections that the reports of a run give.
  unfoldable pub reported : HealthCollector F → List Call → ℕ
  reported h [] = 0
  reported h (reports ∷ cs) =
      (build_worker_health F h).1.total_connections + reported (step h reports) cs
  reported h (c ∷ cs) = reported (step h c) cs

  active_from :
      (h : HealthCollector F) (cs : List Call)
      → h.active_connections < 2 ^ 32
      → ((run h cs).active_connections < 2 ^ 32)
        × (((run h cs).active_connections + closed cs) % 2 ^ 32
            ≡ (h.active_connections + opened cs) % 2 ^ 32)
  unfolding run step opened closed increment_connection decrement_connection record_error
      record_success build_worker_health add_throughput record_upstream_latency record_sample
      update_worker_info
  active_from h [] l = (l, refl)
  active_from h (opens ∷ cs) l =
      let (m, e) = active_from (increment_connection F h) cs (omega arith) in (m, omega (arith, e))
  active_from h (closes ∷ cs) l =
      let (m, e) = active_from (decrement_connection F h) cs (omega arith) in (m, omega (arith, e))
  active_from h (errs ∷ cs) l = active_from (record_error F h) cs l
  active_from h (succeeds ∷ cs) l = active_from (record_success F h) cs l
  active_from h (reports ∷ cs) l = active_from (build_worker_health F h).0 cs l
  active_from h (carries bytes ∷ cs) l = active_from (add_throughput F bytes h) cs l
  active_from h (measures id tag latency is_error ∷ cs) l =
      active_from (record_upstream_latency F id tag latency is_error h) cs l
  active_from h (samples alloc sys goroutines cpus ∷ cs) l =
      active_from (record_sample F alloc sys goroutines cpus h) cs l
  active_from h (renames name region ∷ cs) l = active_from (update_worker_info F name region h) cs l

  -- After any calls on a new collector in which no more connections were closed than opened, and
  -- fewer than 2^32 are open, the active connections are those opened and not closed, whatever
  -- reports were made and however the counter wrapped on the way.
  pub run-active :
      (id : Uuid) (cs : List Call)
      → closed cs ≤ opened cs
      → opened cs - closed cs < 2 ^ 32
      → (run (new_health_collector F id) cs).active_connections ≡ opened cs - closed cs
  unfolding new_health_collector
  run-active id cs l m =
      let (b, e) = active_from (new_health_collector F id) cs (omega arith) in omega (arith, b, e)

  totals_from :
      (h : HealthCollector F) (cs : List Call)
      → h.total_connections + opened cs < 2 ^ 64
      → reported h cs + (run h cs).total_connections ≡ h.total_connections + opened cs
  unfolding run reported step opened increment_connection decrement_connection record_error
      record_success build_worker_health add_throughput record_upstream_latency record_sample
      update_worker_info
  totals_from h [] l = omega arith
  totals_from h (opens ∷ cs) l =
      let e = totals_from (increment_connection F h) cs (omega arith) in omega (arith, e)
  totals_from h (closes ∷ cs) l = totals_from (decrement_connection F h) cs l
  totals_from h (errs ∷ cs) l = totals_from (record_error F h) cs l
  totals_from h (succeeds ∷ cs) l = totals_from (record_success F h) cs l
  totals_from h (reports ∷ cs) l =
      let e = totals_from (build_worker_health F h).0 cs (omega arith) in omega (arith, e)
  totals_from h (carries bytes ∷ cs) l = totals_from (add_throughput F bytes h) cs l
  totals_from h (measures id tag latency is_error ∷ cs) l =
      totals_from (record_upstream_latency F id tag latency is_error h) cs l
  totals_from h (samples alloc sys goroutines cpus ∷ cs) l =
      totals_from (record_sample F alloc sys goroutines cpus h) cs l
  totals_from h (renames name region ∷ cs) l = totals_from (update_worker_info F name region h) cs l

  -- Over any calls on a new collector with fewer than 2^64 opened connections, every connection is
  -- counted in exactly one report, or still waits for the next one.
  pub run-totals :
      (id : Uuid) (cs : List Call)
      → opened cs < 2 ^ 64
      → reported (new_health_collector F id) cs
          + (run (new_health_collector F id) cs).total_connections
        ≡ opened cs
  unfolding new_health_collector
  run-totals id cs l = ground (arith, l, totals_from (new_health_collector F id) cs)

  worker_status-idle_iff :
      (a t : ℕ) (r : F.Carrier) → (worker_status F a t r ≡ codes "idle") ↔ ((a ≡ 0) × (t ≡ 0))
  unfolding worker_status
  worker_status-idle_iff a t r = elim (Bool-cases ((a == 0) && (t == 0))) [
    | inl e ↦ rw e (λ h. ground (arith, e), λ h. refl)
    | inr e ↦ elim (Bool-cases (F.above r (F.of_nat 50))) [
      | inl f ↦ rw (e, f) (λ h. absurd (cc), λ h. absurd (ground (arith, e, h)))
      | inr f ↦ rw (e, f) (λ h. absurd (cc), λ h. absurd (ground (arith, e, h)))
    ]
  ]

  -- A report says "idle" exactly if no connection is open and none was opened since the last one,
  -- whatever the error rate.
  pub report-idle_iff :
      (h : HealthCollector F)
      → ((build_worker_health F h).1.status ≡ codes "idle")
        ↔ ((h.active_connections ≡ 0) × (h.total_connections ≡ 0))
  unfolding build_worker_health
  report-idle_iff h = worker_status-idle_iff h.active_connections h.total_connections _
