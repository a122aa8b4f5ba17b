-- ===== src/Manager/Worker/Config.antt =====
-- What a configuration from Captain does to the worker.
use subnetwork_system_torchl.Prelude.{
  ◌<◌, ◌≤◌, ◌+◌, ◌^◌, ◌≡◌, refl, List, [], ◌∷◌, map, some, length, arith, ap, suc, subst,
}
use mathlib.Core.List.{Perm}
use subnetwork_system_torchl.Manager.Models.{ConfigPayload}
use subnetwork_system_torchl.Manager.Upstreams.{set_upstreams}
use subnetwork_system_torchl.Manager.Upstreams.Rotation.{next_n, next_n-perm}
use subnetwork_system_torchl.Manager.Health.{Float32, update_worker_info}
use subnetwork_system_torchl.Manager.Worker.Defs.{WorkerManager, process_config, upstream_of}

length-map : {A B : Type 0} (f : A → B) (xs : List A) → length (map f xs) ≡ length xs
length-map f [] = refl
length-map f (x ∷ xs) = ap suc (length-map f xs)

module _ (F : Float32) (w : WorkerManager F) (cfg : ConfigPayload) where
  -- Behind a configuration with at least one upstream, as many calls of Next as it has upstreams
  -- give every one of them exactly once, wherever the rotation stood, if its index does not
  -- overflow on the way. Users, counters and sessions of users stay as they were.
  pub process_config-rotation :
      0 < length cfg.upstreams
      → w.upstream_manager.index + length cfg.upstreams ≤ 2 ^ 64
      → Perm
          (next_n (length cfg.upstreams) (process_config F w cfg).upstream_manager)
          (map some (map (upstream_of F) cfg.upstreams))
        × ((process_config F w cfg).user_manager ≡ w.user_manager)
  unfolding process_config set_upstreams
  process_config-rotation l m =
      let us = map (upstream_of F) cfg.upstreams in
      let n : length us ≡ length cfg.upstreams = length-map (upstream_of F) cfg.upstreams in
      (
        subst (λ k. Perm (next_n k (set_upstreams w.upstream_manager us)) (map some us)) n
            (unfold set_upstreams in
              next_n-perm (set_upstreams w.upstream_manager us) (omega (arith, n))
                (omega (arith, n))),
        refl,
      )

  -- The collector is told the region of the new pool, which nothing has set: whatever region Captain
  -- configures, its reports name none.
  pub process_config-region :
      ((process_config F w cfg).region ≡ cfg.region)
      × ((process_config F w cfg).health_collector.region ≡ [])
      × ((process_config F w cfg).health_collector.worker_name ≡ cfg.worker_name)
  unfolding process_config update_worker_info
  process_config-region = (refl, refl, refl)
