-- ===== src/Manager/Worker/Events.antt =====
-- WebsocketManager.HandleEvent: the events that Captain sends.
use subnetwork_system_torchl.Prelude.{
  ℕ, ◌≡◌, refl, Bool, true, false, Option, none, some, if◌then◌else◌, length, Outcome, ok, ◌>>=◌,
  ap, ◌⊎◌, inl, inr,
}
use subnetwork_system_torchl.Text.{Str, codes, str_eq, str_eq_refl}
use subnetwork_system_torchl.Cmap
use subnetwork_system_torchl.Cmap.{shard_count}
use subnetwork_system_torchl.Cmap.Laws.{get-remove}
use subnetwork_system_torchl.Manager.Models.{Uuid, UserPayload, ConfigPayload}
use subnetwork_system_torchl.Manager.Users.{UserManager, get_user, remove_user, verify_user, wait}
use subnetwork_system_torchl.Manager.Users
use subnetwork_system_torchl.Manager.Health.{Float32}
use subnetwork_system_torchl.Manager.Worker.Defs.{
  WorkerManager, process_config, process_verify_user_response, process_user_change,
  process_pool_change,
}

-- An event as it comes off the socket. A payload is decoded by json.Marshal and json.Unmarshal into
-- the handler's type; none is an error of either.
pub record Decoders (Json : Type 0) : Type 0 where
  pub response : Json → Option (Bool × Json)
  pub config : Json → Option ConfigPayload
  pub user : Json → Option UserPayload
  pub text : Json → Option Str
  pub uuid : Json → Option Uuid

if_same : {A : Type 0} {x y z : A} (b : Bool) → x ≡ z → y ≡ z → (if b then x else y) ≡ z
if_same true h k = h
if_same false h k = k

module _ (F : Float32) {Json : Type 0} (D : Decoders Json) where
  inner : {A : Type 0} → (Json → Option A) → Option (Bool × Json) → Option A
  inner decode none = none
  inner decode (some (false, payload)) = none
  inner decode (some (true, payload)) = decode payload

  -- The part that the four handlers share: the Response, its Success, and the payload inside.
  unfoldable pub decoded : {A : Type 0} → (Json → Option A) → Json → Option A
  unfolding inner
  decoded decode payload = inner decode (D.response payload)

  abbrev pub Handled : Type 0
  Handled = Outcome (Unit {0}) (WorkerManager F × Option ℕ)

  with_config : WorkerManager F → Option ConfigPayload → Handled
  with_config w none = ok (w, none)
  with_config w (some cfg) = ok (process_config F w cfg, none)

  unfoldable pub handle_config : WorkerManager F → Json → Handled
  unfolding with_config
  handle_config w payload = with_config w (decoded D.config payload)

  with_user : WorkerManager F → ℕ → Option UserPayload → Handled
  with_user w now none = ok (w, none)
  with_user w now (some p) = ok (process_verify_user_response F w now p)

  unfoldable pub handle_verify_user_response : WorkerManager F → ℕ → Json → Handled
  unfolding with_user
  handle_verify_user_response w now payload = with_user w now (decoded D.user payload)

  with_name : WorkerManager F → Option Str → Handled
  with_name w none = ok (w, none)
  with_name w (some username) = ok (process_user_change F w username, none)

  unfoldable pub handle_user_change : WorkerManager F → Json → Handled
  unfolding with_name
  handle_user_change w payload = with_name w (decoded D.text payload)

  with_pool : WorkerManager F → Option Uuid → Handled
  with_pool w none = ok (w, none)
  with_pool w (some pool_id) = process_pool_change F w pool_id >>= λ w'. ok (w', none)

  unfoldable pub handle_pool_change : WorkerManager F → Json → Handled
  unfolding with_pool
  handle_pool_change w payload = with_pool w (decoded D.uuid payload)

  -- The new state, and the channel on which the event sent `true` to a waiting login.
  unfoldable pub handle_event : WorkerManager F → ℕ → Str → Json → Handled
  handle_event w now type payload =
      if str_eq type (codes "config")
      then handle_config w payload
      else if str_eq type (codes "login_success")
      then handle_verify_user_response w now payload
      else if str_eq type (codes "user_change")
      then handle_user_change w payload
      else if str_eq type (codes "pool_change")
      then handle_pool_change w payload
      else ok (w, none)

  decoded-failed :
      {A : Type 0} (decode : Json → Option A) (payload : Json)
      → (D.response payload ≡ none) ⊎ ((p : Json) × (D.response payload ≡ some (false, p)))
      → decoded decode payload ≡ none
  unfolding decoded
  decoded-failed decode payload (inl e) = rw e refl
  decoded-failed decode payload (inr (p, e)) = rw e refl

  -- An event of any type whose payload is no response, or a response that says it is no success,
  -- changes nothing and lets no login in.
  pub handle_event-failed :
      (w : WorkerManager F) (now : ℕ) (type : Str) (payload : Json)
      → (D.response payload ≡ none) ⊎ ((p : Json) × (D.response payload ≡ some (false, p)))
      → handle_event w now type payload ≡ ok (w, none)
  unfolding handle_event handle_config handle_verify_user_response handle_user_change
      handle_pool_change
  handle_event-failed w now type payload h =
      if_same (str_eq type (codes "config"))
        (ap (with_config w) (decoded-failed D.config payload h))
        (if_same (str_eq type (codes "login_success"))
          (ap (with_user w now) (decoded-failed D.user payload h))
          (if_same (str_eq type (codes "user_change"))
            (ap (with_name w) (decoded-failed D.text payload h))
            (if_same (str_eq type (codes "pool_change"))
              (ap (with_pool w) (decoded-failed D.uuid payload h)) refl)))

  -- A "user_change" event that names a user evicts that user and nobody else, and the next login of
  -- that name asks Captain, whatever the cache held.
  pub handle_event-user_change :
      (w : WorkerManager F) (now later chan : ℕ) (payload : Json) (username password tag j : Str)
      → length w.user_manager.cached_users ≡ shard_count
      → decoded D.text payload ≡ some username
      → let w' = process_user_change F w username in
        (handle_event w now (codes "user_change") payload ≡ ok (w', none))
        × (Cmap.get w'.user_manager.cached_users j
            ≡ (if str_eq username j then none else Cmap.get w.user_manager.cached_users j))
        × ((Users.verify_user w'.user_manager later username password tag chan).1
            ≡ wait (record { username = username; password = password }))
  unfolding handle_event handle_user_change process_user_change remove_user verify_user str_eq
  handle_event-user_change w now later chan payload username password tag j r e = (
    ap (with_name w) e,
    get-remove w.user_manager.cached_users username j r,
    rw (get-remove w.user_manager.cached_users username username r, str_eq_refl username) refl,
  )
