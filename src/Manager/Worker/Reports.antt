-- ===== src/Manager/Worker/Reports.antt =====
-- What the usage records of worker/manager/worker.go tell Captain of.
use subnetwork_system_torchl.Prelude.{
  ℕ, ◌+◌, ◌≡◌, refl, ◌≢◌, false, ◌||◌, List, [], ◌∷◌, ◌++◌, Option, none, some, if◌then◌else◌, ltb,
  arith, is_some, ap, ◌∙◌, Bool-cases, Option-cases, inl, inr,
}
use subnetwork_system_torchl.Text.{Str, str_eq}
use subnetwork_system_torchl.Manager.Models.{Uuid, UserDataUsage}
use subnetwork_system_torchl.Manager.Health.{Float32}
use subnetwork_system_torchl.Manager.Worker.Defs.{WorkerManager, Event, Payload, usage}
use subnetwork_system_torchl.Manager.Worker.Telemetry.{
  Transfer, usage_for, record_data_usage, send_data_usage,
}

-- The bytes of a user that a usage event tells of, and those of a transfer.
unfoldable pub told_sent : Str → UserDataUsage → ℕ
told_sent name u = if str_eq u.username name then u.bytes_sent else 0

unfoldable pub told_received : Str → UserDataUsage → ℕ
told_received name u = if str_eq u.username name then u.bytes_received else 0

unfoldable pub sent_by : Str → Transfer → ℕ
sent_by name t = if str_eq t.username name then t.sent else 0

unfoldable pub received_by : Str → Transfer → ℕ
received_by name t = if str_eq t.username name then t.received else 0

unfoldable pub transferred : (Transfer → ℕ) → List Transfer → ℕ
transferred by [] = 0
transferred by (t ∷ ts) = by t + transferred by ts

module _ (F : Float32) where
  -- What the usage events among some events tell Captain of.
  unfoldable pub told : (UserDataUsage → ℕ) → List (Event F) → ℕ
  told of [] = 0
  told of (e ∷ es) = told_in e.payload + told of es
    where
      told_in : Payload F → ℕ
      told_in (usage u) = of u
      told_in _ = 0

  abbrev pub written : (UserDataUsage → ℕ) → Option (List (Event F)) → ℕ
  written of none = 0
  written of (some es) = told of es

module _ (F : Float32) (string : Uuid → Str) (parse : Str → Uuid) where
  abbrev usage_of : WorkerManager F → Transfer → UserDataUsage
  usage_of w t =
      usage_for F string parse w t.sent t.received t.username t.source_ip t.dest_host t.dest_port
        t.is_https

  abbrev after : WorkerManager F → Transfer → WorkerManager F
  after w t =
      record_data_usage F string parse w t.sent t.received t.username t.source_ip t.dest_host
        t.dest_port t.is_https

  unfoldable pub report : WorkerManager F → List Transfer → WorkerManager F
  report w [] = w
  report w (t ∷ ts) = report (after w t) ts

  usage-unsent : (w : WorkerManager F) (t : Transfer) → w.egress ≡ none → (after w t).egress ≡ none
  unfolding record_data_usage send_data_usage
  usage-unsent w t e = elim (Bool-cases (ltb 0 t.sent || ltb 0 t.received)) [
    | inl f ↦ rw (f, e) refl
    | inr f ↦ rw f e
  ]

  report-unsent :
      (w : WorkerManager F) (ts : List Transfer) → w.egress ≡ none → (report w ts).egress ≡ none
  unfolding report
  report-unsent w [] e = e
  report-unsent w (t ∷ ts) e = report-unsent (after w t) ts (usage-unsent w t e)

  module _ (of : UserDataUsage → ℕ) (by : Transfer → ℕ)
      (same : (w : WorkerManager F) (t : Transfer) → of (usage_of w t) ≡ by t)
      (nothing : (t : Transfer) → (ltb 0 t.sent || ltb 0 t.received) ≡ false → by t ≡ 0) where
    told-append : (es fs : List (Event F)) → told F of (es ++ fs) ≡ told F of es + told F of fs
    unfolding told
    told-append [] fs = omega arith
    told-append (e ∷ es) fs = omega (arith, told-append es fs)

    usage-written :
        (w : WorkerManager F) (t : Transfer) (es : List (Event F))
        → w.egress ≡ some es
        → (written F of (after w t).egress ≡ told F of es + by t) × ((after w t).egress ≢ none)
    unfolding record_data_usage send_data_usage told
    usage-written w t es e = elim (Bool-cases (ltb 0 t.sent || ltb 0 t.received)) [
      | inl f ↦ rw (f, e) (told-append es _ ∙ rw (same w t) (omega arith), λ h. absurd (cc))
      | inr f ↦ rw (f, e) (omega (arith, nothing t f), λ h. absurd (cc))
    ]

    report-sent :
        (w : WorkerManager F) (ts : List Transfer)
        → w.egress ≢ none
        → written F of (report w ts).egress ≡ written F of w.egress + transferred by ts
    unfolding report transferred
    report-sent w [] h = omega arith
    report-sent w (t ∷ ts) h = elim (Option-cases w.egress) [
      | inl e ↦ absurd (h e)
      | inr (es, e) ↦
          let (r, n) = usage-written w t es e in
          let rest = report-sent (after w t) ts n in
          let before : written F of w.egress ≡ told F of es = ap (written F of) e in
          omega (arith, r, rest, before)
    ]

    report-written :
        (w : WorkerManager F) (ts : List Transfer)
        → written F of (report w ts).egress
          ≡ (if is_some w.egress then written F of w.egress + transferred by ts else 0)
    report-written w ts = elim (Option-cases w.egress) [
      | inl e ↦ ground (arith, e, report-unsent w ts e)
      | inr (es, e) ↦ ground (arith, e, report-sent w ts)
    ]

  -- Once a worker has a websocket manager, the usage events that it writes add up, for every user
  -- name, to the bytes that were sent and to the bytes that were received in the transfers which the
  -- services report of this name, whatever they report in between; a worker whose websocket manager
  -- is nil writes none.
  pub report-bytes :
      (name : Str) (w : WorkerManager F) (ts : List Transfer)
      → (written F (told_sent name) (report w ts).egress ≡ (
          if is_some w.egress
          then written F (told_sent name) w.egress + transferred (sent_by name) ts
          else 0))
        × (written F (told_received name) (report w ts).egress ≡ (
            if is_some w.egress
            then written F (told_received name) w.egress + transferred (received_by name) ts
            else 0))
  unfolding told_sent told_received sent_by received_by usage_for
  report-bytes name w ts = (
    report-written (told_sent name) (sent_by name) (λ v t. refl) (λ t h. ground (arith, h)) w ts,
    report-written (told_received name) (received_by name) (λ v t. refl) (λ t h. ground (arith, h))
        w ts,
  )
