-- ===== src/Examples/Backend.antt =====
-- Workers that join, and what Captain records of them.
use subnetwork_system_torchl.Prelude.{
  ℕ, ◌≡◌, refl, ◌↔◌, List, [], ◌∷◌, ◌++◌, some, replicate, length, true, false, pos,
}
use subnetwork_system_torchl.Text.{codes, str_eq}
use subnetwork_system_torchl.Dict.{lookup}
use subnetwork_system_torchl.Captain.Replies.{rows, json}
use subnetwork_system_torchl.Captain.Access.{authenticate, passes, Names, authenticate-passes_iff}
use subnetwork_system_torchl.Captain.Registration.{
  WorkerRow, login_handler, serve_ws_handler, refused, joined,
}
use subnetwork_system_torchl.Captain.Registration.Joining.{login-serve_ws}
use subnetwork_system_torchl.Captain.Analytics.{
  Buffer, new_buffer, Insert, Event, records, takes, ticks, step, run, record_item, take_item, tick,
}
use subnetwork_system_torchl.Captain.Analytics.Batches.{
  accepted, IsHealthy, run-stored, IsBuffered, run-IsBuffered, run-drained,
}

-- A worker that Captain knows.
abbrev known : WorkerRow
known = record {
  id = codes "w";
  name = codes "eu-w";
  region_name = codes "Europe";
  ip_address = codes "10.0.0.1";
  status = codes "active";
  port = pos 8080;
  pool_id = codes "p";
  domains = [];
}

login-serve_ws_example :
    let (answer, rm) =
      login_handler (λ id. rows known) [] 5 (codes "k") (some (some (codes "w"))) in
    let (join, (rm', ws)) = serve_ws_handler (λ id. rows known) true rm [] (codes "k") in
    (answer ≡ json 200 (codes "k"))
    × (join ≡ joined true)
    × (lookup (codes "w") ws
        ≡ some (record { id = codes "w"; name = codes "eu-w"; pool_id = codes "p"; egress = [] }))
    × (serve_ws_handler (λ id. rows known) true rm' ws (codes "k")
        ≡ (refused 401 (codes "Invalid OTP"), (rm', ws)))
unfolding lookup
login-serve_ws_example =
    login-serve_ws (λ id. rows known) [] [] 5 107 [] (codes "w") known refl (unfold str_eq in refl)
      refl

authenticate-passes_iff_example :
    (authenticate (codes "key\n") (codes "ApiKey  key") ≡ passes)
    ↔ Names (codes "key\n") (codes "ApiKey  key")
authenticate-passes_iff_example = authenticate-passes_iff (codes "key\n") (codes "ApiKey  key")

abbrev healthy : Insert ℕ
healthy = record { prepares = true; appends = λ item. true; sends = true }

healthy-IsHealthy : IsHealthy healthy
healthy-IsHealthy = record { prepares = refl; appends = λ item. refl; sends = refl }

abbrev recorded : List (Event ℕ)
recorded = records 1 ∷ records 2 ∷ takes healthy ∷ ticks healthy ∷ records 3 ∷ takes healthy ∷ []

recorded-run :
    run new_buffer recorded ≡ record { channel = 3 ∷ []; batch = 2 ∷ []; stored = 1 ∷ [] }
unfolding run step record_item take_item tick new_buffer
recorded-run = refl

run-stored_example :
    let s = run new_buffer recorded in
    s.stored ++ (s.batch ++ s.channel) ≡ accepted new_buffer recorded
run-stored_example =
    run-stored recorded
      (tt, (tt, (healthy-IsHealthy, (healthy-IsHealthy, (tt, (healthy-IsHealthy, tt))))))

run-IsBuffered_example : IsBuffered (run new_buffer recorded)
run-IsBuffered_example = run-IsBuffered recorded

-- A database that refuses everything.
abbrev broken_insert : Insert ℕ
broken_insert = record { prepares = false; appends = λ item. false; sends = false }

abbrev waiting : Buffer ℕ
waiting = record { channel = 4 ∷ 5 ∷ []; batch = 3 ∷ []; stored = [] }

run-drained_example :
    let s =
      run waiting
        (replicate (length waiting.channel) (takes broken_insert) ++ ticks broken_insert ∷ []) in
    (s.channel ≡ []) × (s.batch ≡ [])
run-drained_example = run-drained broken_insert waiting
