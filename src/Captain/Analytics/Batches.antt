-- ===== src/Captain/Analytics/Batches.antt =====
-- What becomes of the records that Captain accepts.
use subnetwork_system_torchl.Prelude.{
  suc, ◌≤◌, ◌<◌, ◌≡◌, refl, true, false, List, [], ◌∷◌, ◌++◌, if◌then◌else◌, length, length-append,
  append_assoc, append-nil, replicate, All, arith, Bool-cases, inl, inr, ap, ◌∙◌, sym, leb, ltb,
}
use subnetwork_system_torchl.Captain.Analytics.Defs.{
  channel_size, batch_size, Buffer, new_buffer, Insert, record_item, append_each, flushed, flush,
  full, receive, take_item, tick, Event, records, takes, ticks, step, run,
}

module _ {A : Type 0} where
  -- The records that were accepted, in order: RecordUserDataUsage has returned nil for them.
  unfoldable pub accepted : Buffer A → List (Event A) → List A
  accepted s [] = []
  accepted s (records item ∷ es) =
      if (record_item s item).1
      then item ∷ accepted (step s (records item)) es
      else accepted (step s (records item)) es
  accepted s (e ∷ es) = accepted (step s e) es

  pub record IsHealthy (db : Insert A) : Type 0 where
    pub prepares : db.prepares ≡ true
    pub appends : (item : A) → db.appends item ≡ true
    pub sends : db.sends ≡ true

  abbrev pub Healthy : Event A → Type 0
  Healthy (records item) = Unit
  Healthy (takes db) = IsHealthy db
  Healthy (ticks db) = IsHealthy db

  -- Everything that was accepted and not lost.
  abbrev pub total : Buffer A → List A
  total s = s.stored ++ (s.batch ++ s.channel)

  append_each-all : (db : Insert A) (xs : List A) → IsHealthy db → append_each db.appends xs ≡ xs
  unfolding append_each
  append_each-all db [] h = refl
  append_each-all db (x ∷ xs) h = rw (h.appends x, append_each-all db xs h) refl

  flushed-all : (db : Insert A) (xs : List A) → IsHealthy db → flushed db xs ≡ xs
  unfolding flushed
  flushed-all db [] h = refl
  flushed-all db (x ∷ xs) h = rw (h.prepares, h.sends) (append_each-all db (x ∷ xs) h)

  flush-total : (db : Insert A) (s : Buffer A) → IsHealthy db → total (flush db s) ≡ total s
  unfolding flush
  flush-total db s h = rw (flushed-all db s.batch h) (append_assoc s.stored s.batch s.channel)

  full-total : (db : Insert A) (s : Buffer A) → IsHealthy db → total (full db s) ≡ total s
  unfolding full
  full-total db s h = elim (Bool-cases (leb batch_size (length s.batch))) [
    | inl e ↦ rw e (flush-total db s h)
    | inr e ↦ rw e refl
  ]

  receive-total :
      (db : Insert A) (s : Buffer A) (c : List A)
      → s.channel ≡ c
      → IsHealthy db
      → total (receive db s c) ≡ total s
  unfolding receive
  receive-total db s [] e h = refl
  receive-total db s (x ∷ xs) e h =
      full-total db (record s { channel = xs; batch = s.batch ++ x ∷ [] }) h
      ∙ rw e (ap (◌++◌ s.stored) (append_assoc s.batch (x ∷ []) xs))

  tick-total : (db : Insert A) (s : Buffer A) → IsHealthy db → total (tick db s) ≡ total s
  unfolding tick
  tick-total db s h = elim (Bool-cases (ltb 0 (length s.batch))) [
    | inl e ↦ rw e (flush-total db s h)
    | inr e ↦ rw e refl
  ]

  recorded-total :
      (s : Buffer A) (item : A) (rest : List A)
      → total (record_item s item).0 ++ rest
        ≡ total s ++ (if (record_item s item).1 then item ∷ rest else rest)
  unfolding record_item
  recorded-total s item rest = elim (Bool-cases (ltb (length s.channel) channel_size)) [
    | inl e ↦ rw e (
        append_assoc s.stored (s.batch ++ (s.channel ++ item ∷ [])) rest
        ∙ (ap (◌++◌ s.stored) (
              append_assoc s.batch (s.channel ++ item ∷ []) rest
              ∙ (ap (◌++◌ s.batch) (append_assoc s.channel (item ∷ []) rest)
                  ∙ sym (append_assoc s.batch s.channel (item ∷ rest))))
            ∙ sym (append_assoc s.stored (s.batch ++ s.channel) (item ∷ rest))))
    | inr e ↦ rw e refl
  ]

  run-total :
      (s : Buffer A) (es : List (Event A))
      → All Healthy es
      → total (run s es) ≡ total s ++ accepted s es
  unfolding run accepted step take_item
  run-total s [] h = sym (append-nil (total s))
  run-total s (records item ∷ es) h =
      run-total (record_item s item).0 es h.1
      ∙ recorded-total s item (accepted (record_item s item).0 es)
  run-total s (takes db ∷ es) h =
      run-total (take_item db s) es h.1
      ∙ ap (λ t. t ++ accepted (take_item db s) es) (receive-total db s s.channel refl h.0)
  run-total s (ticks db ∷ es) h =
      run-total (tick db s) es h.1 ∙ ap (λ t. t ++ accepted (tick db s) es) (tick-total db s h.0)

  -- As long as the database takes every batch, and in whatever order the handlers and the goroutine
  -- run: the rows of the table, then the batch, then the channel are together the accepted records,
  -- each once and in the order in which they were accepted.
  pub run-stored :
      (es : List (Event A))
      → All Healthy es
      → let s = run new_buffer es in s.stored ++ (s.batch ++ s.channel) ≡ accepted new_buffer es
  unfolding new_buffer
  run-stored es h = run-total new_buffer es h

  -- The bounds of a buffer.
  abbrev pub IsBuffered : Buffer A → Type 0
  IsBuffered s = (length s.batch < batch_size) × (length s.channel ≤ channel_size)

  record-IsBuffered : (s : Buffer A) (item : A) → IsBuffered s → IsBuffered (record_item s item).0
  unfolding record_item
  record-IsBuffered s item h = ground (arith, length-append s.channel (item ∷ []))

  receive-IsBuffered :
      (db : Insert A) (s : Buffer A) (c : List A)
      → s.channel ≡ c
      → IsBuffered s
      → IsBuffered (receive db s c)
  unfolding receive full flush
  receive-IsBuffered db s [] e h = h
  receive-IsBuffered db s (x ∷ xs) e h =
      let shorter : length s.channel ≡ suc (length xs) = ap length e in
      ground (arith, length-append s.batch (x ∷ []))

  tick-IsBuffered : (db : Insert A) (s : Buffer A) → IsBuffered s → IsBuffered (tick db s)
  unfolding tick flush
  tick-IsBuffered db s h = ground arith

  run-IsBuffered_from : (s : Buffer A) (es : List (Event A)) → IsBuffered s → IsBuffered (run s es)
  unfolding run step take_item
  run-IsBuffered_from s [] h = h
  run-IsBuffered_from s (records item ∷ es) h =
      run-IsBuffered_from (record_item s item).0 es (record-IsBuffered s item h)
  run-IsBuffered_from s (takes db ∷ es) h =
      run-IsBuffered_from (take_item db s) es (receive-IsBuffered db s s.channel refl h)
  run-IsBuffered_from s (ticks db ∷ es) h =
      run-IsBuffered_from (tick db s) es (tick-IsBuffered db s h)

  -- Whatever the database answers, between two events a batch has less than a thousand records and
  -- the channel ten thousand at most; so no INSERT carries more than a thousand.
  pub run-IsBuffered : (es : List (Event A)) → IsBuffered (run new_buffer es)
  unfolding new_buffer
  run-IsBuffered es = run-IsBuffered_from new_buffer es (omega arith, omega arith)

  full-channel : (db : Insert A) (s : Buffer A) → (full db s).channel ≡ s.channel
  unfolding full flush
  full-channel db s = ground arith

  receive-channel :
      (db : Insert A) (s : Buffer A) (x : A) (xs : List A) → (receive db s (x ∷ xs)).channel ≡ xs
  unfolding receive
  receive-channel db s x xs = full-channel db _

  empty-lem : (l : List A) → ltb 0 (length l) ≡ false → l ≡ []
  empty-lem [] h = refl
  empty-lem (x ∷ l) h = absurd (ground arith)

  tick-drained :
      (db : Insert A) (s : Buffer A)
      → s.channel ≡ []
      → ((tick db s).channel ≡ []) × ((tick db s).batch ≡ [])
  unfolding tick flush
  tick-drained db s e = elim (Bool-cases (ltb 0 (length s.batch))) [
    | inl h ↦ rw h (e, refl)
    | inr h ↦ rw h (e, empty-lem s.batch h)
  ]

  drain_from :
      (db : Insert A) (s : Buffer A) (c : List A)
      → s.channel ≡ c
      → let s' = run s (replicate (length c) (takes db) ++ ticks db ∷ []) in
        (s'.channel ≡ []) × (s'.batch ≡ [])
  unfolding run step take_item
  drain_from db s [] e = tick-drained db s e
  drain_from db s (x ∷ xs) e =
      rw e (drain_from db (receive db s (x ∷ xs)) xs (receive-channel db s x xs))

  -- Whatever the database answers: once nothing more arrives, as many receptions as the channel has
  -- records and one tick leave nothing in the channel and in the batch.
  pub run-drained :
      (db : Insert A) (s : Buffer A)
      → let s' = run s (replicate (length s.channel) (takes db) ++ ticks db ∷ []) in
        (s'.channel ≡ []) × (s'.batch ≡ [])
  run-drained db s = drain_from db s s.channel refl
