-- ===== src/Services/Release.antt =====
-- How often, and with what, a bound connection is released.
use subnetwork_system_torchl.Prelude.{
  ℕ, ◌+◌, ◌%◌, ◌^◌, ◌≡◌, ◌<◌, refl, ap, Bool, true, false, ◌||◌, List, [], ◌∷◌, ◌++◌, Option, none,
  some, arith, if◌then◌else◌, is_some, append-nil, sym, Option-cases, Bool-cases, inl, inr, ◌∙◌,
}
use subnetwork_system_torchl.Services.Calls.{
  Binding, Call, remove_user, decrement, throughput, usage, close_client, close_upstream,
}
use subnetwork_system_torchl.Services.Copy.{IoError, Round, moved, stop}
use subnetwork_system_torchl.Services.Bind.{
  Way, to_client, to_upstream, Bound, new_bound, count, once, finish, step, run,
}

abbrev keep_one : Call → List Call → List Call
keep_one (throughput n) ks = ks
keep_one k ks = k ∷ ks

-- The calls but those of AddThroughput.
unfoldable pub kept : List Call → List Call
kept [] = []
kept (k ∷ ks) = keep_one k (kept ks)

-- The rounds up to the first one that ends a direction.
unfoldable pub until_end : List (Way × Round) → List (Way × Round)
until_end [] = []
until_end ((way, r) ∷ rs) = (way, r) ∷ (if is_some (stop r) then [] else until_end rs)

unfoldable pub stops : List (Way × Round) → Bool
stops [] = false
stops ((way, r) ∷ rs) = is_some (stop r) || stops rs

abbrev carried : Way → Way → ℕ → ℕ
carried to_client to_client n = n
carried to_upstream to_upstream n = n
carried _ _ n = 0

-- The bytes that were carried one way.
unfoldable pub bytes : Way → List (Way × Round) → ℕ
bytes way [] = 0
bytes way ((w, r) ∷ rs) = carried way w (moved r) + bytes way rs

kept-append : (xs ys : List Call) → kept (xs ++ ys) ≡ kept xs ++ kept ys
unfolding kept
kept-append [] ys = refl
kept-append (remove_user u ∷ xs) ys = ap (◌∷◌ (remove_user u)) (kept-append xs ys)
kept-append (throughput n ∷ xs) ys = kept-append xs ys
kept-append (k ∷ xs) ys = ap (◌∷◌ k) (kept-append xs ys)

-- What `fn` does in all: it records an error, the transfer and the end of the user's connection, and
-- closes both sides.
abbrev pub release : Binding → ℕ → ℕ → List Call
release b sent received =
    decrement true
    ∷ usage (record {
      sent = sent;
      received = received;
      username = b.username;
      source_ip = b.source_ip;
      dest_host = b.dest_host;
      dest_port = b.dest_port;
      is_https = b.is_https;
    })
    ∷ remove_user b.username
    ∷ close_client
    ∷ close_upstream
    ∷ []

record IsOpen (s : Bound) : Type 0 where
  client : s.client_ended ≡ false
  upstream : s.upstream_ended ≡ false
  held : s.released ≡ false
  sent : s.bytes_sent < 2 ^ 64
  received : s.bytes_received < 2 ^ 64

kept-throughput : (ks : List Call) (n : ℕ) → kept (ks ++ throughput n ∷ []) ≡ kept ks
unfolding kept
kept-throughput ks n = kept-append ks (throughput n ∷ []) ∙ append-nil (kept ks)

count-kept : (w : Way) (n : ℕ) (s : Bound) → kept (count w n s).calls ≡ kept s.calls
unfolding count
count-kept to_client n s = ground (arith, kept-throughput s.calls n)
count-kept to_upstream n s = ground (arith, kept-throughput s.calls n)

count-IsOpen : (w : Way) (n : ℕ) (s : Bound) → IsOpen s → IsOpen (count w n s)
unfolding count
count-IsOpen to_client n s o = ground arith
count-IsOpen to_upstream n s o = ground arith

count-released : (w : Way) (n : ℕ) (s : Bound) → (count w n s).released ≡ s.released
unfolding count
count-released to_client n s = ground arith
count-released to_upstream n s = ground arith

count-bytes :
    (w : Way) (n : ℕ) (s : Bound)
    → IsOpen s
    → ((count w n s).bytes_sent ≡ (s.bytes_sent + carried to_client w n) % 2 ^ 64)
      × ((count w n s).bytes_received ≡ (s.bytes_received + carried to_upstream w n) % 2 ^ 64)
unfolding count
count-bytes to_client n s o = ground arith
count-bytes to_upstream n s o = ground arith

module _ (b : Binding) where
  finish-released :
      (w : Way) (o : Option (Bool × IoError)) (s : Bound)
      → s.released ≡ true
      → ((finish b w o s).released ≡ true) × ((finish b w o s).calls ≡ s.calls)
  unfolding finish
  finish-released w none s h = (h, refl)
  finish-released to_client (some (src, e)) s h = ground arith
  finish-released to_upstream (some (src, e)) s h = ground arith

  -- Behind the release, nothing but throughput is called.
  step-released :
      (s : Bound) (w : Way) (r : Round)
      → s.released ≡ true
      → ((step b s (w, r)).released ≡ true) × (kept (step b s (w, r)).calls ≡ kept s.calls)
  unfolding step
  step-released s w r h = ground (
    arith,
    finish-released w (stop r) (count w (moved r) s),
    count-released w (moved r) s,
    count-kept w (moved r) s,
  )

  run-released :
      (s : Bound) (rs : List (Way × Round))
      → s.released ≡ true
      → kept (run b s rs).calls ≡ kept s.calls
  unfolding run
  run-released s [] h = refl
  run-released s ((w, r) ∷ rs) h =
      let (more, same) = step-released s w r h in run-released (step b s (w, r)) rs more ∙ same

  once-open :
      (e : IoError) (s : Bound)
      → s.released ≡ false
      → ((once b (some e) s).released ≡ true)
        × (kept (once b (some e) s).calls ≡ kept s.calls ++ release b s.bytes_sent s.bytes_received)
  unfolding once kept
  once-open e s h = elim (Bool-cases s.released) [
    | inl t ↦ absurd (ground arith)
    | inr f ↦ rw f (refl, kept-append s.calls (release b s.bytes_sent s.bytes_received))
  ]

  finish-open :
      (w : Way) (src : Bool) (e : IoError) (s : Bound)
      → IsOpen s
      → ((finish b w (some (src, e)) s).released ≡ true)
        × (kept (finish b w (some (src, e)) s).calls
            ≡ kept s.calls ++ release b s.bytes_sent s.bytes_received)
  unfolding finish
  finish-open to_client src e s o = once-open e (record s { client_ended = true }) o.held
  finish-open to_upstream src e s o = once-open e (record s { upstream_ended = true }) o.held

  step-open :
      (s : Bound) (w : Way) (r : Round)
      → IsOpen s
      → step b s (w, r) ≡ finish b w (stop r) (count w (moved r) s)
  unfolding step
  step-open s to_client r o = ground arith
  step-open s to_upstream r o = ground arith

  -- What `fn` will have been called with, once a direction ends.
  abbrev pub billed : ℕ → ℕ → List (Way × Round) → List Call
  billed sent received rs =
      if stops rs
      then release b ((sent + bytes to_client (until_end rs)) % 2 ^ 64)
          ((received + bytes to_upstream (until_end rs)) % 2 ^ 64)
      else []

  run-open :
      (s : Bound) (rs : List (Way × Round))
      → IsOpen s
      → kept (run b s rs).calls ≡ kept s.calls ++ billed s.bytes_sent s.bytes_received rs
  unfolding run stops until_end bytes finish
  run-open s [] o = sym (append-nil (kept s.calls))
  run-open s ((w, r) ∷ rs) o =
      let s' = count w (moved r) s in
      let o' = count-IsOpen w (moved r) s o in
      let (sent, received) = count-bytes w (moved r) s o in
      let same = count-kept w (moved r) s in
      elim (Option-cases (stop r)) [
        | inl e ↦
            let onward : step b s (w, r) ≡ s' =
              step-open s w r o ∙ ap (λ stopped. finish b w stopped s') e in
            ap (λ t. kept (run b t rs).calls) onward
            ∙ (run-open s' rs o' ∙ ground (arith, e, sent, received, same))
        | inr ((src, io), e) ↦
            let (gone, calls) = finish-open w src io s' o' in
            let onward : step b s (w, r) ≡ finish b w (some (src, io)) s' =
              step-open s w r o ∙ ap (λ stopped. finish b w stopped s') e in
            ap (λ t. kept (run b t rs).calls) onward
            ∙ (run-released _ rs gone ∙ (calls ∙ ground (arith, e, sent, received, same)))
      ]

new_bound-IsOpen : IsOpen new_bound
unfolding new_bound
new_bound-IsOpen = record {
  client = refl;
  upstream = refl;
  held = refl;
  sent = omega arith;
  received = omega arith;
}

-- Whatever the two directions of a bound connection read and write, in whatever order, the connection
-- is released exactly once if one of them ends, and never before: an error is recorded, also if the
-- end was an orderly one; the usage has the bytes carried to the client as sent and those carried to
-- the upstream as received, up to that end and modulo 2^64; the user's connection is taken out once
-- and both sides are closed. Apart from throughput nothing else is called.
pub run-release :
    (b : Binding) (rs : List (Way × Round))
    → kept (run b new_bound rs).calls ≡ (
        if stops rs
        then release b
            (bytes to_client (until_end rs) % 2 ^ 64)
            (bytes to_upstream (until_end rs) % 2 ^ 64)
        else [])
unfolding new_bound kept
run-release b rs = run-open b new_bound rs new_bound-IsOpen ∙ ground arith
