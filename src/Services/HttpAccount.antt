-- ===== src/Services/HttpAccount.antt =====
-- The account that HTTP.callback keeps of a user's connections, and what it sends out directly.
use subnetwork_system_torchl.Prelude.{
  ℕ, ◌+◌, ◌≡◌, refl, Bool, true, false, List, [], ◌∷◌, Option, none, some, arith, ◌≤◌, ok, err,
  panic, Outcome, Bool-cases, inl, inr,
}
use subnetwork_system_torchl.Text.{Str}
use subnetwork_system_torchl.Http.{HttpError, HttpRequest}
use subnetwork_system_torchl.Socks.{Conn}
use subnetwork_system_torchl.Services.Calls.{
  Call, close_client, Exit, returns, crashes, ◌>>=◌, branch, follow, named, opening, closing,
  handing, tally, tally-append,
}
use subnetwork_system_torchl.Services.Account.{Keeps, Quiet, bind-Keeps}
use subnetwork_system_torchl.Services.World.{World, is_dead_loop}
use subnetwork_system_torchl.Services.HttpServer.{
  OutError, Opened, opened, failed, open_out, connect_upstream, proxied, connected, hand_over,
  through, after_open, out_to_tcp, use_proxy_for, serve_request, serve_parsed, out_done, callback,
}

-- Nobody is taken out, and nobody is handed over who was not let in.
abbrev pub IsUnsettled : Exit (Unit {0}) → ℕ → ℕ → ℕ → Type 0
IsUnsettled exit o l h = (l ≡ 0) × (h ≤ o)

module _ (w : World) (u head : Str) (encode : Str → Str)
    (proxy_head : Str → Option Str → Option Str) (req : HttpRequest) where
  -- The user of the request may be handed over, once; nothing else is done to the account.
  abbrev Passed : {E : Type 0} → Exit E → ℕ → ℕ → ℕ → Type 0
  Passed exit o l h = (o ≡ 0) × (l ≡ 0) × (h ≤ named u req.user)

  open_out-Quiet :
      (use_proxy : Bool) (address : Str) (c : Conn)
      → Quiet u (open_out w head encode proxy_head req use_proxy address c).calls
  unfolding open_out ◌>>=◌ branch tally
  open_out-Quiet use_proxy address c = ground arith

  hand_over-Passed : (c : Conn) → Keeps u Passed (hand_over w head encode proxy_head req c)
  unfolding hand_over ◌>>=◌ tally
  hand_over-Passed c = ground arith

  proxied-Quiet :
      (text : Option Str) (c : Conn) → Quiet u (proxied w head encode proxy_head req text c).calls
  unfolding proxied ◌>>=◌ tally
  proxied-Quiet none c = (refl, refl, refl)
  proxied-Quiet (some text) c = (refl, refl, refl)

  connected-Passed :
      (e : Option OutError) (c : Conn) → Keeps u Passed (connected w head encode proxy_head req e c)
  unfolding connected tally
  connected-Passed none c = hand_over-Passed c
  connected-Passed (some e) c = (refl, refl, omega arith)

  after_open-Passed :
      (out : Opened) (c : Conn) → Keeps u Passed (after_open w head encode proxy_head req out c)
  unfolding after_open through connect_upstream
  after_open-Passed (failed e) c = unfold ◌>>=◌ tally in (refl, refl, omega arith)
  after_open-Passed (opened up false) c = unfold tally in (refl, refl, omega arith)
  after_open-Passed (opened none true) c = unfold hand_over ◌>>=◌ branch tally in ground arith
  after_open-Passed (opened (some up) true) c =
      bind-Keeps u Passed _ _ c (proxied-Quiet _ c) (refl, refl, omega arith)
        (λ e c'. connected-Passed e c')

  out_to_tcp-Passed :
      (use_proxy : Bool) (address : Str) (c : Conn)
      → Keeps u Passed (out_to_tcp w head encode proxy_head req use_proxy address c)
  unfolding out_to_tcp branch
  out_to_tcp-Passed use_proxy address c = elim (Bool-cases (is_dead_loop w req.host)) [
    | inl e ↦ rw e (unfold ◌>>=◌ tally in (refl, refl, omega arith))
    | inr e ↦ rw e (
        bind-Keeps u Passed _ _ c (open_out-Quiet use_proxy address c) (refl, refl, omega arith)
          (λ out c'. after_open-Passed out c'))
  ]

  out_done-Quiet :
      (e : Option OutError) (c : Conn) → Quiet u (out_done w head encode proxy_head req e c).calls
  unfolding out_done tally
  out_done-Quiet none c = (refl, refl, refl)
  out_done-Quiet (some e) c = (refl, refl, refl)

  done_follow-Passed :
      (before : List Call) (c : Conn) (exit : Exit (Option OutError))
      → Passed exit (tally (opening u) before) (tally (closing u) before) (tally (handing u) before)
      → Keeps u Passed (follow before c exit (out_done w head encode proxy_head req))
  unfolding out_done tally
  done_follow-Passed before c (returns none) h = ground (
    arith,
    tally-append (opening u) before [],
    tally-append (closing u) before [],
    tally-append (handing u) before [],
  )
  done_follow-Passed before c (returns (some e)) h = ground (
    arith,
    tally-append (opening u) before (close_client ∷ []),
    tally-append (closing u) before (close_client ∷ []),
    tally-append (handing u) before (close_client ∷ []),
  )
  done_follow-Passed before c crashes h = ground arith

  out-Passed :
      (use_proxy : Bool) (c : Conn)
      → Keeps u Passed (
          (out_to_tcp w head encode proxy_head req use_proxy req.host
              >>= out_done w head encode proxy_head req)
            c)
  unfolding ◌>>=◌
  out-Passed use_proxy c = done_follow-Passed _ _ _ (out_to_tcp-Passed use_proxy req.host c)

  proxy-Quiet : (c : Conn) → Quiet u (use_proxy_for w head encode proxy_head req c).calls
  unfolding use_proxy_for ◌>>=◌ branch tally
  proxy-Quiet c = ground arith

  Passed-IsUnsettled :
      (exit : Exit (Unit {0})) (o l h : ℕ)
      → Passed exit o l h
      → IsUnsettled exit (named u req.user + o) (0 + l) (0 + h)
  Passed-IsUnsettled exit o l h p = ground arith

  granted-IsUnsettled :
      (c : Conn)
      → Keeps u Passed (
          (use_proxy_for w head encode proxy_head req >>= λ use_proxy.
          out_to_tcp w head encode proxy_head req use_proxy req.host
          >>= out_done w head encode proxy_head req)
            c)
  granted-IsUnsettled c =
      bind-Keeps u Passed (use_proxy_for w head encode proxy_head req) _ c (proxy-Quiet c)
        (refl, refl, omega arith) (λ use_proxy c'. out-Passed use_proxy c')

  serve_request-IsUnsettled :
      (c : Conn) → Keeps u IsUnsettled (serve_request w head encode proxy_head req c)
  unfolding serve_request ◌>>=◌ branch tally
  serve_request-IsUnsettled c = elim (Bool-cases (w.granted req.user)) [
    | inl e ↦ rw e (Passed-IsUnsettled (returns tt) _ _ _ (granted-IsUnsettled c))
    | inr e ↦ rw e (ground arith)
  ]

module _ (w : World) (encode : Str → Str) (proxy_head : Str → Option Str → Option Str)
    (decode : Str → Option Str) (url_host : Str → Option Str) where
  parsed-IsUnsettled :
      (u head : Str) (request : Outcome HttpError HttpRequest) (c : Conn)
      → Keeps u IsUnsettled (serve_parsed w encode proxy_head decode url_host head request c)
  unfolding serve_parsed tally
  parsed-IsUnsettled u head (ok req) c = serve_request-IsUnsettled w u head encode proxy_head req c
  parsed-IsUnsettled u head (err e) c = unfold ◌>>=◌ in ground arith
  parsed-IsUnsettled u head panic c = ground arith

  -- Whatever an HTTP client sends and whatever the worker and the network answer, a callback takes no
  -- user out, however it ends, and hands over only users that it has let in. So the end of a request
  -- that is not handed over leaves its user counted.
  pub callback-IsUnsettled :
      (u : Str) (head : Option Str) (c : Conn)
      → Keeps u IsUnsettled (callback w encode proxy_head decode url_host head c)
  unfolding callback
  callback-IsUnsettled u none c = unfold tally in ground arith
  callback-IsUnsettled u (some head) c = parsed-IsUnsettled u head _ c
