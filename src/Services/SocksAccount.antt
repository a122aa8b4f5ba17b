-- ===== src/Services/SocksAccount.antt =====
-- The account that SOCKS.callback keeps of a user's connections.
use subnetwork_system_torchl.Prelude.{
  ℕ, ◌+◌, ◌≡◌, refl, Bool, List, [], ◌∷◌, Option, none, some, arith, Bool-cases, inl, inr, ◌==◌,
}
use subnetwork_system_torchl.Text.{Str}
use subnetwork_system_torchl.Manager.Models.{Upstream}
use subnetwork_system_torchl.Tags.{Tag}
use subnetwork_system_torchl.Socks
use subnetwork_system_torchl.Socks.{Conn, Result, cmd_udp, handle_request, handle_handshake}
use subnetwork_system_torchl.Services.Calls.{
  Call, remove_user, close_client, Exit, returns, crashes, follow, ◌>>=◌, branch, named, opening,
  closing, handing, tally, tally-append,
}
use subnetwork_system_torchl.Services.Account.{Keeps, Quiet, Handed, bind-Keeps}
use subnetwork_system_torchl.Services.World.{Relayed, World, is_dead_loop}
use subnetwork_system_torchl.Services.SocksServer.{
  OutError, Opened, opened, failed, open_out, settle, negotiate, hand_over, negotiated, through,
  after_open, out_to_tcp, relay_calls, associate, relay, handle_udp, tcp_done, use_proxy_for,
  serve_request, serve_user, callback,
}

-- The account of a whole callback. The cases of a panic leave a user counted.
abbrev pub Settled : Exit (Unit {0}) → ℕ → ℕ → ℕ → Type 0
Settled (returns _) o l h = o ≡ l + h
Settled crashes o l h = (l ≡ 0) × (h ≡ 0)

module _ (w : World) (u : Str) where
  open_out-Quiet :
      (use_proxy : Bool) (address user : Str) (tag : Tag) (c : Conn)
      → Quiet u (open_out w use_proxy address user tag c).calls
  unfolding open_out ◌>>=◌ branch tally
  open_out-Quiet use_proxy address user tag c = ground arith

  hand_over-Handed :
      (user address : Str) (c : Conn) → Keeps u (Handed u user) (hand_over w user address c)
  unfolding hand_over ◌>>=◌ tally
  hand_over-Handed user address c = ground arith

  negotiated-Handed :
      (user address : Str) (e : Option OutError) (c : Conn)
      → Keeps u (Handed u user) (negotiated w user address e c)
  unfolding negotiated ◌>>=◌ tally
  negotiated-Handed user address none c = hand_over-Handed user address c
  negotiated-Handed user address (some e) c = (refl, refl, refl)

  negotiate-Quiet :
      (tag : Tag) (up : Upstream) (address : Str) (c : Conn)
      → Quiet u (negotiate w tag up address c).calls
  unfolding negotiate settle ◌>>=◌ tally
  negotiate-Quiet tag up address c = ground arith

  through-Handed :
      (user address : Str) (tag : Tag) (up : Option Upstream) (c : Conn)
      → Keeps u (Handed u user) (through w user address tag up c)
  unfolding through
  through-Handed user address tag none c = hand_over-Handed user address c
  through-Handed user address tag (some up) c =
      bind-Keeps u (Handed u user) (negotiate w tag up address) (negotiated w user address) c
        (negotiate-Quiet tag up address c) (refl, refl, refl)
        (λ e c'. negotiated-Handed user address e c')

  after_open-Handed :
      (user address : Str) (tag : Tag) (out : Opened) (c : Conn)
      → Keeps u (Handed u user) (after_open w user address tag out c)
  unfolding after_open tally
  after_open-Handed user address tag (failed e) c = unfold ◌>>=◌ in (refl, refl, refl)
  after_open-Handed user address tag (opened up) c =
      bind-Keeps u (Handed u user) _ _ c (refl, refl, refl) (refl, refl, refl)
        (λ _ c'. through-Handed user address tag up c')

  out_to_tcp-Handed :
      (use_proxy : Bool) (address user : Str) (tag : Tag) (c : Conn)
      → Keeps u (Handed u user) (out_to_tcp w use_proxy address user tag c)
  unfolding out_to_tcp branch tally
  out_to_tcp-Handed use_proxy address user tag c = elim (Bool-cases (is_dead_loop w address)) [
    | inl e ↦ rw e (unfold ◌>>=◌ in (refl, refl, refl))
    | inr e ↦ rw e (
        bind-Keeps u (Handed u user) _ _ c (open_out-Quiet use_proxy address user tag c)
          (refl, refl, refl) (λ out c'. after_open-Handed user address tag out c'))
  ]

  -- What follows a granted AddUserConnection: the user is taken out or handed over, once in all, if
  -- the handler returns, and neither if it panics.
  abbrev KeptEven : Str → Exit (Unit {0}) → ℕ → ℕ → Type 0
  KeptEven user (returns _) l h = l + h ≡ named u user
  KeptEven user crashes l h = (l ≡ 0) × (h ≡ 0)

  abbrev Even : Str → Exit (Unit {0}) → ℕ → ℕ → ℕ → Type 0
  Even user exit o l h = (o ≡ 0) × KeptEven user exit l h

  tcp_follow-Even :
      (user : Str) (before : List Call) (c : Conn) (exit : Exit (Option OutError))
      → Handed u user exit
          (tally (opening u) before)
          (tally (closing u) before)
          (tally (handing u) before)
      → Keeps u (Even user) (follow before c exit (tcp_done w user))
  unfolding tcp_done ◌>>=◌ tally
  tcp_follow-Even user before c (returns none) h = ground (
    arith,
    tally-append (opening u) before [],
    tally-append (closing u) before [],
    tally-append (handing u) before [],
  )
  tcp_follow-Even user before c (returns (some e)) h =
      let after = remove_user user ∷ close_client ∷ [] in
      ground (
        arith,
        tally-append (opening u) before after,
        tally-append (closing u) before after,
        tally-append (handing u) before after,
      )
  tcp_follow-Even user before c crashes h = ground arith

  tcp-Even :
      (use_proxy : Bool) (address user : Str) (tag : Tag) (c : Conn)
      → Keeps u (Even user) ((out_to_tcp w use_proxy address user tag >>= tcp_done w user) c)
  unfolding ◌>>=◌
  tcp-Even use_proxy address user tag c =
      tcp_follow-Even user _ _ _ (out_to_tcp-Handed use_proxy address user tag c)

  relay-Quiet : (user : Str) (rs : List Relayed) → Quiet u (relay_calls w user rs)
  unfolding relay_calls tally
  relay-Quiet user [] = (refl, refl, refl)
  relay-Quiet user (r ∷ rs) = ground (arith, relay-Quiet user rs)

  associate-Quiet :
      (user : Str) (port : Option ℕ) (c : Conn) → Quiet u (associate w user port c).calls
  unfolding associate relay ◌>>=◌ branch tally
  associate-Quiet user none c = (refl, refl, refl)
  associate-Quiet user (some port) c = ground (arith, relay-Quiet user w.relayed)

  request-Even :
      (user : Str) (tag : Tag) (request : Result (Str × ℕ)) (c : Conn)
      → Keeps u (Even user) (serve_request w user tag request c)
  unfolding serve_request branch handle_udp
  request-Even user tag (Socks.Result.err e) c = unfold ◌>>=◌ tally in ground arith
  request-Even user tag (Socks.Result.ok (address, cmd)) c =
      bind-Keeps u (Even user) (use_proxy_for w address) _ c
        (unfold use_proxy_for ◌>>=◌ branch tally in ground arith) (refl, (refl, refl))
        (λ use_proxy c'. elim (Bool-cases (cmd == cmd_udp)) [
          | inl e ↦
              rw (e, branch)
                (bind-Keeps u (Even user) (handle_udp w user) _ c'
                  (unfold handle_udp in associate-Quiet user w.udp_port c') (refl, (refl, refl))
                  (λ _ c''. unfold ◌>>=◌ tally in ground arith))
          | inr e ↦ rw (e, branch) (tcp-Even use_proxy address user tag c')
        ])

  Even-Settled :
      (user : Str) (exit : Exit (Unit {0})) (o l h : ℕ)
      → Even user exit o l h
      → Settled exit (named u user + o) (0 + l) (0 + h)
  Even-Settled user (returns _) o l h e = ground arith
  Even-Settled user crashes o l h e = ground arith

  serve_user-Settled :
      (login : Result (Str × Tag)) (c : Conn) → Keeps u Settled (serve_user w login c)
  unfolding serve_user
  serve_user-Settled (Socks.Result.err e) c = unfold tally in refl
  serve_user-Settled (Socks.Result.ok (user, tag)) c = elim (Bool-cases (w.granted user)) [
    | inl e ↦ rw e (
        unfold ◌>>=◌ branch tally in
        Even-Settled user _ _ _ _
          (request-Even user tag (handle_request w.ip_string c).0 (handle_request w.ip_string c).1))
    | inr e ↦ rw e (unfold ◌>>=◌ branch tally in refl)
  ]

-- Whatever a SOCKS5 client sends, whatever the worker and the network answer and whatever other
-- goroutines do meanwhile: for every user, a callback that returns has let that user in as often as
-- it has taken it out or handed it over to IoBind, whose release takes it out. A callback that panics
-- has done neither.
pub callback-Settled : (w : World) (u : Str) (c : Conn) → Keeps u Settled (callback w c)
unfolding callback ◌>>=◌
callback-Settled w u c =
    serve_user-Settled w u (handle_handshake w.verify c).0 (handle_handshake w.verify c).1
