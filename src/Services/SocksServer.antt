-- ===== src/Services/SocksServer.antt =====
-- worker/services/socks.go: SOCKS.callback and SOCKS.OutToTCP. They are over when they return or
-- panic; what IoBind's goroutines do later is in Bind.
use subnetwork_system_torchl.Prelude.{
  ℕ, ◌/◌, ◌%◌, Bool, true, false, not, List, [], ◌∷◌, ◌++◌, if◌then◌else◌, Option, none, some, ◌==◌,
  ok, err, panic, Outcome,
}
use subnetwork_system_torchl.Text.{Str, codes, split_host_port}
use subnetwork_system_torchl.Manager.Models.{Upstream}
use subnetwork_system_torchl.Manager.Upstreams.{get_address}
use subnetwork_system_torchl.Manager.Worker.Telemetry.{Transfer}
use subnetwork_system_torchl.Tags.{Tag}
use subnetwork_system_torchl.Socks
use subnetwork_system_torchl.Socks.{
  Conn, Result, cmd_udp, handle_handshake, handle_request, send_reply, write,
}
use subnetwork_system_torchl.Services.Dial.{DialError, connect_upstream_socks}
use subnetwork_system_torchl.Services.Calls.{
  Binding, add_user, remove_user, check, next_upstream, dial, latency, increment, usage, throughput,
  Call, write_upstream, close_client, close_upstream, bind, Exit, returns, crashes, Serve, ◌>>=◌,
  ◌>>◌, give, crash, call, talk, branch,
}
use subnetwork_system_torchl.Services.World.{Relayed, World, destination, source_ip, is_dead_loop}

abbrev pub rep_success : ℕ
rep_success = 0

abbrev pub rep_conn_not_allowed : ℕ
rep_conn_not_allowed = 2

abbrev pub rep_host_unreachable : ℕ
rep_host_unreachable = 4

-- Why OutToTCP returns an error.
pub data OutError : Type 0 where
  dead_loop no_upstream no_configured dial_failed : OutError
  refused : DialError → OutError

-- A connection to the target (none) or to an upstream (some), or an error.
pub data Opened : Type 0 where
  opened : Option Upstream → Opened
  failed : OutError → Opened

abbrev pub from_exit : {A : Type 0} → Exit A → Serve A
from_exit (returns a) = give a
from_exit crashes = crash

module _ (w : World) where
  -- ConnectHost
  unfoldable pub connect_host : Str → Serve Bool
  connect_host address = do call (dial address); give (w.dials address)

  unfoldable pub via : Option Upstream → Serve Opened
  unfolding connect_host
  via none = give (failed no_upstream)
  via (some up) = do
    done ← branch (w.pooled (get_address up)) (give true) (connect_host (get_address up))
    call (latency up (not done))
    branch done (give (opened (some up))) (give (failed dial_failed))

  unfoldable pub open_out : Bool → Str → Str → Tag → Serve Opened
  unfolding via connect_host
  open_out use_proxy address user tag =
      branch use_proxy
        (branch w.still_upstreams
          (do call (next_upstream user tag.session); up ← from_exit w.chosen; via up)
          (give (failed no_configured)))
        (do
          done ← connect_host address
          branch done (give (opened none)) (give (failed dial_failed)))

  unfoldable pub settle : Outcome DialError (Unit {0}) → Serve (Option OutError)
  settle (ok u) = give none
  settle (err e) = give (some (refused e))
  settle panic = crash

  -- connectUpstreamSocks over the new connection.
  unfoldable pub negotiate : Tag → Upstream → Str → Serve (Option OutError)
  unfolding settle
  negotiate tag up address =
      let (r, c) =
        connect_upstream_socks w.up w.lookup_ip w.to4 tag up address
          (record { input = w.peer (get_address up); output = [] }) in
      do call (write_upstream c.output); settle r

  unfoldable pub binding_of : Str → Str → Str × ℕ → Binding
  binding_of user source (host, port) = record {
    username = user;
    source_ip = source;
    dest_host = host;
    dest_port = port;
    is_https = false;
  }

  unfoldable pub hand_over : Str → Str → Serve (Option OutError)
  unfolding binding_of
  hand_over user address = do
    call increment
    call (
        bind (
          binding_of user (source_ip w)
            (destination address (codes "0") 0 (split_host_port address))))
    give none

  unfoldable pub negotiated : Str → Str → Option OutError → Serve (Option OutError)
  unfolding hand_over
  negotiated user address none = hand_over user address
  negotiated user address (some e) = do call close_client; call close_upstream; give (some e)

  unfoldable pub through : Str → Str → Tag → Option Upstream → Serve (Option OutError)
  unfolding negotiate negotiated hand_over
  through user address tag none = hand_over user address
  through user address tag (some up) = do e ← negotiate tag up address; negotiated user address e

  unfoldable pub after_open : Str → Str → Tag → Opened → Serve (Option OutError)
  unfolding through
  after_open user address tag (failed e) = do
    talk (send_reply rep_host_unreachable)
    call close_client
    give (some e)
  after_open user address tag (opened up) = do
    talk (send_reply rep_success)
    through user address tag up

  -- OutToTCP; none is the nil error.
  unfoldable pub out_to_tcp : Bool → Str → Str → Tag → Serve (Option OutError)
  unfolding open_out after_open
  out_to_tcp use_proxy address user tag =
      branch (is_dead_loop w address) (do call close_client; give (some dead_loop))
        (do out ← open_out use_proxy address user tag; after_open user address tag out)

  unfoldable pub transfer_of : Str → Relayed → Transfer
  transfer_of user r = record {
    sent = if r.to_target then r.size else 0;
    received = if r.to_target then 0 else r.size;
    username = user;
    source_ip = r.client_ip;
    dest_host = r.target_host;
    dest_port = r.target_port;
    is_https = false;
  }

  unfoldable pub relay_calls : Str → List Relayed → List Call
  unfolding transfer_of
  relay_calls user [] = []
  relay_calls user (r ∷ rs) = usage (transfer_of user r) ∷ throughput r.size ∷ relay_calls user rs

  unfoldable pub relay : Str → Serve (Unit {0})
  unfolding relay_calls
  relay user c = record {
    exit = w.udp;
    conn = record c { input = w.unread };
    calls = relay_calls user w.relayed;
  }

  unfoldable pub associate : Str → Option ℕ → Serve (Unit {0})
  unfolding relay
  associate user none = give tt
  associate user (some port) =
      branch w.udp_replies
        (do
          talk
              (write (5 ∷ rep_success ∷ 0 ∷ 1 ∷ (w.local_ip ++ port / 256 % 256 ∷ port % 256 ∷ [])))
          relay user)
        (give tt)

  -- handleUDP, whose errors are only logged. The client's connection is read to its end and the
  -- datagrams are relayed until then.
  unfoldable pub handle_udp : Str → Serve (Unit {0})
  unfolding associate
  handle_udp user = associate user w.udp_port

  unfoldable pub tcp_done : Str → Option OutError → Serve (Unit {0})
  tcp_done user none = give tt
  tcp_done user (some e) = do call (remove_user user); call close_client

  unfoldable pub use_proxy_for : Str → Serve Bool
  use_proxy_for address =
      branch w.has_upstreams
        (branch w.always (give true) (do call (check address); give (w.blocked address)))
        (give false)

  unfoldable pub serve_request : Str → Tag → Result (Str × ℕ) → Serve (Unit {0})
  unfolding tcp_done use_proxy_for
  serve_request user tag (Socks.Result.err e) = do call (remove_user user); call close_client
  serve_request user tag (Socks.Result.ok (address, cmd)) = do
    use_proxy ← use_proxy_for address
    branch (cmd == cmd_udp) (do handle_udp user; call (remove_user user); call close_client)
        (do e ← out_to_tcp use_proxy address user tag; tcp_done user e)

  unfoldable pub serve_user : Result (Str × Tag) → Serve (Unit {0})
  unfolding serve_request
  serve_user (Socks.Result.err e) = call close_client
  serve_user (Socks.Result.ok (user, tag)) = do
    call (add_user user (w.granted user))
    branch (w.granted user)
        (do request ← talk (handle_request w.ip_string); serve_request user tag request)
        (do talk (send_reply rep_conn_not_allowed); call close_client)

  -- callback, with its recover.
  unfoldable pub callback : Serve (Unit {0})
  unfolding serve_user
  callback = do login ← talk (handle_handshake w.verify); serve_user login
