-- ===== src/Services/HttpServer.antt =====
-- worker/services/http.go: HTTP.callback and HTTP.OutToTCP, and connectUpstream of service.go.
use subnetwork_system_torchl.Prelude.{
  ℕ, Bool, true, false, not, ◌&&◌, [], ◌++◌, Option, none, some, ok, err, panic, Outcome,
  if◌then◌else◌,
}
use subnetwork_system_torchl.Text.{Str, codes, str_eq, split_host_port}
use subnetwork_system_torchl.Manager.Models.{Upstream}
use subnetwork_system_torchl.Manager.Upstreams.{get_address}
use subnetwork_system_torchl.Tags.Accounts.{convert_tag}
use subnetwork_system_torchl.Http.{HttpError, HttpRequest, error_reply, is_https, new_http_request}
use subnetwork_system_torchl.Socks.{write}
use subnetwork_system_torchl.Services.Calls.{
  Binding, add_user, check, next_upstream, latency, increment, write_upstream, close_client,
  close_upstream, bind, Serve, ◌>>=◌, ◌>>◌, give, crash, call, talk, branch,
}
use subnetwork_system_torchl.Services.World.{World, destination, source_ip, is_dead_loop}
use subnetwork_system_torchl.Services.SocksServer.{from_exit, connect_host}

pub data OutError : Type 0 where
  dead_loop no_upstream no_configured dial_failed bad_request bad_address : OutError

-- What `outConn` and `err` are behind the choice: a connection to the target (none) or to an upstream
-- (some), which is nil if the Bool is false; or an error.
pub data Opened : Type 0 where
  opened : Option Upstream → Bool → Opened
  failed : OutError → Opened

-- `head` is HeadBuf. `encode` is base64.StdEncoding.EncodeToString. `proxy_head` is what WriteProxy
-- prints of the request without its Proxy-Authorization, or with the given one instead; none is an
-- error of http.ReadRequest.
module _ (w : World) (head : Str) (encode : Str → Str) (proxy_head : Str → Option Str → Option Str)
    (req : HttpRequest) where
  unfoldable pub authorization : Upstream → Option Str
  authorization up =
      if not (str_eq up.upstream_username []) && not (str_eq up.upstream_password [])
      then some (
          codes "Basic "
          ++ encode
              (convert_tag up.upstream_username up.upstream_password req.tag up.upstream_provider))
      else none

  unfoldable pub proxied : Option Str → Serve (Option OutError)
  proxied none = do call close_upstream; give (some bad_request)
  proxied (some text) = do call (write_upstream text); give none

  unfoldable pub connect_upstream : Upstream → Serve (Option OutError)
  unfolding authorization proxied
  connect_upstream up = proxied (proxy_head head (authorization up))

  -- The error of ConnectHost is assigned to an `err` of the inner block, and is not looked at.
  unfoldable pub via : Str → Option Upstream → Serve Opened
  unfolding connect_host
  via address none = do connect_host w address; give (failed no_upstream)
  via address (some up) = do
    done ← branch (w.pooled (get_address up)) (give true) (connect_host w (get_address up))
    call (latency up false)
    give (opened (some up) done)

  unfoldable pub open_out : Bool → Str → Serve Opened
  unfolding via connect_host
  open_out use_proxy address =
      branch use_proxy
        (branch w.still_upstreams
          (do
            call (next_upstream req.user req.tag.session)
            up ← from_exit w.chosen
            via address up)
          (give (failed no_configured)))
        (do
          done ← connect_host w address
          branch done (give (opened none true)) (give (failed dial_failed)))

  unfoldable pub binding_of : Str → Str × ℕ → Binding
  binding_of source (host, port) = record {
    username = req.user;
    source_ip = source;
    dest_host = host;
    dest_port = port;
    is_https = is_https req.method;
  }

  abbrev default_port : ℕ
  default_port = if is_https req.method then 443 else 80

  -- The `err` that SplitHostPort assigns is the named result, and is returned at the end.
  unfoldable pub address_error : Option (Str × Str) → Option OutError
  address_error none = some bad_address
  address_error (some cut) = none

  unfoldable pub hand_over : Serve (Option OutError)
  unfolding binding_of address_error
  hand_over = do
    call increment
    call (
        bind (
          binding_of (source_ip w)
            (destination req.host (codes "80") default_port (split_host_port req.host))))
    give (address_error (split_host_port req.host))

  unfoldable pub connected : Option OutError → Serve (Option OutError)
  unfolding hand_over
  connected none = hand_over
  connected (some e) = give (some e)

  -- Behind RemoteAddr, which panics on a nil connection.
  unfoldable pub through : Option Upstream → Serve (Option OutError)
  unfolding connect_upstream connected hand_over
  through none = do
    branch (is_https req.method)
        (do talk (write (codes "HTTP/1.1 200 Connection established\r\n\r\n")); give tt) (give tt)
    call (write_upstream head)
    hand_over
  through (some up) = do e ← connect_upstream up; connected e

  unfoldable pub after_open : Opened → Serve (Option OutError)
  unfolding through
  after_open (failed e) = do call close_client; give (some e)
  after_open (opened up false) = crash
  after_open (opened up true) = through up

  unfoldable pub out_to_tcp : Bool → Str → Serve (Option OutError)
  unfolding open_out after_open
  out_to_tcp use_proxy address =
      branch (is_dead_loop w req.host) (do call close_client; give (some dead_loop))
        (do out ← open_out use_proxy address; after_open out)

  -- IsBlocked is asked about an address of any kind.
  unfoldable pub use_proxy_for : Serve Bool
  use_proxy_for =
      branch w.has_upstreams
        (branch w.always (give true) (do call (check req.host); give (w.blocked req.host)))
        (give false)

  unfoldable pub out_done : Option OutError → Serve (Unit {0})
  out_done none = give tt
  out_done (some e) = call close_client

  unfoldable pub serve_request : Serve (Unit {0})
  unfolding use_proxy_for out_to_tcp out_done
  serve_request = do
    call (add_user req.user (w.granted req.user))
    branch (w.granted req.user)
        (do use_proxy ← use_proxy_for; e ← out_to_tcp use_proxy req.host; out_done e)
        (do talk (write (codes "HTTP/1.1 429 Too Many Requests\r\n\r\n")); call close_client)

module _ (w : World) (encode : Str → Str) (proxy_head : Str → Option Str → Option Str)
    (decode : Str → Option Str) (url_host : Str → Option Str) where
  unfoldable pub serve_parsed : Str → Outcome HttpError HttpRequest → Serve (Unit {0})
  unfolding serve_request
  serve_parsed head (ok req) = serve_request w head encode proxy_head req
  serve_parsed head (err e) = do talk (write (error_reply e)); call close_client
  serve_parsed head panic = crash

  -- callback, on what the one Read of NewHTTPRequest returned; none is its error.
  unfoldable pub callback : Option Str → Serve (Unit {0})
  unfolding serve_parsed
  callback none = call close_client
  callback (some head) = serve_parsed head (new_http_request decode url_host (some w.verify) head)
