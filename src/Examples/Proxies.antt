-- ===== src/Examples/Proxies.antt =====
-- Connections through the worker's services, run.
use subnetwork_system_torchl.Prelude.{
  ℕ, ◌≡◌, refl, Bool, true, false, List, [], ◌∷◌, ◌++◌, Option, none, some, arith, pos, ok, panic,
}
use subnetwork_system_torchl.Text.{
  Str, codes, str_eq, split, trim, fields, mem_byte, to_upper, split_crlf, split_n2, has_prefix,
  has_suffix,
}
use subnetwork_system_torchl.Manager.Models.{Upstream}
use subnetwork_system_torchl.Tags.{Tag, no_tag, read_tags, read_tags_http, set_tag, part}
use subnetwork_system_torchl.Tags.Accounts.{convert_tag, geonode_name, lifetime_value}
use subnetwork_system_torchl.Http.{
  HttpRequest, new_http_request, https, check_credentials, basic_auth, get_header, add_port_if_not,
}
use subnetwork_system_torchl.Socks
use subnetwork_system_torchl.Socks.{
  first_part, handle_handshake, handle_request, host_port, reply_bytes, has_method,
}
use subnetwork_system_torchl.Socks.Handshake.{conn, greeting, auth_request}
use subnetwork_system_torchl.Socks.Requests.{domain, request_bytes}
use subnetwork_system_torchl.Services.Calls.{Binding, returns}
use subnetwork_system_torchl.Services.Copy.{
  eof, stop, moved, Round, full, read_fails, nonzero, sum, io_copy, io_copy-last,
}
use subnetwork_system_torchl.Services.Bind
use subnetwork_system_torchl.Services.Bind.{to_client, to_upstream, new_bound}
use subnetwork_system_torchl.Services.Release.{kept, release, run-release, stops, until_end, bytes}
use subnetwork_system_torchl.Services.World.{World}
use subnetwork_system_torchl.Services.SocksServer
use subnetwork_system_torchl.Services.HttpServer
use subnetwork_system_torchl.Services.Account.{Keeps}
use subnetwork_system_torchl.Services.SocksAccount.{Settled, callback-Settled}
use subnetwork_system_torchl.Services.HttpAccount.{IsUnsettled, callback-IsUnsettled}
use subnetwork_system_torchl.Services.Dial.{connect_upstream_socks, first_ip4}
use subnetwork_system_torchl.Services.Chain.{
  always_up, replies, connect-serve, connect-unknown_provider,
}

abbrev verify : Str → Str → Bool
verify username password = str_eq password (codes "pw")

-- No upstream; only a.de can be reached.
abbrev world : World
world = record {
  verify = verify;
  granted = λ user. true;
  has_upstreams = false;
  still_upstreams = false;
  chosen = returns none;
  always = false;
  blocked = λ address. false;
  pooled = λ address. false;
  dials = λ address. str_eq address (codes "a.de:443");
  peer = λ address. [];
  up = λ written. true;
  in_addr = codes "10.0.0.9:5000";
  in_local_addr = codes "10.0.0.1:1080";
  lookup_ip = λ host. some ((10 ∷ 0 ∷ 0 ∷ 7 ∷ []) ∷ []);
  interface_ips = some [];
  ip_string = λ b. b;
  ip_equal = λ a b. str_eq a b;
  to4 = λ a. some a;
  udp_port = some 5353;
  local_ip = 10 ∷ 0 ∷ 0 ∷ 1 ∷ [];
  udp_replies = true;
  udp = returns tt;
  relayed = [];
  unread = [];
}

-- A client that logs in and asks for a.de:443.
abbrev client : List ℕ
client =
    greeting (2 ∷ [])
    ++ auth_request (codes "bob") (codes "pw") (request_bytes 1 (domain (codes "a.de")) 443 [])

callback-Settled_example : Keeps (codes "bob") Settled (SocksServer.callback world (conn client []))
callback-Settled_example = callback-Settled world (codes "bob") (conn client [])

abbrev binding : Binding
binding = record {
  username = codes "bob";
  source_ip = codes "10.0.0.9";
  dest_host = codes "a.de";
  dest_port = 443;
  is_https = false;
}

abbrev ten_down : Round
ten_down = record { nr = 10; er = none; nw = 10; ew = none }

abbrev three_last : Round
three_last = record { nr = 3; er = some eof; nw = 3; ew = none }

run-release_example :
    kept
      (Bind.run binding new_bound (
        (to_client, ten_down)
        ∷ (to_upstream, three_last)
        ∷ (to_client, ten_down)
        ∷ (to_client, three_last)
        ∷ [])).calls
    ≡ release binding 10 3
unfolding stops until_end bytes stop moved
run-release_example = run-release binding (
    (to_client, ten_down)
    ∷ (to_upstream, three_last)
    ∷ (to_client, ten_down)
    ∷ (to_client, three_last)
    ∷ [])

io_copy-last_example :
    (io_copy (full 10 ∷ full 0 ∷ []) ≡ none)
    × (io_copy (full 10 ∷ full 0 ∷ three_last ∷ ten_down ∷ [])
        ≡ some (record { written = 13; is_src_err = true; err = some eof; counted = 10 ∷ 3 ∷ [] }))
unfolding nonzero sum
io_copy-last_example = io_copy-last (10 ∷ 0 ∷ []) (read_fails 3 eof) (ten_down ∷ [])

abbrev upstream : Upstream
upstream = record {
  upstream_id = codes "1";
  upstream_tag = codes "t";
  upstream_format = [];
  upstream_username = codes "bob";
  upstream_password = codes "pw";
  upstream_host = codes "up";
  upstream_port = pos 1080;
  upstream_provider = codes "other";
  weight = pos 1;
}

-- An upstream of a provider that convertTag does not know.
connect-unknown_provider_example :
    connect_upstream_socks
      (λ written. true)
      world.lookup_ip
      world.to4
      no_tag
      upstream
      (codes "a.de:443")
      (conn (5 ∷ 2 ∷ []) [])
    ≡ (panic, conn [] (5 ∷ 1 ∷ 2 ∷ []))
connect-unknown_provider_example =
    connect-unknown_provider world.lookup_ip world.to4 no_tag upstream (λ written. true)
      (codes "a.de:443") [] [] refl (unfold str_eq in refl) (unfold str_eq in refl)
      (unfold str_eq in refl)

abbrev german : Tag
german = record { country = codes "de"; state = []; city = []; session = []; lifetime = pos 0 }

abbrev geonode : Upstream
geonode = record upstream { upstream_provider = codes "geonode" }

connect-serve_example :
    let (r, c) =
      connect_upstream_socks always_up world.lookup_ip world.to4 german geonode
        (host_port (codes "a.de") 443)
        (conn (replies ++ 72 ∷ 105 ∷ []) []) in
    let (login, served) = handle_handshake verify (conn c.output []) in
    let (request, left) = handle_request world.ip_string served in
    (r ≡ ok tt)
    × (c.input ≡ 72 ∷ 105 ∷ [])
    × (login ≡ Socks.Result.ok (codes "bob-country-de", read_tags (codes "pw" ∷ []) no_tag))
    × (request ≡ Socks.Result.ok (host_port (10 ∷ 0 ∷ 0 ∷ 7 ∷ []) 443, 1))
    × (left ≡ conn [] (5 ∷ 2 ∷ 1 ∷ 0 ∷ []))
unfolding split str_eq
connect-serve_example =
    connect-serve world.lookup_ip world.to4 german geonode (codes "bob-country-de") (codes "pw") []
      (codes "a.de") 443 ((10 ∷ 0 ∷ 0 ∷ 7 ∷ []) ∷ []) (10 ∷ 0 ∷ 0 ∷ 7 ∷ [])
      (unfold convert_tag geonode_name lifetime_value part str_eq in refl) (omega arith)
      (omega arith) (omega arith) (refl, (refl, (refl, (refl, tt))))
      (refl, (refl, (refl, (refl, tt)))) (refl, (refl, (refl, (refl, tt)))) refl
      (unfold first_ip4 in refl) refl (72 ∷ 105 ∷ []) verify world.ip_string refl

abbrev decode : Str → Option Str
decode word = some word

abbrev url_host : Str → Option Str
url_host url = some url

abbrev proxy_head : Str → Option Str → Option Str
proxy_head head authorization = some head

abbrev head : Str
head = codes "CONNECT a.de:443 HTTP/1.1\r\nProxy-Authorization: Basic bob:pw\r\n\r\n"

abbrev read : HttpRequest
read = record {
  method = codes "CONNECT";
  host_or_url = codes "a.de:443";
  url = [];
  host = codes "a.de:443";
  user = codes "bob";
  tag = no_tag;
}

request_parsed : new_http_request decode url_host (some verify) head ≡ ok read
unfolding new_http_request https check_credentials basic_auth get_header add_port_if_not split
    str_eq trim fields mem_byte to_upper split_crlf split_n2 read_tags_http set_tag has_prefix
    has_suffix
request_parsed = refl

callback-IsUnsettled_example :
    Keeps
      (codes "bob")
      IsUnsettled
      (HttpServer.callback world (λ s. s) proxy_head decode url_host (some head) (conn [] []))
callback-IsUnsettled_example =
    callback-IsUnsettled world (λ s. s) proxy_head decode url_host (codes "bob") (some head)
      (conn [] [])
