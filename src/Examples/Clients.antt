-- ===== src/Examples/Clients.antt =====
-- SOCKS clients, run.
use subnetwork_system_torchl.Prelude.{
  ℕ, ◌≡◌, refl, inl, Bool, List, [], ◌∷◌, ◌++◌, ap, arith, pos, ok,
}
use subnetwork_system_torchl.Text.{Str, codes, split, str_eq, atoi}
use subnetwork_system_torchl.Tags.{Tag, no_tag, set_tag, read_tags}
use subnetwork_system_torchl.Socks
use subnetwork_system_torchl.Socks.{
  SocksError, auth_failed, no_password_auth, bad_command, bad_address_type, handle_handshake,
  handle_request, reply_bytes, host_port, cmd_connect, cmd_udp, auth_password, has_method,
  first_part, ◌>>=◌, read_full, write, branch, big_endian,
}
use subnetwork_system_torchl.Socks.Handshake.{
  conn, greeting, auth_request, Vouched, handshake_lem, handshake_safe,
}
use subnetwork_system_torchl.Socks.Requests.{ipv4, domain, request_bytes, request_lem}
use subnetwork_system_torchl.Socks.Udp.{relay, parse_datagram}
use subnetwork_system_torchl.Socks.Datagrams.{datagram_bytes, datagram_lem}

abbrev verify : Str → Str → Bool
verify username password = str_eq password (codes "pw")

-- Any text for an address: its bytes.
abbrev ip_string : List ℕ → Str
ip_string b = b

abbrev german : Tag
german = record {
  country = codes "de";
  state = [];
  city = [];
  session = codes "s1";
  lifetime = pos 0;
}

german_read : read_tags (split 45 (codes "pw-country-de-session-s1")) no_tag ≡ german
unfolding read_tags set_tag split str_eq atoi
german_read = refl

abbrev hello : List ℕ
hello =
    greeting (0 ∷ 2 ∷ []) ++ auth_request (codes "bob") (codes "pw-country-de-session-s1") (9 ∷ [])

hello_run :
    handle_handshake verify (conn hello [])
    ≡ (Socks.ok (codes "bob", german), conn (9 ∷ []) (5 ∷ 2 ∷ 1 ∷ 0 ∷ []))
unfolding read_tags set_tag split str_eq atoi has_method
hello_run =
    handshake_lem verify (0 ∷ 2 ∷ []) (codes "bob") (codes "pw-country-de-session-s1") (9 ∷ []) []
      refl

handshake_lem_example :
    handle_handshake verify (conn hello [])
    ≡ (Socks.ok (codes "bob", german), conn (9 ∷ []) (5 ∷ 2 ∷ 1 ∷ 0 ∷ []))
unfolding read_tags set_tag split str_eq atoi has_method
handshake_lem_example =
    handshake_lem verify (0 ∷ 2 ∷ []) (codes "bob") (codes "pw-country-de-session-s1") (9 ∷ []) []
      refl

handshake_safe_example : Vouched verify (codes "bob") german
unfolding read_tags set_tag split str_eq atoi has_method
handshake_safe_example =
    handshake_safe verify (codes "bob") german (conn hello []) (ap (λ r. r.0) hello_run)

request_lem_example :
    handle_request ip_string (conn (request_bytes 1 (domain (codes "a.de")) 443 (7 ∷ [])) [])
    ≡ (Socks.ok (host_port (codes "a.de") 443, 1), conn (7 ∷ []) [])
request_lem_example = request_lem ip_string 1 (domain (codes "a.de")) 443 (7 ∷ []) [] (inl refl) tt

request_read :
    handle_request ip_string (conn (request_bytes 1 (domain (codes "a.de")) 443 (7 ∷ [])) [])
    ≡ (Socks.ok (host_port (codes "a.de") 443, 1), conn (7 ∷ []) [])
request_read = request_lem ip_string 1 (domain (codes "a.de")) 443 (7 ∷ []) [] (inl refl) tt

datagram_lem_example :
    parse_datagram ip_string
      (datagram_bytes (ipv4 (10 ∷ 0 ∷ 0 ∷ 1 ∷ [])) 53 (5 ∷ 6 ∷ 0 ∷ 0 ∷ []))
      12
    ≡ ok (relay (10 ∷ 0 ∷ 0 ∷ 1 ∷ []) 53 (5 ∷ 6 ∷ []))
datagram_lem_example =
    datagram_lem ip_string (ipv4 (10 ∷ 0 ∷ 0 ∷ 1 ∷ [])) 53 (5 ∷ 6 ∷ []) (0 ∷ 0 ∷ []) refl
      (omega arith)
