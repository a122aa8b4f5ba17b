-- ===== src/Services/Chain.antt =====
-- Two workers in a chain: one that reaches its target through the SOCKS5 server of another.
use subnetwork_system_torchl.Prelude.{
  ℕ, ◌/◌, ◌%◌, ◌<◌, ◌≡◌, refl, Bool, true, false, ℤ, List, [], ◌∷◌, ◌++◌, Option, some, pos, length,
  ok, panic, arith, inl, ap, append_assoc, ltb, length-append,
}
use subnetwork_system_torchl.Text.{
  Str, codes, str_eq, split, itoa_nat, itoa, atoi, atoi-itoa, Free, split_host_port-plain,
}
use subnetwork_system_torchl.Manager.Models.{Upstream}
use subnetwork_system_torchl.Tags.{Tag, no_tag, read_tags}
use subnetwork_system_torchl.Tags.Accounts.{convert_tag}
use subnetwork_system_torchl.Socks
use subnetwork_system_torchl.Socks.{
  Conn, first_part, handle_handshake, handle_request, host_port, reply_bytes,
}
use subnetwork_system_torchl.Socks.Handshake.{
  conn, greeting, auth_request, handshake_lem, read_full-two,
}
use subnetwork_system_torchl.Socks.Requests.{ipv4, request_bytes, request_lem}
use subnetwork_system_torchl.Services.Dial.{
  Ip, ◌>>=◌, branch, read, skip, write, auth_bytes, port_bytes, host_of, port_of, first_ip4,
  skip_bound, send_connect, connect_to, log_in, connect_upstream_socks,
}

-- What the second worker answers: the method, the login and the connection.
abbrev pub replies : List ℕ
replies = 5 ∷ 2 ∷ 1 ∷ 0 ∷ reply_bytes 0

-- Every Write succeeds.
abbrev pub always_up : List ℕ → Bool
always_up written = true

enough : (n : ℕ) (xs rest : List ℕ) → length xs ≡ n → ltb (length (xs ++ rest)) n ≡ false
enough n xs rest e = ground (arith, e, length-append xs rest)

module _ (lookup_ip : Str → Option (List Ip)) (to4 : Ip → Option Ip) (tag : Tag)
    (upstream : Upstream) where
  abbrev pub credentials : List Str
  credentials = split b':' (
      convert_tag upstream.upstream_username upstream.upstream_password tag
        upstream.upstream_provider)

  module _ (username password : Str) (rest : List Str) (host : Str) (port : ℕ) (ips : List Ip)
      (ip4 : Ip) (shown : credentials ≡ username ∷ password ∷ rest)
      (short_name : length username < 256) (short_password : length password < 256)
      (in_range : port < 65536) (colon : Free b':' host) (opening : Free b'[' host)
      (closing : Free b']' host) (found : lookup_ip host ≡ some ips)
      (first : first_ip4 to4 ips ≡ some ip4) (four : length ip4 ≡ 4) (later : List ℕ) where
    -- What the first worker has sent when the second one has answered all of it.
    abbrev pub sent : List ℕ
    sent = greeting (2 ∷ []) ++ auth_request username password (request_bytes 1 (ipv4 ip4) port [])

    port_lem : (atoi (itoa_nat port)).0 ≡ pos port
    unfolding itoa
    port_lem = ap (λ (r : ℤ × Bool). r.0) (atoi-itoa (pos port) (omega arith) (omega arith))

    connect_lem :
        connect_upstream_socks always_up lookup_ip to4 tag upstream
          (host_port host port)
          (conn (replies ++ later) [])
        ≡ (ok tt, conn later sent)
    unfolding connect_upstream_socks log_in connect_to send_connect skip_bound ◌>>=◌ branch read
        skip write host_of port_of host_port itoa reply_bytes auth_bytes port_bytes Socks.read_full
    connect_lem =
        let name : length username % 256 ≡ length username = omega arith in
        let secret : length password % 256 ≡ length password = omega arith in
        let high : port / 256 % 256 ≡ port / 256 = omega arith in
        let address = 0 ∷ 0 ∷ 0 ∷ 0 ∷ 0 ∷ 0 ∷ later in
        let answer = 5 ∷ 0 ∷ 0 ∷ 1 ∷ address in
        rw
          (
            shown,
            enough 2 (5 ∷ 2 ∷ []) (1 ∷ 0 ∷ answer) refl,
            enough 2 (1 ∷ 0 ∷ []) answer refl,
            split_host_port-plain host port colon opening closing,
            found,
            first,
            enough 4 (5 ∷ 0 ∷ 0 ∷ 1 ∷ []) address refl,
            enough 6 (0 ∷ 0 ∷ 0 ∷ 0 ∷ 0 ∷ 0 ∷ []) later refl,
            port_lem,
            name,
            secret,
            high,
          )
          (let request = request_bytes 1 (ipv4 ip4) port [] in
            rw (append_assoc username (length password ∷ password) request) refl)

    -- What the first worker sends to the second one's SOCKS5 server, for a target with an IPv4
    -- address and credentials of less than 256 bytes, is read there as a login with just these
    -- credentials and a CONNECT to just that address and port; and the first worker reads just
    -- the answers to them: whatever the target sends after them is still to be read.
    pub connect-serve :
        (verify : Str → Str → Bool) (ip_string : List ℕ → Str)
        → verify username (first_part (split b'-' password)) ≡ true
        → let (r, c) =
            connect_upstream_socks always_up lookup_ip to4 tag upstream
              (host_port host port)
              (conn (replies ++ later) []) in
          let (login, served) = handle_handshake verify (conn c.output []) in
          let (request, left) = handle_request ip_string served in
          (r ≡ ok tt)
          × (c.input ≡ later)
          × (login ≡ Socks.Result.ok (username, read_tags (split b'-' password) no_tag))
          × (request ≡ Socks.Result.ok (host_port (ip_string ip4) port, 1))
          × (left ≡ conn [] (5 ∷ 2 ∷ 1 ∷ 0 ∷ []))
    unfolding Socks.has_method
    connect-serve verify ip_string accepted =
        let request = request_bytes 1 (ipv4 ip4) port [] in
        let shaken = handshake_lem verify (2 ∷ []) username password request [] refl in
        let asked =
          request_lem ip_string 1 (ipv4 ip4) port [] (5 ∷ 2 ∷ 1 ∷ 0 ∷ []) (inl refl) four in
        rw (connect_lem, shaken, accepted, asked) (refl, refl, refl, refl, refl)

  -- With a provider that is none of the three, a server that accepts the password method makes the
  -- handler panic: convertTag gives the empty text, which has no password in it.
  pub connect-unknown_provider :
      (up : List ℕ → Bool) (address : Str) (rest out : List ℕ)
      → up out ≡ true
      → str_eq upstream.upstream_provider (codes "netnut") ≡ false
      → str_eq upstream.upstream_provider (codes "geonode") ≡ false
      → str_eq upstream.upstream_provider (codes "iproyal") ≡ false
      → connect_upstream_socks up lookup_ip to4 tag upstream address (conn (5 ∷ 2 ∷ rest) out)
        ≡ (panic, conn rest (out ++ 5 ∷ 1 ∷ 2 ∷ []))
  unfolding connect_upstream_socks log_in ◌>>=◌ branch read write convert_tag split
  connect-unknown_provider up address rest out working n g i =
      rw (working, read_full-two 5 2 rest (out ++ 5 ∷ 1 ∷ 2 ∷ []), n, g, i) refl
