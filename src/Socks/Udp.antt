-- ===== src/Socks/Udp.antt =====
-- The datagrams of a SOCKS5 UDP association: SOCKS.handleUDP.
use subnetwork_system_torchl.Prelude.{
  ℕ, ◌+◌, ◌-◌, ◌/◌, ◌%◌, ◌||◌, List, ◌∷◌, ◌++◌, ◌==◌, if◌then◌else◌, length, take, drop, get_or,
  ltb, not, ◌^◌, Option, none, some, Outcome, ok, panic,
}
use subnetwork_system_torchl.Text.{Str}
use subnetwork_system_torchl.Socks.Request.{atyp_ipv4, atyp_domain, atyp_ipv6, big_endian}

-- What the relay does with a datagram: it goes on to the next one, or sends the payload on.
pub data Datagram : Type 0 where
  skip : Datagram
  relay : Str → ℕ → List ℕ → Datagram

-- buf[i:j]
unfoldable pub slice : ℕ → ℕ → List ℕ → List ℕ
slice i j buf = take (j - i) (drop i buf)

-- payload := make([]byte, n-headerLen); copy(payload, buf[headerLen:n]). A negative length panics.
unfoldable pub payload_of : List ℕ → ℕ → Str → ℕ → ℕ → Outcome (Unit {0}) Datagram
payload_of buf n host port header_len =
    if ltb n header_len then panic else ok (relay host port (slice header_len n buf))

module _ (ip_string : List ℕ → Str) where
  by_address_type : List ℕ → ℕ → ℕ → Outcome (Unit {0}) Datagram
  by_address_type buf n atyp =
      if atyp == atyp_ipv4
      then payload_of buf n (ip_string (slice 4 8 buf)) (big_endian (slice 8 10 buf)) 10
      else if atyp == atyp_domain
      then (let domain_len = get_or buf 4 0 in
          payload_of buf n (slice 5 (5 + domain_len) buf)
            (big_endian (slice (5 + domain_len) (5 + domain_len + 2) buf)) (5 + domain_len + 2))
      else if atyp == atyp_ipv6
      then payload_of buf n (ip_string (slice 4 20 buf)) (big_endian (slice 20 22 buf)) 22
      else ok skip

  -- The loop's body, from the test of `n` up to the payload. `buf` is the whole buffer: the
  -- datagram's `n` bytes, and behind them what earlier datagrams left.
  unfoldable pub parse_datagram : List ℕ → ℕ → Outcome (Unit {0}) Datagram
  unfolding by_address_type
  parse_datagram buf n =
      if ltb n 10
      then ok skip
      else if not (get_or buf 0 0 == 0) || not (get_or buf 1 0 == 0)
      then ok skip
      else if not (get_or buf 2 0 == 0)
      then ok skip
      else by_address_type buf n (get_or buf 3 0)

-- `net.ParseIP(host).To4()` and `.To16()`; none is nil.
module _ (parse_ip4 parse_ip6 : Str → Option (List ℕ)) where
  host_bytes : Str → Option (List ℕ) → Option (List ℕ) → List ℕ
  host_bytes host (some ip4) ip6 = atyp_ipv4 ∷ ip4
  host_bytes host none (some ip6) = atyp_ipv6 ∷ ip6
  host_bytes host none none = atyp_domain ∷ length host % 256 ∷ host

  -- The packet that carries a target's response back to the client.
  unfoldable pub response_packet : Str → ℕ → List ℕ → List ℕ
  unfolding host_bytes
  response_packet host port payload =
      0
      ∷ 0
      ∷ 0
      ∷ (host_bytes host (parse_ip4 host) (parse_ip6 host)
          ++ (port % 2 ^ 16 / 256 ∷ port % 256 ∷ payload))
