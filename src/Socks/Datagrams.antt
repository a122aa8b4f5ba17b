-- ===== src/Socks/Datagrams.antt =====
-- What the UDP relay reads out of a client's datagram, and where it stops with a panic.
use subnetwork_system_torchl.Prelude.{
  ℕ, ◌+◌, ◌-◌, ◌*◌, ◌/◌, ◌%◌, ◌≤◌, ◌<◌, ◌≡◌, refl, false, List, [], ◌∷◌, ◌++◌, length, arith, ltb,
  ok, panic, ap, ◌∙◌, sym, take-append, drop-append, length-append, append_assoc,
}
use subnetwork_system_torchl.Text.{Str}
use subnetwork_system_torchl.Socks.Request.{big_endian}
use subnetwork_system_torchl.Socks.Requests.{
  Address, ipv4, ipv6, domain, atyp_of, address_bytes, IsAddress, host_of,
}
use subnetwork_system_torchl.Socks.Udp.{relay, slice, payload_of, parse_datagram}

slice-append :
    (i j : ℕ) (xs ys zs : List ℕ)
    → length xs ≡ i
    → i + length ys ≡ j
    → slice i j (xs ++ (ys ++ zs)) ≡ ys
unfolding slice
slice-append i j xs ys zs e f =
    let n : j - i ≡ length ys = omega arith in
    rw (n, ← e, drop-append xs (ys ++ zs), take-append ys zs) refl

-- The three parts of a datagram behind the fixed prefix `pre`: the host, the port, the payload.
module _ (pre host : List ℕ) (hi lo : ℕ) (payload stale : List ℕ) where
  abbrev buffer : List ℕ
  buffer = pre ++ (host ++ hi ∷ lo ∷ (payload ++ stale))

  host-slice : (i j : ℕ) → length pre ≡ i → i + length host ≡ j → slice i j buffer ≡ host
  host-slice i j e f = slice-append i j pre host (hi ∷ lo ∷ (payload ++ stale)) e f

  port-slice :
      (j k : ℕ) → length pre + length host ≡ j → j + 2 ≡ k → slice j k buffer ≡ hi ∷ lo ∷ []
  port-slice j k e f =
      ap (slice j k) (sym (append_assoc pre host (hi ∷ lo ∷ (payload ++ stale))))
      ∙ slice-append j k (pre ++ host) (hi ∷ lo ∷ []) (payload ++ stale)
          (length-append pre host ∙ e) (omega arith)

  payload-slice :
      (k n : ℕ)
      → length pre + length host + 2 ≡ k
      → k + length payload ≡ n
      → slice k n buffer ≡ payload
  payload-slice k n e f =
      let all = pre ++ (host ++ hi ∷ lo ∷ []) in
      let regroup : buffer ≡ all ++ (payload ++ stale) =
        ap (◌++◌ pre) (sym (append_assoc host (hi ∷ lo ∷ []) (payload ++ stale)))
        ∙ sym (append_assoc pre (host ++ hi ∷ lo ∷ []) (payload ++ stale)) in
      ap (slice k n) regroup
      ∙ slice-append k n all payload stale
          (omega
            (arith, length-append pre (host ++ hi ∷ lo ∷ []), length-append host (hi ∷ lo ∷ [])))
          f

-- A datagram to an address and a port, and the length of its header.
abbrev pub datagram_bytes : Address → ℕ → List ℕ → List ℕ
datagram_bytes a port rest =
    0 ∷ 0 ∷ 0 ∷ atyp_of a ∷ address_bytes a (port / 256 ∷ port % 256 ∷ rest)

abbrev pub header_len : Address → ℕ
header_len (ipv4 b) = 10
header_len (ipv6 b) = 22
header_len (domain d) = 5 + length d + 2

module _ (ip_string : List ℕ → Str) where
  -- A datagram with a whole header and at least ten bytes is relayed to the address and port that
  -- it names, with exactly the bytes behind its header, whatever older datagrams left in the buffer.
  pub datagram_lem :
      (a : Address) (port : ℕ) (payload stale : List ℕ)
      → IsAddress a
      → 10 ≤ header_len a + length payload
      → parse_datagram ip_string
          (datagram_bytes a port (payload ++ stale))
          (header_len a + length payload)
        ≡ ok (relay (host_of ip_string a) port payload)
  unfolding parse_datagram payload_of big_endian
  datagram_lem (ipv4 b) port payload stale h l =
      let pre : List ℕ = 0 ∷ 0 ∷ 0 ∷ 1 ∷ [] in
      let n : ℕ = 10 + length payload in
      let big : ltb n 10 ≡ false = ground arith in
      let value : port / 256 * 256 + port % 256 ≡ port = omega arith in
      rw
        (
          big,
          host-slice pre b (port / 256) (port % 256) payload stale 4 8 refl (omega (arith, h)),
          port-slice pre b (port / 256) (port % 256) payload stale 8 10 (omega (arith, h)) refl,
          payload-slice pre b (port / 256) (port % 256) payload stale 10 n (omega (arith, h)) refl,
          value,
        )
        refl
  datagram_lem (ipv6 b) port payload stale h l =
      let pre : List ℕ = 0 ∷ 0 ∷ 0 ∷ 4 ∷ [] in
      let n : ℕ = 22 + length payload in
      let big : ltb n 10 ≡ false = ground arith in
      let whole : ltb n 22 ≡ false = ground arith in
      let value : port / 256 * 256 + port % 256 ≡ port = omega arith in
      rw
        (
          big,
          whole,
          host-slice pre b (port / 256) (port % 256) payload stale 4 20 refl (omega (arith, h)),
          port-slice pre b (port / 256) (port % 256) payload stale 20 22 (omega (arith, h)) refl,
          payload-slice pre b (port / 256) (port % 256) payload stale 22 n (omega (arith, h)) refl,
          value,
        )
        refl
  datagram_lem (domain d) port payload stale h l =
      let pre : List ℕ = 0 ∷ 0 ∷ 0 ∷ 3 ∷ length d ∷ [] in
      let k : ℕ = 5 + length d + 2 in
      let n : ℕ = k + length payload in
      let big : ltb n 10 ≡ false = ground (arith, l) in
      let whole : ltb n k ≡ false = ground arith in
      let value : port / 256 * 256 + port % 256 ≡ port = omega arith in
      rw
        (
          big,
          whole,
          host-slice pre d (port / 256) (port % 256) payload stale 5 (5 + length d) refl refl,
          port-slice pre d (port / 256) (port % 256) payload stale (5 + length d) k refl refl,
          payload-slice pre d (port / 256) (port % 256) payload stale k n refl refl,
          value,
        )
        refl

  -- A datagram of at least ten bytes that ends before the header of its own address is complete
  -- makes the relay panic, whatever it contains and whatever older datagrams left in the buffer.
  pub datagram-panic :
      (a : Address) (port n : ℕ) (stale : List ℕ)
      → IsAddress a
      → 10 ≤ n
      → n < header_len a
      → parse_datagram ip_string (datagram_bytes a port stale) n ≡ panic
  unfolding parse_datagram payload_of
  datagram-panic (ipv4 b) port n stale h l m = absurd (omega (arith, l, m))
  datagram-panic (ipv6 b) port n stale h l m = ground (arith, l, m)
  datagram-panic (domain d) port n stale h l m = ground (arith, l, m)
