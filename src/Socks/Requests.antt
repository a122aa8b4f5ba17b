-- ===== src/Socks/Requests.antt =====
-- What the SOCKS5 request reader reads and refuses.
use subnetwork_system_torchl.Prelude.{
  ℕ, ◌+◌, ◌*◌, ◌/◌, ◌%◌, ◌≡◌, refl, ◌≢◌, true, false, ◌||◌, List, [], ◌∷◌, ◌++◌, ◌==◌, length,
  arith, inl, inr, ◌⊎◌, subst,
}
use subnetwork_system_torchl.Text.{Str}
use subnetwork_system_torchl.Socks.Wire.{
  Conn, bad_command, bad_address_type, ok, err, ◌>>=◌, >>=-ok, branch-ok, read_full, write,
}
use subnetwork_system_torchl.Socks.Handshake.{conn, read_full-append, read_full-one}
use subnetwork_system_torchl.Socks.Request.{
  cmd_connect, cmd_udp, atyp_ipv4, atyp_domain, atyp_ipv6, reply_bytes, host_port, big_endian,
  read_host, handle_request,
}

-- The destination that a client names.
pub data Address : Type 0 where
  ipv4 ipv6 : List ℕ → Address
  domain : Str → Address

abbrev pub atyp_of : Address → ℕ
atyp_of (ipv4 b) = atyp_ipv4
atyp_of (ipv6 b) = atyp_ipv6
atyp_of (domain d) = atyp_domain

abbrev pub address_bytes : Address → List ℕ → List ℕ
address_bytes (ipv4 b) rest = b ++ rest
address_bytes (ipv6 b) rest = b ++ rest
address_bytes (domain d) rest = length d ∷ (d ++ rest)

abbrev pub IsAddress : Address → Type 0
IsAddress (ipv4 b) = length b ≡ 4
IsAddress (ipv6 b) = length b ≡ 16
IsAddress (domain d) = Unit

-- A request, and what the client sends behind it.
abbrev pub request_bytes : ℕ → Address → ℕ → List ℕ → List ℕ
request_bytes cmd a port rest =
    5 ∷ cmd ∷ 0 ∷ atyp_of a ∷ address_bytes a (port / 256 ∷ port % 256 ∷ rest)

read_full-exact :
    (n : ℕ) (xs rest out : List ℕ)
    → length xs ≡ n
    → read_full n (conn (xs ++ rest) out) ≡ (ok xs, conn rest out)
read_full-exact n xs rest out e =
    subst (λ k. read_full k (conn (xs ++ rest) out) ≡ (ok xs, conn rest out)) e
      (read_full-append xs rest out)

module _ (ip_string : List ℕ → Str) where
  -- The host that the worker prints for an address.
  abbrev pub host_of : Address → Str
  host_of (ipv4 b) = ip_string b
  host_of (ipv6 b) = ip_string b
  host_of (domain d) = d

  read_host_lem :
      (a : Address) (rest out : List ℕ)
      → IsAddress a
      → read_host ip_string (atyp_of a) (conn (address_bytes a rest) out)
        ≡ (ok (host_of a), conn rest out)
  unfolding read_host ◌>>=◌
  read_host_lem (ipv4 b) rest out h = rw (read_full-exact 4 b rest out h) refl
  read_host_lem (ipv6 b) rest out h = rw (read_full-exact 16 b rest out h) refl
  read_host_lem (domain d) rest out h =
      rw (read_full-one (length d) (d ++ rest) out, read_full-append d rest out) refl

  -- A well-formed CONNECT or UDP ASSOCIATE request, for an address of any kind and a port, is read
  -- as its command and the text host:port; nothing is written and what follows it is left.
  pub request_lem :
      (cmd : ℕ) (a : Address) (port : ℕ) (rest out : List ℕ)
      → (cmd ≡ cmd_connect) ⊎ (cmd ≡ cmd_udp)
      → IsAddress a
      → handle_request ip_string (conn (request_bytes cmd a port rest) out)
        ≡ (ok (host_port (host_of a) port, cmd), conn rest out)
  unfolding handle_request big_endian ◌>>=◌
  request_lem cmd a port rest out c h =
      let port_bytes = port / 256 ∷ port % 256 ∷ [] in
      let tail = address_bytes a (port / 256 ∷ port % 256 ∷ rest) in
      let known : (cmd == cmd_connect || cmd == cmd_udp) ≡ true = ground arith in
      let value : port / 256 * 256 + port % 256 ≡ port = omega arith in
      rw
        (
          read_full-append (5 ∷ cmd ∷ 0 ∷ atyp_of a ∷ []) tail out,
          known,
          read_host_lem a (port / 256 ∷ port % 256 ∷ rest) out h,
          read_full-append port_bytes rest out,
          value,
        )
        refl

  -- A command other than CONNECT and UDP ASSOCIATE is answered 0x07 and ends the request with an
  -- error, whatever the address type.
  pub request-bad_command :
      (cmd atyp : ℕ) (rest out : List ℕ)
      → cmd ≢ cmd_connect
      → cmd ≢ cmd_udp
      → handle_request ip_string (conn (5 ∷ cmd ∷ 0 ∷ atyp ∷ rest) out)
        ≡ (err (bad_command cmd), conn rest (out ++ reply_bytes 7))
  unfolding handle_request write ◌>>=◌
  request-bad_command cmd atyp rest out nc nu =
      let unknown : (cmd == cmd_connect || cmd == cmd_udp) ≡ false = ground arith in
      rw (read_full-append (5 ∷ cmd ∷ 0 ∷ atyp ∷ []) rest out, unknown) refl

  -- A good command with an address type that is none of the three is answered 0x08 and ends with an
  -- error; no byte of the address has been read.
  pub request-bad_address_type :
      (cmd atyp : ℕ) (rest out : List ℕ)
      → (cmd ≡ cmd_connect) ⊎ (cmd ≡ cmd_udp)
      → atyp ≢ atyp_ipv4
      → atyp ≢ atyp_domain
      → atyp ≢ atyp_ipv6
      → handle_request ip_string (conn (5 ∷ cmd ∷ 0 ∷ atyp ∷ rest) out)
        ≡ (err (bad_address_type atyp), conn rest (out ++ reply_bytes 8))
  unfolding handle_request read_host write ◌>>=◌
  request-bad_address_type cmd atyp rest out c n4 nd n6 =
      let known : (cmd == cmd_connect || cmd == cmd_udp) ≡ true = ground arith in
      let a4 : (atyp == atyp_ipv4) ≡ false = ground arith in
      let ad : (atyp == atyp_domain) ≡ false = ground arith in
      let a6 : (atyp == atyp_ipv6) ≡ false = ground arith in
      rw (read_full-append (5 ∷ cmd ∷ 0 ∷ atyp ∷ []) rest out, known, a4, ad, a6) refl

  -- Whatever bytes arrive, a request that is read is a CONNECT or a UDP ASSOCIATE.
  pub request_safe :
      (c : Conn) (address : Str) (cmd : ℕ)
      → (handle_request ip_string c).0 ≡ ok (address, cmd)
      → (cmd ≡ cmd_connect) ⊎ (cmd ≡ cmd_udp)
  unfolding handle_request
  request_safe c address cmd h =
      let (header, _, h1) = >>=-ok _ _ c _ h in
      let c1 = (read_full 4 c).1 in
      elim (branch-ok _ _ _ c1 _ h1) [
        | inl (_, h2) ↦ elim (branch-ok _ _ _ c1 _ h2) [
          | inl (known, h3) ↦
              let (host, _, h4) = >>=-ok _ _ c1 _ h3 in
              let (port, _, h5) = >>=-ok _ _ _ _ h4 in ground (arith, known, h5)
          | inr (_, h3) ↦ let (_, _, h4) = >>=-ok _ _ _ _ h3 in absurd (cc)
        ]
        | inr (_, h2) ↦ absurd (cc)
      ]
