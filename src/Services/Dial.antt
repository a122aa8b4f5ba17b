-- ===== src/Services/Dial.antt =====
-- worker/services/service.go: connectUpstreamSocks, the worker as the client of a SOCKS5 upstream.
use subnetwork_system_torchl.Prelude.{
  ℕ, ◌+◌, ◌-◌, ◌/◌, ◌%◌, Bool, true, false, List, [], ◌∷◌, ◌++◌, Option, none, some, ◌==◌,
  if◌then◌else◌, length, get_or, ℤ, pos, negsuc, Outcome, ok, err, panic,
}
use subnetwork_system_torchl.Text.{Str, split, atoi, split_host_port}
use subnetwork_system_torchl.Manager.Models.{Upstream}
use subnetwork_system_torchl.Tags.{Tag}
use subnetwork_system_torchl.Tags.Accounts.{convert_tag}
use subnetwork_system_torchl.Socks
use subnetwork_system_torchl.Socks.{Conn, Result, socks5_version, auth_password}

pub data DialError : Type 0 where
  write_failed read_failed no_password_auth auth_failed lookup_failed no_ipv4 : DialError
  connect_failed : ℕ → DialError

abbrev pub Ip : Type 0
Ip = List ℕ

-- A step of the conversation: what it comes to, and the connection as it leaves it.
abbrev pub Talk : Type 0 → Type 0
Talk A = Conn → Outcome DialError A × Conn

abbrev pub continue : {A B : Type 0} → Outcome DialError A → (A → Talk B) → Talk B
continue (ok a) f c = f a c
continue (err e) f c = (err e, c)
continue panic f c = (panic, c)

infixl 5 ◌>>=◌ ◌>>◌
unfoldable pub ◌>>=◌ : {A B : Type 0} → Talk A → (A → Talk B) → Talk B
◌>>=◌ m f c = let (r, c') = m c in continue r f c'

abbrev pub ◌>>◌ : {A B : Type 0} → Talk A → Talk B → Talk B
m >> n = m >>= λ _. n

abbrev pub done : {A : Type 0} → A → Talk A
done a c = (ok a, c)

abbrev pub fail : {A : Type 0} → DialError → Talk A
fail e c = (err e, c)

abbrev pub crash : {A : Type 0} → Talk A
crash c = (panic, c)

-- A test between two continuations.
unfoldable pub branch : {A : Type 0} → Bool → Talk A → Talk A → Talk A
branch true m n c = m c
branch false m n c = n c

read_result : Result (List ℕ) → Outcome DialError (List ℕ)
read_result (Socks.Result.ok bytes) = ok bytes
read_result (Socks.Result.err e) = err read_failed

-- io.ReadFull of `n` bytes.
unfoldable pub read : ℕ → Talk (List ℕ)
unfolding read_result
read n c = let (r, c') = Socks.read_full n c in (read_result r, c')

-- io.ReadFull whose error is not looked at.
unfoldable pub skip : ℕ → Talk (Unit {0})
skip n c = let (r, c') = Socks.read_full n c in (ok tt, c')

length_in : Result (List ℕ) → ℕ
length_in (Socks.Result.ok bytes) = get_or bytes 0 0
length_in (Socks.Result.err e) = 0

-- The byte before a domain name; it is zero if it does not come.
unfoldable pub read_length : Talk ℕ
unfolding length_in
read_length c = let (r, c') = Socks.read_full 1 c in (ok (length_in r), c')

-- byte(port >> 8) and byte(port) of an int.
unfoldable pub port_bytes : ℤ → List ℕ
port_bytes (pos n) = n / 256 % 256 ∷ n % 256 ∷ []
port_bytes (negsuc n) = (65535 - n % 65536) / 256 ∷ (65535 - n % 65536) % 256 ∷ []

unfoldable pub auth_bytes : Str → Str → List ℕ
auth_bytes username password =
    1 ∷ length username % 256 ∷ (username ++ length password % 256 ∷ password)

unfoldable pub host_of : Option (Str × Str) → Str
host_of none = []
host_of (some (host, port)) = host

unfoldable pub port_of : Option (Str × Str) → ℤ
port_of none = pos 0
port_of (some (host, port)) = (atoi port).0

-- The loop over `ips`; `to4` is net.IP.To4.
unfoldable pub first_ip4 : (Ip → Option Ip) → List Ip → Option Ip
first_ip4 to4 [] = none
first_ip4 to4 (ip ∷ ips) =
    let rest = first_ip4 to4 ips in elim (to4 ip) [ some v4 ↦ some v4 | none ↦ rest ]

-- The rest of the reply to CONNECT.
unfoldable pub skip_bound : ℕ → Talk (Unit {0})
skip_bound atyp =
    branch (atyp == 1) (skip 6) (
      branch (atyp == 3) (do l ← read_length; skip (l + 2))
        (branch (atyp == 4) (skip 18) (done tt)))

-- (*outConn).Write(bytes); `up` tells whether it succeeds, by what was written before.
unfoldable pub write : (List ℕ → Bool) → List ℕ → Talk (Unit {0})
write up bytes c =
    if up c.output then (ok tt, record c { output = c.output ++ bytes }) else (err write_failed, c)

-- `lookup_ip` is net.LookupIP, none its error.
module _ (up : List ℕ → Bool) (lookup_ip : Str → Option (List Ip)) (to4 : Ip → Option Ip) where
  unfoldable pub send_connect : ℤ → Option Ip → Talk (Unit {0})
  unfolding skip_bound port_bytes
  send_connect port none = fail no_ipv4
  send_connect port (some ip4) = do
    write up (5 ∷ 1 ∷ 0 ∷ 1 ∷ (ip4 ++ port_bytes port))
    resp ← read 4
    branch (get_or resp 1 0 == 0) (skip_bound (get_or resp 3 0))
        (fail (connect_failed (get_or resp 1 0)))

  unfoldable pub connect_to : ℤ → Option (List Ip) → Talk (Unit {0})
  unfolding send_connect first_ip4
  connect_to port none = fail lookup_failed
  connect_to port (some ips) = send_connect port (first_ip4 to4 ips)

  -- From the credentials on; newTag[1] may be out of range.
  unfoldable pub log_in : Str → List Str → Talk (Unit {0})
  unfolding connect_to auth_bytes host_of port_of
  log_in address (username ∷ password ∷ rest) = do
    write up (auth_bytes username password)
    resp ← read 2
    branch (get_or resp 1 0 == 0)
        (connect_to (port_of (split_host_port address))
          (lookup_ip (host_of (split_host_port address))))
        (fail auth_failed)
  log_in address _ = crash

  unfoldable pub connect_upstream_socks : Tag → Upstream → Str → Talk (Unit {0})
  unfolding log_in
  connect_upstream_socks tag upstream address = do
    write up (socks5_version ∷ 1 ∷ auth_password ∷ [])
    reply ← read 2
    branch (get_or reply 1 0 == 2)
        (log_in address (
          split b':' (
            convert_tag upstream.upstream_username upstream.upstream_password tag
              upstream.upstream_provider)))
        (fail no_password_auth)
