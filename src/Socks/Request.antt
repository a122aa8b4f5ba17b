-- ===== src/Socks/Request.antt =====
-- handleRequest and sendReply. `ip_string` is net.IP.String.
use subnetwork_system_torchl.Prelude.{ℕ, ◌+◌, ◌*◌, ◌||◌, List, [], ◌∷◌, ◌++◌, ◌==◌, get_or, pos}
use subnetwork_system_torchl.Text.{Str, itoa}
use subnetwork_system_torchl.Socks.Wire.{
  bad_version, bad_command, bad_address_type, Io, ◌>>=◌, ◌>>◌, pure, fail, read_full, write, branch,
}
use subnetwork_system_torchl.Socks.Auth.{socks5_version}

abbrev pub cmd_connect : ℕ
cmd_connect = 1

abbrev pub cmd_udp : ℕ
cmd_udp = 3

abbrev pub atyp_ipv4 : ℕ
atyp_ipv4 = 1

abbrev pub atyp_domain : ℕ
atyp_domain = 3

abbrev pub atyp_ipv6 : ℕ
atyp_ipv6 = 4

abbrev pub rep_cmd_not_supported : ℕ
rep_cmd_not_supported = 7

abbrev pub rep_atyp_not_supported : ℕ
rep_atyp_not_supported = 8

unfoldable pub reply_bytes : ℕ → List ℕ
reply_bytes rep = socks5_version ∷ rep ∷ 0 ∷ atyp_ipv4 ∷ 0 ∷ 0 ∷ 0 ∷ 0 ∷ 0 ∷ 0 ∷ []

unfoldable pub send_reply : ℕ → Io (Unit {0})
unfolding reply_bytes
send_reply rep = write (reply_bytes rep)

-- fmt.Sprintf("%s:%d", host, port)
unfoldable pub host_port : Str → ℕ → Str
host_port host port = host ++ b':' ∷ itoa (pos port)

-- binary.BigEndian.Uint16
unfoldable pub big_endian : List ℕ → ℕ
big_endian b = get_or b 0 0 * 256 + get_or b 1 0

module _ (ip_string : List ℕ → Str) where
  unfoldable pub read_host : ℕ → Io Str
  unfolding send_reply
  read_host atyp =
      branch (atyp == atyp_ipv4) (do addr ← read_full 4; pure (ip_string addr))
        (branch (atyp == atyp_domain) (do len_byte ← read_full 1; read_full (get_or len_byte 0 0))
          (branch (atyp == atyp_ipv6) (do addr ← read_full 16; pure (ip_string addr))
            (do send_reply rep_atyp_not_supported; fail (bad_address_type atyp))))

  read_address : ℕ → ℕ → Io (Str × ℕ)
  read_address cmd atyp = do
    host ← read_host atyp
    port_bytes ← read_full 2
    pure (host_port host (big_endian port_bytes), cmd)

  unfoldable pub handle_request : Io (Str × ℕ)
  unfolding read_address send_reply
  handle_request = do
    header ← read_full 4
    branch (get_or header 0 0 == socks5_version)
        (branch (get_or header 1 0 == cmd_connect || get_or header 1 0 == cmd_udp)
          (read_address (get_or header 1 0) (get_or header 3 0))
          (do send_reply rep_cmd_not_supported; fail (bad_command (get_or header 1 0))))
        (fail (bad_version (get_or header 0 0)))
