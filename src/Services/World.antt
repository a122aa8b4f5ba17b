-- ===== src/Services/World.antt =====
-- What a handler finds outside the services: the answers of the worker, the checker, the connection
-- pool and the network. Another goroutine may act between any two of a handler's calls, so each
-- answer is free; the two calls of HasUpstreams may differ.
use subnetwork_system_torchl.Prelude.{
  ℕ, ◌-◌, ◌%◌, Bool, true, false, ◌||◌, List, [], ◌∷◌, Option, none, some, if◌then◌else◌, ℤ, pos,
  negsuc,
}
use subnetwork_system_torchl.Text.{Str, str_eq, split, atoi, split_host_port}
use subnetwork_system_torchl.Manager.Models.{Upstream}
use subnetwork_system_torchl.Socks.{first_part}
use subnetwork_system_torchl.Services.Calls.{Exit}
use subnetwork_system_torchl.Services.Dial.{Ip}

-- A datagram of an UDP association: to the target, or back from it.
pub record Relayed : Type 0 where
  pub to_target : Bool
  pub size : ℕ
  pub client_ip : Str
  pub target_host : Str
  pub target_port : ℕ

pub record World : Type 0 where
  -- VerifyUser and AddUserConnection
  pub verify : Str → Str → Bool
  pub granted : Str → Bool
  -- HasUpstreams, in the callback and in OutToTCP, and NextUpstream
  pub has_upstreams : Bool
  pub still_upstreams : Bool
  pub chosen : Exit (Option Upstream)
  -- the flag --always, and IsBlocked
  pub always : Bool
  pub blocked : Str → Bool
  -- GetConnFromConnectionPool, ConnectHost, what a peer sends, and whether a Write to it succeeds
  pub pooled : Str → Bool
  pub dials : Str → Bool
  pub peer : Str → List ℕ
  pub up : List ℕ → Bool
  -- the addresses of the client's connection
  pub in_addr : Str
  pub in_local_addr : Str
  -- net.LookupIP, GetAllInterfaceAddr, and the methods String, Equal and To4 of net.IP
  pub lookup_ip : Str → Option (List Ip)
  pub interface_ips : Option (List Ip)
  pub ip_string : Ip → Str
  pub ip_equal : Ip → Ip → Bool
  pub to4 : Ip → Option Ip
  -- an UDP association: its port, or an error of ListenUDP; To4 of the local address, which is nil
  -- for an IPv6 one; whether the reply is written; how the relay ends, what it has carried by then,
  -- and what it leaves unread of the client
  pub udp_port : Option ℕ
  pub local_ip : List ℕ
  pub udp_replies : Bool
  pub udp : Exit (Unit {0})
  pub relayed : List Relayed
  pub unread : List ℕ

-- uint16 of an int
unfoldable pub low16 : ℤ → ℕ
low16 (pos n) = n % 65536
low16 (negsuc n) = 65535 - n % 65536

port_from : ℕ → ℤ × Bool → ℕ
port_from default (p, true) = low16 p
port_from default (p, false) = default

-- The host and the port that the usage events name; `host` and `port` stand in for an error.
unfoldable pub destination : Str → Str → ℕ → Option (Str × Str) → Str × ℕ
unfolding port_from low16
destination host port default none = (host, port_from default (atoi port))
destination host port default (some (dest, text)) = (dest, port_from default (atoi text))

unfoldable pub source_ip : World → Str
source_ip w = first_part (split b':' w.in_addr)

unfoldable pub any_is : (Ip → Bool) → List Ip → Bool
any_is p [] = false
any_is p (ip ∷ ips) = p ip || any_is p ips

own : World → List Ip → Option (List Ip) → Bool
unfolding any_is
own w ips none = false
own w ips (some mine) = any_is (λ local. any_is (λ out. w.ip_equal local out) ips) mine

-- The two loops of IsDeadLoop, on the addresses of the host.
unfoldable pub reaches : World → Str → Option (List Ip) → Bool
unfolding any_is own
reaches w in_ip none = false
reaches w in_ip (some ips) =
    any_is (λ ip. str_eq (w.ip_string ip) in_ip) ips || own w ips w.interface_ips

same_port : World → Str × Str → Option (Str × Str) → Bool
unfolding reaches
same_port w inside none = false
same_port w (in_ip, in_port) (some (domain, out_port)) =
    if str_eq in_port out_port then reaches w in_ip (w.lookup_ip domain) else false

local_side : World → Option (Str × Str) → Option (Str × Str) → Bool
unfolding same_port
local_side w none out = false
local_side w (some inside) out = same_port w inside out

-- IsDeadLoop(inLocalAddr, host)
unfoldable pub is_dead_loop : World → Str → Bool
unfolding local_side
is_dead_loop w host = local_side w (split_host_port w.in_local_addr) (split_host_port host)
