-- ===== src/Services/Calls.antt =====
-- What a handler of a client's connection does to the world, in order, and how it ends.
use subnetwork_system_torchl.Prelude.{
  ℕ, ◌+◌, ◌≡◌, Bool, true, false, List, [], ◌∷◌, ◌++◌, arith, if◌then◌else◌,
}
use subnetwork_system_torchl.Text.{Str, str_eq}
use subnetwork_system_torchl.Manager.Models.{Upstream}
use subnetwork_system_torchl.Manager.Worker.Telemetry.{Transfer}
use subnetwork_system_torchl.Socks.{Conn, Io, Result}

-- What the closures that IoBind gets have captured.
pub record Binding : Type 0 where
  pub username : Str
  pub source_ip : Str
  pub dest_host : Str
  pub dest_port : ℕ
  pub is_https : Bool

-- A call of the worker, the checker, the network or IoBind. `add_user` says whether the user was
-- let in, `latency` whether an error was recorded.
pub data Call : Type 0 where
  add_user : Str → Bool → Call
  remove_user : Str → Call
  check : Str → Call
  next_upstream : Str → Str → Call
  dial : Str → Call
  latency : Upstream → Bool → Call
  increment : Call
  decrement : Bool → Call
  throughput : ℕ → Call
  usage : Transfer → Call
  write_upstream : List ℕ → Call
  close_client close_upstream : Call
  bind : Binding → Call

pub data Exit (A : Type 0) : Type 0 where
  returns : A → Exit A
  crashes : Exit A

-- A handler's exit, the client's connection as it leaves it, and the calls that it has made.
pub record Served (A : Type 0) : Type 0 where
  pub exit : Exit A
  pub conn : Conn
  pub calls : List Call

abbrev pub Serve : Type 0 → Type 0
Serve A = Conn → Served A

abbrev pub follow : {A B : Type 0} → List Call → Conn → Exit A → (A → Serve B) → Served B
follow before c (returns a) f =
    let r = f a c in record { exit = r.exit; conn = r.conn; calls = before ++ r.calls }
follow before c crashes f = record { exit = crashes; conn = c; calls = before }

infixl 5 ◌>>=◌ ◌>>◌
unfoldable pub ◌>>=◌ : {A B : Type 0} → Serve A → (A → Serve B) → Serve B
◌>>=◌ m f c = let r = m c in follow r.calls r.conn r.exit f

abbrev pub ◌>>◌ : {A B : Type 0} → Serve A → Serve B → Serve B
m >> n = m >>= λ _. n

abbrev pub give : {A : Type 0} → A → Serve A
give a c = record { exit = returns a; conn = c; calls = [] }

abbrev pub crash : {A : Type 0} → Serve A
crash c = record { exit = crashes; conn = c; calls = [] }

abbrev pub call : Call → Serve (Unit {0})
call k c = record { exit = returns tt; conn = c; calls = k ∷ [] }

-- A handler that only reads from the client and writes to it.
abbrev pub talk : {A : Type 0} → Io A → Serve (Result A)
talk m c = let (r, c') = m c in record { exit = returns r; conn = c'; calls = [] }

unfoldable pub branch : {A : Type 0} → Bool → Serve A → Serve A → Serve A
branch true m n c = m c
branch false m n c = n c

-- How often a user was let in, was taken out again and was handed over to IoBind.
abbrev pub named : Str → Str → ℕ
named user name = if str_eq user name then 1 else 0

abbrev pub opening : Str → Call → ℕ
opening user (add_user name true) = named user name
opening user _ = 0

abbrev pub closing : Str → Call → ℕ
closing user (remove_user name) = named user name
closing user _ = 0

abbrev pub handing : Str → Call → ℕ
handing user (bind b) = named user b.username
handing user _ = 0

unfoldable pub tally : (Call → ℕ) → List Call → ℕ
tally f [] = 0
tally f (k ∷ ks) = f k + tally f ks

pub tally-append : (f : Call → ℕ) (xs ys : List Call) → tally f (xs ++ ys) ≡ tally f xs + tally f ys
unfolding tally
tally-append f [] ys = omega arith
tally-append f (k ∷ xs) ys = ground (arith, tally-append f xs ys)
