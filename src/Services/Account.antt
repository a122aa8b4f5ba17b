-- ===== src/Services/Account.antt =====
-- The account that a handler keeps of a user's connections: how often it lets the user in, takes it
-- out again and hands it over to IoBind.
use subnetwork_system_torchl.Prelude.{ℕ, ◌≡◌, List, ◌++◌, Option, none, some, arith}
use subnetwork_system_torchl.Text.{Str}
use subnetwork_system_torchl.Socks.{Conn}
use subnetwork_system_torchl.Services.Calls.{
  Call, Exit, returns, crashes, Served, Serve, follow, ◌>>=◌, named, opening, closing, handing,
  tally, tally-append,
}

-- A statement about a handler's exit and its account.
abbrev pub Keeps : Str → {B : Type 0} → (Exit B → ℕ → ℕ → ℕ → Type 0) → Served B → Type 0
Keeps u P r =
    P r.exit (tally (opening u) r.calls) (tally (closing u) r.calls) (tally (handing u) r.calls)

quiet-append : (f : Call → ℕ) (xs ys : List Call) → tally f xs ≡ 0 → tally f (xs ++ ys) ≡ tally f ys
quiet-append f xs ys h = omega (arith, tally-append f xs ys)

module _ (u : Str) where
  -- No call lets `u` in, takes it out or hands it over.
  abbrev pub Quiet : List Call → Type 0
  Quiet ks = (tally (opening u) ks ≡ 0) × (tally (closing u) ks ≡ 0) × (tally (handing u) ks ≡ 0)

  -- What OutToTCP does to the account: it hands the user over exactly if it returns no error.
  abbrev pub handed : {E : Type 0} → Str → Exit (Option E) → ℕ
  handed user (returns none) = named u user
  handed user (returns (some e)) = 0
  handed user crashes = 0

  -- OutToTCP hands the user over exactly if it returns no error, and does nothing else to the account.
  abbrev pub Handed : {E : Type 0} → Str → Exit (Option E) → ℕ → ℕ → ℕ → Type 0
  Handed user exit o l h = (o ≡ 0) × (l ≡ 0) × (h ≡ handed user exit)

  module _ {A B : Type 0} (P : Exit B → ℕ → ℕ → ℕ → Type 0) where
    follow-Keeps :
        (before : List Call) (c : Conn) (exit : Exit A) (k : A → Serve B)
        → Quiet before
        → P crashes 0 0 0
        → ((a : A) (c' : Conn) → Keeps u P (k a c'))
        → Keeps u P (follow before c exit k)
    follow-Keeps before c (returns a) k (o, l, h) p q =
        let r = k a c in
        rw
          (
            quiet-append (opening u) before r.calls o,
            quiet-append (closing u) before r.calls l,
            quiet-append (handing u) before r.calls h,
          )
          (q a c)
    follow-Keeps before c crashes k (o, l, h) p q = rw (o, l, h) p

    -- A quiet part in front of a handler leaves its account as it is.
    pub bind-Keeps :
        (m : Serve A) (k : A → Serve B) (c : Conn)
        → Quiet (m c).calls
        → P crashes 0 0 0
        → ((a : A) (c' : Conn) → Keeps u P (k a c'))
        → Keeps u P ((m >>= k) c)
    unfolding ◌>>=◌
    bind-Keeps m k c n p q = follow-Keeps (m c).calls (m c).conn (m c).exit k n p q
