-- ===== src/Socks/Wire.antt =====
-- A client's connection as the handlers see it, and the steps that they are made of.
use subnetwork_system_torchl.Prelude.{
  ℕ, ◌≡◌, refl, Bool, true, false, List, [], ◌++◌, ltb, if◌then◌else◌, length, take, drop, ◌⊎◌, inl,
  inr,
}

-- `input` is what the client still sends before it closes its side, `output` what was written.
pub record Conn : Type 0 where
  pub input : List ℕ
  pub output : List ℕ

pub data SocksError : Type 0 where
  read_failed no_password_auth auth_failed : SocksError
  bad_version bad_auth_version bad_command bad_address_type : ℕ → SocksError

pub data Result (A : Type 0) : Type 0 where
  ok : A → Result A
  err : SocksError → Result A

-- A handler's result, and the connection as it leaves it.
abbrev pub Io : Type 0 → Type 0
Io A = Conn → Result A × Conn

abbrev pub continue : {A B : Type 0} → Result A → (A → Io B) → Io B
continue (ok a) f c = f a c
continue (err e) f c = (err e, c)

-- A test between two handlers' bodies.
unfoldable pub branch : {A : Type 0} → Bool → Io A → Io A → Io A
branch true m n c = m c
branch false m n c = n c

infixl 5 ◌>>=◌ ◌>>◌
unfoldable pub ◌>>=◌ : {A B : Type 0} → Io A → (A → Io B) → Io B
unfolding branch
◌>>=◌ m f c = let (r, c') = m c in continue r f c'

abbrev pub ◌>>◌ : {A B : Type 0} → Io A → Io B → Io B
m >> n = m >>= λ _. n

abbrev pub pure : {A : Type 0} → A → Io A
pure a c = (ok a, c)

abbrev pub fail : {A : Type 0} → SocksError → Io A
fail e c = (err e, c)

-- io.ReadFull of `n` bytes; a short read has consumed what there was.
unfoldable pub read_full : ℕ → Io (List ℕ)
read_full n c =
    if ltb (length c.input) n
    then (err read_failed, record c { input = [] })
    else (ok (take n c.input), record c { input = drop n c.input })

-- (*inConn).Write(bytes); its error is not looked at.
unfoldable pub write : List ℕ → Io (Unit {0})
write bytes c = (ok tt, record c { output = c.output ++ bytes })

continue-ok :
    {A B : Type 0} (r : Result A) (f : A → Io B) (c : Conn) (b : B)
    → (continue r f c).0 ≡ ok b
    → (a : A) × (r ≡ ok a) × ((f a c).0 ≡ ok b)
continue-ok (ok a) f c b h = (a, refl, h)
continue-ok (err e) f c b h = absurd (cc)

pub branch-ok :
    {A : Type 0} (b : Bool) (m n : Io A) (c : Conn) (a : A)
    → (branch b m n c).0 ≡ ok a
    → ((b ≡ true) × ((m c).0 ≡ ok a)) ⊎ ((b ≡ false) × ((n c).0 ≡ ok a))
unfolding branch
branch-ok true m n c a h = inl (refl, h)
branch-ok false m n c a h = inr (refl, h)

-- Inversion of a successful bind.
pub >>=-ok :
    {A B : Type 0} (m : Io A) (f : A → Io B) (c : Conn) (b : B)
    → ((m >>= f) c).0 ≡ ok b
    → (a : A) × ((m c).0 ≡ ok a) × ((f a (m c).1).0 ≡ ok b)
unfolding ◌>>=◌
>>=-ok m f c b h = continue-ok (m c).0 f (m c).1 b h
