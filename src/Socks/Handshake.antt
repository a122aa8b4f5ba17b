-- ===== src/Socks/Handshake.antt =====
-- What the SOCKS5 handshake accepts and refuses.
use subnetwork_system_torchl.Prelude.{
  ℕ, ◌≡◌, refl, Bool, true, false, List, [], ◌∷◌, ◌++◌, if◌then◌else◌, length, take-append,
  drop-append, length-append, ltb, arith, get_or, inl, inr, Bool-cases,
}
use subnetwork_system_torchl.Text.{Str, split}
use subnetwork_system_torchl.Tags.{Tag, no_tag, read_tags}
use subnetwork_system_torchl.Socks.Wire.{
  Conn, no_password_auth, auth_failed, ok, err, ◌>>=◌, >>=-ok, branch-ok, read_full, write,
}
use subnetwork_system_torchl.Socks.Auth.{
  socks5_version, auth_password, first_part, has_method, check_user, handle_password_auth,
  handle_handshake,
}

abbrev pub conn : List ℕ → List ℕ → Conn
conn input output = record { input = input; output = output }

-- Reading as many bytes as the next part has gives that part and leaves what follows it.
pub read_full-append :
    (xs rest out : List ℕ) → read_full (length xs) (conn (xs ++ rest) out) ≡ (ok xs, conn rest out)
unfolding read_full
read_full-append xs rest out =
    let enough : ltb (length (xs ++ rest)) (length xs) ≡ false =
      ground (arith, length-append xs rest) in
    rw (enough, take-append xs rest, drop-append xs rest) refl

pub read_full-one :
    (a : ℕ) (rest out : List ℕ) → read_full 1 (conn (a ∷ rest) out) ≡ (ok (a ∷ []), conn rest out)
read_full-one a rest out = read_full-append (a ∷ []) rest out

pub read_full-two :
    (a b : ℕ) (rest out : List ℕ)
    → read_full 2 (conn (a ∷ b ∷ rest) out) ≡ (ok (a ∷ b ∷ []), conn rest out)
read_full-two a b rest out = read_full-append (a ∷ b ∷ []) rest out

-- What a client sends: its greeting, and its user name and password.
abbrev pub greeting : List ℕ → List ℕ
greeting methods = socks5_version ∷ length methods ∷ methods

abbrev pub auth_request : Str → Str → List ℕ → List ℕ
auth_request username password rest =
    1 ∷ length username ∷ (username ++ length password ∷ (password ++ rest))

module _ (verify : Str → Str → Bool) where
  password_auth_lem :
      (username password rest out : List ℕ)
      → handle_password_auth verify (conn (auth_request username password rest) out) ≡ (
          if verify username (first_part (split b'-' password))
          then (
            ok (username, read_tags (split b'-' password) no_tag),
            conn rest (out ++ 1 ∷ 0 ∷ []),
          )
          else (err auth_failed, conn rest (out ++ 1 ∷ 1 ∷ [])))
  unfolding handle_password_auth check_user ◌>>=◌ write
  password_auth_lem username password rest out =
      rw
        (
          read_full-two 1 (length username) (username ++ length password ∷ (password ++ rest)) out,
          read_full-append username (length password ∷ (password ++ rest)) out,
          read_full-one (length password) (password ++ rest) out,
          read_full-append password rest out,
        )
        (ground arith)

  -- A client that offers password authentication and sends its name and password is let in exactly
  -- if VerifyUser accepts the name with the first dash-separated part of the password; it gets the
  -- method reply and then the status byte, and what it sent behind them is left to the request.
  pub handshake_lem :
      (methods : List ℕ) (username password rest out : List ℕ)
      → has_method auth_password methods ≡ true
      → handle_handshake verify (conn (greeting methods ++ auth_request username password rest) out)
        ≡ (if verify username (first_part (split b'-' password))
            then (
              ok (username, read_tags (split b'-' password) no_tag),
              conn rest ((out ++ 5 ∷ 2 ∷ []) ++ 1 ∷ 0 ∷ []),
            )
            else (err auth_failed, conn rest ((out ++ 5 ∷ 2 ∷ []) ++ 1 ∷ 1 ∷ [])))
  unfolding handle_handshake ◌>>=◌ write
  handshake_lem methods username password rest out m =
      let tail = auth_request username password rest in
      rw
        (
          read_full-two 5 (length methods) (methods ++ tail) out,
          read_full-append methods tail out,
          m,
        )
        (password_auth_lem username password rest (out ++ 5 ∷ 2 ∷ []))

  -- A client that does not offer it gets 0xFF and an error, whatever it sends next.
  pub handshake_no_method :
      (methods : List ℕ) (rest out : List ℕ)
      → has_method auth_password methods ≡ false
      → handle_handshake verify (conn (greeting methods ++ rest) out)
        ≡ (err no_password_auth, conn rest (out ++ 5 ∷ 255 ∷ []))
  unfolding handle_handshake ◌>>=◌ write
  handshake_no_method methods rest out m =
      rw
        (
          read_full-two 5 (length methods) (methods ++ rest) out,
          read_full-append methods rest out,
          m,
        )
        refl

module _ (verify : Str → Str → Bool) (username : Str) (tag : Tag) where
  -- What the password sub-negotiation must have seen to let the client in.
  abbrev pub Vouched : Type 0
  Vouched =
      (password : Str) × (verify username (first_part (split b'-' password)) ≡ true)
      × (tag ≡ read_tags (split b'-' password) no_tag)

  check_user-Vouched :
      (name password : Str) (c : Conn)
      → (check_user verify name password c).0 ≡ ok (username, tag)
      → Vouched
  unfolding check_user ◌>>=◌ write
  check_user-Vouched name password c h =
      elim (Bool-cases (verify name (first_part (split b'-' password)))) [
        | inl e ↦ (password, ground (arith, e), ground (arith, e))
        | inr e ↦ absurd (ground (arith, e))
      ]

  password_auth-Vouched :
      (c : Conn) → (handle_password_auth verify c).0 ≡ ok (username, tag) → Vouched
  unfolding handle_password_auth
  password_auth-Vouched c h =
      let (header, _, h1) = >>=-ok _ _ c _ h in
      elim (branch-ok _ _ _ (read_full 2 c).1 _ h1) [
        | inl (_, h2) ↦
            let (name, _, h3) = >>=-ok _ _ _ _ h2 in
            let (len, _, h4) = >>=-ok _ _ _ _ h3 in
            let (password, _, h5) = >>=-ok _ _ _ _ h4 in check_user-Vouched name password _ h5
        | inr (_, h2) ↦ absurd (cc)
      ]

  -- Whatever bytes arrive, the handshake lets nobody in whom VerifyUser has not accepted, with the
  -- name that it reports and the first dash-separated part of some password; the tags are those of
  -- that password.
  pub handshake_safe : (c : Conn) → (handle_handshake verify c).0 ≡ ok (username, tag) → Vouched
  unfolding handle_handshake
  handshake_safe c h =
      let (header, _, h1) = >>=-ok _ _ c _ h in
      let c1 = (read_full 2 c).1 in
      elim (branch-ok _ _ _ c1 _ h1) [
        | inl (_, h2) ↦
            let (methods, _, h3) = >>=-ok _ _ c1 _ h2 in
            elim (branch-ok _ _ _ (read_full (get_or header 1 0) c1).1 _ h3) [
              | inl (_, h4) ↦ let (_, _, h5) = >>=-ok _ _ _ _ h4 in password_auth-Vouched _ h5
              | inr (_, h4) ↦ let (_, _, h5) = >>=-ok _ _ _ _ h4 in absurd (cc)
            ]
        | inr (_, h2) ↦ absurd (cc)
      ]
