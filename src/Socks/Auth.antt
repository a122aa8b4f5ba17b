-- ===== src/Socks/Auth.antt =====
-- handleHandshake and handlePasswordAuth. `verify` is WorkerManager.VerifyUser.
use subnetwork_system_torchl.Prelude.{
  ℕ, Bool, true, false, List, [], ◌∷◌, ◌==◌, if◌then◌else◌, get_or,
}
use subnetwork_system_torchl.Text.{Str, split}
use subnetwork_system_torchl.Tags.{Tag, no_tag, read_tags}
use subnetwork_system_torchl.Socks.Wire.{
  no_password_auth, auth_failed, bad_version, bad_auth_version, Io, ◌>>=◌, ◌>>◌, pure, fail,
  read_full, write, branch,
}

abbrev pub socks5_version : ℕ
socks5_version = 5

abbrev pub auth_password : ℕ
auth_password = 2

abbrev pub auth_no_accept : ℕ
auth_no_accept = 255

-- tagArray[0]; strings.Split returns at least one part.
abbrev pub first_part : List Str → Str
first_part [] = []
first_part (p ∷ ps) = p

unfoldable pub has_method : ℕ → List ℕ → Bool
has_method m [] = false
has_method m (x ∷ xs) = if x == m then true else has_method m xs

module _ (verify : Str → Str → Bool) where
  unfoldable pub check_user : Str → Str → Io (Str × Tag)
  check_user username password =
      let tags = split b'-' password in
      branch (verify username (first_part tags))
        (do write (1 ∷ 0 ∷ []); pure (username, read_tags tags no_tag))
        (do write (1 ∷ 1 ∷ []); fail auth_failed)

  unfoldable pub handle_password_auth : Io (Str × Tag)
  handle_password_auth = do
    header ← read_full 2
    branch (get_or header 0 0 == 1)
        (do
          username ← read_full (get_or header 1 0)
          pass_len ← read_full 1
          password ← read_full (get_or pass_len 0 0)
          check_user username password)
        (fail (bad_auth_version (get_or header 0 0)))

  unfoldable pub handle_handshake : Io (Str × Tag)
  handle_handshake = do
    header ← read_full 2
    branch (get_or header 0 0 == socks5_version)
        (do
          methods ← read_full (get_or header 1 0)
          branch (has_method auth_password methods)
              (do write (socks5_version ∷ auth_password ∷ []); handle_password_auth)
              (do write (socks5_version ∷ auth_no_accept ∷ []); fail no_password_auth))
        (fail (bad_version (get_or header 0 0)))
