-- ===== src/Captain/Access.antt =====
-- captain/internal/server/middleware/auth_midddleware.go: who reaches the handlers. `env` is the value
-- of ADMIN_API_KEY or of WORKER_API_KEY and `header` the Authorization header; the two functions of
-- the file differ in the variable alone. White space is that of ASCII.
use subnetwork_system_torchl.Prelude.{
  ℕ, ◌≡◌, ◌≢◌, refl, ◌∙◌, ap, ◌↔◌, List, [], ◌∷◌, ◌++◌, if◌then◌else◌, arith,
}
use subnetwork_system_torchl.Text.{
  Str, codes, str_eq, str_eq_iff, trim, split_n2, split_n2-append, split_n2-two,
}

pub data Access : Type 0 where
  passes no_api_key missing_key bad_format forbidden : Access

-- strings.TrimSpace
unfoldable pub trim_space : Str → Str
trim_space s = trim (9 ∷ 10 ∷ 11 ∷ 12 ∷ 13 ∷ 32 ∷ []) s

check_parts : Str → List Str → Access
unfolding trim_space
check_parts key (word ∷ given ∷ []) =
    if str_eq word (codes "ApiKey")
    then (if str_eq (trim_space given) key then passes else forbidden)
    else bad_format
check_parts key _ = bad_format

-- The checks in front of next.ServeHTTP.
unfoldable pub authenticate : Str → Str → Access
unfolding check_parts trim_space
authenticate env header =
    if str_eq (trim_space env) []
    then no_api_key
    else if str_eq header []
    then missing_key
    else check_parts (trim_space env) (split_n2 32 header)

-- The status that a refusal is answered with.
unfoldable pub status_of : Access → ℕ
status_of passes = 200
status_of no_api_key = 500
status_of _ = 401

-- A header that names the key, which is not empty.
abbrev pub Names : Str → Str → Type 0
Names env header =
    (given : Str) × (header ≡ codes "ApiKey" ++ 32 ∷ given)
    × (trim_space given ≡ trim_space env)
    × (trim_space env ≢ [])

checked-Names :
    (env header : Str) (parts : List Str)
    → trim_space env ≢ []
    → split_n2 32 header ≡ parts
    → check_parts (trim_space env) parts ≡ passes
    → Names env header
unfolding check_parts
checked-Names env header (word ∷ given ∷ []) present cut e = (
  given,
  split_n2-two 32 header word given cut
      ∙ ap (λ w. w ++ 32 ∷ given) ((str_eq_iff word (codes "ApiKey")).0 (ground arith)),
  (str_eq_iff (trim_space given) (trim_space env)).0 (ground arith),
  present,
)
checked-Names env header [] present cut e = absurd (ground arith)
checked-Names env header (word ∷ []) present cut e = absurd (ground arith)
checked-Names env header (word ∷ given ∷ third ∷ rest) present cut e = absurd (ground arith)

-- The handlers are reached exactly by requests whose Authorization header is "ApiKey", a space and
-- the key of the environment, up to white space around the key; with an empty key by none.
pub authenticate-passes_iff :
    (env header : Str) → (authenticate env header ≡ passes) ↔ Names env header
unfolding authenticate check_parts
authenticate-passes_iff env header = (passed, admitted)
  where
    passed : authenticate env header ≡ passes → Names env header
    passed e =
        checked-Names env header (split_n2 32 header)
          (λ none. ground (arith, none, e, str_eq_iff (trim_space env) [])) refl (ground (arith, e))

    admitted : Names env header → authenticate env header ≡ passes
    admitted (given, shape, same, present) =
        let cut : split_n2 32 header ≡ codes "ApiKey" ∷ given ∷ [] =
          ap (split_n2 32) shape
          ∙ split_n2-append 32 (codes "ApiKey") given
              (refl, (refl, (refl, (refl, (refl, (refl, tt)))))) in
        ground (
          arith,
          cut,
          shape,
          same,
          str_eq_iff (trim_space env) [],
          str_eq_iff header [],
          str_eq_iff (codes "ApiKey") (codes "ApiKey"),
          str_eq_iff (trim_space given) (trim_space env),
        )
