-- ===== src/Manager/Users/Connections.antt =====
-- The count of a user's open connections.
use subnetwork_system_torchl.Prelude.{
  ℕ, ◌<◌, ◌≡◌, refl, Option, none, some, arith, if◌then◌else◌, ℤ, pos, negsuc, ◌+ℤ◌, ◌-ℤ◌, length,
  ltb_ℤ, leb_ℤ, inl, inr, Option-cases, ◌∙◌,
}
use subnetwork_system_torchl.Text.{Str, str_eq, str_eq_iff, str_eq_refl}
use subnetwork_system_torchl.Cmap
use subnetwork_system_torchl.Cmap.{shard_count}
use subnetwork_system_torchl.Cmap.Laws.{get-store, length-store}
use subnetwork_system_torchl.Manager.Models.{CachedUser}
use subnetwork_system_torchl.Manager.Users.Defs.{
  UserManager, ConnectionError, too_many, not_found, max_connections, add_connection,
  remove_connection, set_count,
}

-- The connection count of a cached user.
unfoldable pub count_of : UserManager → Str → Option ℤ
count_of u k = elim (Cmap.get u.cached_users k) [
  | none ↦ none
  | some c ↦ some c.user.connection_count
]

-- What an open and a close do to a count, and what an open answers.
abbrev pub opened : Option ℤ → Option ℤ
opened none = none
opened (some n) = some (if ltb_ℤ n max_connections then n +ℤ pos 1 else n)

abbrev pub verdict : Option ℤ → Option ConnectionError
verdict none = some not_found
verdict (some n) = if ltb_ℤ n max_connections then none else some too_many

abbrev pub closed : Option ℤ → Option ℤ
closed none = none
closed (some n) = some (if leb_ℤ (pos 0) n then n -ℤ pos 1 else n)

module _ (u : UserManager) (k : Str) (ready : length u.cached_users ≡ shard_count) where
  count_of-set_count :
      (j : Str) (c : CachedUser) (n : ℤ)
      → count_of (set_count u k c n) j ≡ (if str_eq k j then some n else count_of u j)
  unfolding set_count count_of
  count_of-set_count j c n = ground (
    arith,
    get-store u.cached_users k j (record c { user = record c.user { connection_count = n } }) ready,
  )

  -- AddUserConnection counts one more up to fifty, refuses from there on, answers an error for a
  -- name that is not cached, and leaves every other user's count alone.
  pub add_connection-count :
      (j : Str)
      → ((add_connection u k).1 ≡ verdict (count_of u k))
        × (count_of (add_connection u k).0 j
            ≡ (if str_eq k j then opened (count_of u j) else count_of u j))
  unfolding add_connection count_of
  add_connection-count j = elim (Option-cases (Cmap.get u.cached_users k)) [
    | inl e ↦ ground (arith, e, str_eq_iff k j)
    | inr (c, e) ↦
        ground (arith, e, str_eq_iff k j, count_of-set_count j c (c.user.connection_count +ℤ pos 1))
  ]

  -- RemoveUserConnection counts one less from zero up, and leaves every other user's count alone.
  pub remove_connection-count :
      (j : Str)
      → count_of (remove_connection u k) j
        ≡ (if str_eq k j then closed (count_of u j) else count_of u j)
  unfolding remove_connection count_of
  remove_connection-count j = elim (Option-cases (Cmap.get u.cached_users k)) [
    | inl e ↦ ground (arith, e, str_eq_iff k j)
    | inr (c, e) ↦
        ground (arith, e, str_eq_iff k j, count_of-set_count j c (c.user.connection_count -ℤ pos 1))
  ]

  -- A close that no open went before takes a count of zero to minus one.
  pub remove_connection-below_zero :
      count_of u k ≡ some (pos 0) → count_of (remove_connection u k) k ≡ some (negsuc 0)
  unfolding ◌-ℤ◌
  remove_connection-below_zero e = ground (arith, remove_connection-count k, str_eq_refl k, e)

add_connection-ready :
    (u : UserManager) (k : Str) → length (add_connection u k).0.cached_users ≡ length u.cached_users
unfolding add_connection set_count
add_connection-ready u k = elim (Option-cases (Cmap.get u.cached_users k)) [
  | inl e ↦ rw (e, add_connection) refl
  | inr (c, e) ↦ ground (
    arith,
    e,
    length-store u.cached_users k
        (record c { user = record c.user { connection_count = c.user.connection_count +ℤ pos 1 } }),
  )
]

-- Opening a connection below the limit and closing it again restores every user's count.
pub remove-add_connection :
    (u : UserManager) (k j : Str) (n : ℕ)
    → length u.cached_users ≡ shard_count
    → n < 50
    → count_of u k ≡ some (pos n)
    → count_of (remove_connection (add_connection u k).0 k) j ≡ count_of u j
unfolding ◌+ℤ◌ ◌-ℤ◌
remove-add_connection u k j n ready l e = ground (
  arith,
  remove_connection-count (add_connection u k).0 k (add_connection-ready u k ∙ ready) j,
  (add_connection-count u k ready j).1,
  str_eq_iff k j,
  e,
)
