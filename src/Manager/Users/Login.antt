-- ===== src/Manager/Users/Login.antt =====
-- What VerifyUser answers, and what it leaves in the cache.
use subnetwork_system_torchl.Prelude.{
  ℕ, ◌<◌, ◌≡◌, refl, ◌↔◌, true, false, List, [], ◌∷◌, ◌++◌, none, some, arith, ltb, if◌then◌else◌,
  ◌<ℤ◌, All, length, inl, inr, ap, Bool-cases, Option-cases,
}
use subnetwork_system_torchl.Text.{Str, codes, str_eq, str_eq_iff, str_eq_refl}
use subnetwork_system_torchl.Dict.{lookup, lookup-insert}
use subnetwork_system_torchl.Cmap
use subnetwork_system_torchl.Cmap.{shard_count}
use subnetwork_system_torchl.Cmap.Laws.{get-remove}
use subnetwork_system_torchl.Manager.Models.{PoolLimit, CachedUser, UserLoginPayload}
use subnetwork_system_torchl.Manager.Users.Defs.{
  UserManager, remove_user, pool_allows, answer, wait, login_allowed, verify_user,
}

abbrev pub IsReady : UserManager → Type 0
IsReady u = length u.cached_users ≡ shard_count

-- The first of the pools with this tag has data left.
pub record HasQuota (pool : Str) (pools : List PoolLimit) : Type 0 where
  pub before : List PoolLimit
  pub entry : PoolLimit
  pub after : List PoolLimit
  pub split : pools ≡ before ++ entry ∷ after
  pub others : All (λ p. str_eq p.tag pool ≡ false) before
  pub tagged : entry.tag ≡ pool
  pub left : entry.data_usage <ℤ entry.data_limit

HasQuota-cons :
    (pool : Str) (p : PoolLimit) (pools : List PoolLimit)
    → str_eq p.tag pool ≡ false
    → HasQuota pool pools
    → HasQuota pool (p ∷ pools)
HasQuota-cons pool p pools e q = record {
  before = p ∷ q.before;
  entry = q.entry;
  after = q.after;
  split = ap (◌∷◌ p) q.split;
  others = (e, q.others);
  tagged = q.tagged;
  left = q.left;
}

pool_allows-HasQuota :
    (pool : Str) (pools : List PoolLimit) → pool_allows pool pools ≡ true → HasQuota pool pools
unfolding pool_allows
pool_allows-HasQuota pool [] h = absurd (cc)
pool_allows-HasQuota pool (p ∷ pools) h = elim (Bool-cases (str_eq p.tag pool)) [
  | inl e ↦ record {
    before = [];
    entry = p;
    after = pools;
    split = refl;
    others = tt;
    tagged = (str_eq_iff _ _).0 e;
    left = ground arith;
  }
  | inr e ↦ HasQuota-cons pool p pools e (pool_allows-HasQuota pool pools (ground arith))
]

HasQuota-pool_allows :
    (pool : Str) (before after : List PoolLimit) (p : PoolLimit)
    → All (λ q. str_eq q.tag pool ≡ false) before
    → p.tag ≡ pool
    → p.data_usage <ℤ p.data_limit
    → pool_allows pool (before ++ p ∷ after) ≡ true
unfolding pool_allows
HasQuota-pool_allows pool [] after p h e l = ground (arith, str_eq_iff p.tag pool)
HasQuota-pool_allows pool (q ∷ before) after p h e l =
    ground (arith, HasQuota-pool_allows pool before after p h.1 e l)

-- What must stand in the cache for a login to be accepted without asking Captain.
pub record IsAccepted (u : UserManager) (now : ℕ) (username password pool : Str) : Type 0 where
  pub cached : CachedUser
  pub found : Cmap.get u.cached_users username ≡ some cached
  pub fresh : now < cached.expire_at
  pub same_password : cached.user.password ≡ password
  pub active : cached.user.status ≡ codes "active"
  pub quota : HasQuota pool cached.user.pools

accepted :
    (u : UserManager) (now : ℕ) (username password pool : Str) (c : CachedUser)
    → Cmap.get u.cached_users username ≡ some c
    → ltb now c.expire_at ≡ true
    → login_allowed c.user password pool ≡ true
    → IsAccepted u now username password pool
unfolding login_allowed
accepted u now username password pool c e f l = record {
  cached = c;
  found = e;
  fresh = ground arith;
  same_password = ground (arith, str_eq_iff c.user.password password);
  active = ground (arith, str_eq_iff c.user.status (codes "active"));
  quota = pool_allows-HasQuota pool c.user.pools (ground arith);
}

accepted-allowed :
    (u : UserManager) (now : ℕ) (username password pool : Str)
    (h : IsAccepted u now username password pool)
    → login_allowed h.cached.user password pool ≡ true
unfolding login_allowed
accepted-allowed u now username password pool h = ground (
  arith,
  str_eq_iff h.cached.user.password password,
  str_eq_iff h.cached.user.status (codes "active"),
  HasQuota-pool_allows pool h.quota.before h.quota.after h.quota.entry h.quota.others
      h.quota.tagged,
)

module _ (u : UserManager) (now : ℕ) (username password pool : Str) (chan : ℕ) where
  login-to :
      (verify_user u now username password pool chan).1 ≡ answer true
      → IsAccepted u now username password pool
  unfolding verify_user
  login-to h = elim (Option-cases (Cmap.get u.cached_users username)) [
    | inl e ↦ absurd (ground (arith, e))
    | inr (c, e) ↦ accepted u now username password pool c e (ground (arith, e)) (ground (arith, e))
  ]

  login-from :
      IsAccepted u now username password pool
      → (verify_user u now username password pool chan).1 ≡ answer true
  unfolding verify_user
  login-from h = ground (arith, h.found, h.fresh, accepted-allowed u now username password pool h)

  -- A login is accepted without asking Captain exactly if the cache holds an entry of that name
  -- that has not expired, with that password, the status "active", and data left on the first of
  -- its pools that has the worker's tag.
  pub verify_user-accepts_iff :
      ((verify_user u now username password pool chan).1 ≡ answer true)
      ↔ IsAccepted u now username password pool
  verify_user-accepts_iff = (login-to, login-from)

  -- An accepted login leaves the manager as it was.
  pub verify_user-keeps :
      (verify_user u now username password pool chan).1 ≡ answer true
      → (verify_user u now username password pool chan).0 ≡ u
  unfolding verify_user
  verify_user-keeps h = ground arith

  -- A login that is refused from the cache evicts that user and nobody else, so that the next
  -- login of that name asks Captain.
  pub verify_user-evicts :
      IsReady u
      → (verify_user u now username password pool chan).1 ≡ answer false
      → (j : Str)
      → Cmap.get (verify_user u now username password pool chan).0.cached_users j
        ≡ (if str_eq username j then none else Cmap.get u.cached_users j)
  unfolding verify_user remove_user
  verify_user-evicts r h j = ground (arith, get-remove u.cached_users username j r)

  -- A login that goes to Captain registers its channel under the user's name.
  pub verify_user-waits :
      (e : UserLoginPayload)
      → (verify_user u now username password pool chan).1 ≡ wait e
      → (lookup username (verify_user u now username password pool chan).0.pending_validations
          ≡ some chan)
        × (e ≡ record { username = username; password = password })
  unfolding verify_user remove_user
  verify_user-waits e h = (
    ground
        (arith, lookup-insert username username chan u.pending_validations, str_eq_refl username),
    ground arith,
  )
