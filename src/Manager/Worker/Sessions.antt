-- ===== src/Manager/Worker/Sessions.antt =====
-- Which upstream NextUpstream gives to a session.
use subnetwork_system_torchl.Prelude.{
  ℕ, ◌<◌, ◌≡◌, refl, ◌≢◌, ◌∷◌, none, some, lt→ltb, length, Outcome, ok, panic, Option-cases, inl,
  inr, ap, sym, ◌∙◌, List, All, subst,
}
use subnetwork_system_torchl.Text.{Str, str_eq_refl}
use subnetwork_system_torchl.Dict.{lookup, insert, lookup-insert}
use subnetwork_system_torchl.Cmap
use subnetwork_system_torchl.Cmap.{shard_count}
use subnetwork_system_torchl.Cmap.Laws.{get-store, length-store}
use subnetwork_system_torchl.Manager.Models.{Upstream, CachedUser}
use subnetwork_system_torchl.Manager.Upstreams.{next}
use subnetwork_system_torchl.Manager.Users.{UserManager, get_user}
use subnetwork_system_torchl.Manager.Health.{Float32}
use subnetwork_system_torchl.Manager.Worker.Kept.{
  Call, calls, Allows, Has, IsKept, KeptIn, calls-KeptIn,
}
use subnetwork_system_torchl.Manager.Worker.Defs.{WorkerManager, next_upstream, known_session}

get_user-fresh :
    (u : UserManager) (now : ℕ) (k : Str) (c : CachedUser)
    → Cmap.get u.cached_users k ≡ some c
    → now < c.expire_at
    → get_user u now k ≡ (u, some c.user)
unfolding get_user
get_user-fresh u now k c e l = rw (e, lt→ltb _ _ l) refl

module _ (F : Float32) (w : WorkerManager F) (username : Str) (x : ℕ) (s : Str)
    (c : CachedUser) where
  abbrev session : Str
  session = x ∷ s

  -- The entry of the user behind the first call.
  abbrev entered : Upstream → CachedUser
  entered up = record c { user = record c.user { sessions = insert session up c.user.sessions } }

  known :
      (now : ℕ)
      → Cmap.get w.user_manager.cached_users username ≡ some c
      → now < c.expire_at
      → next_upstream F w now username session
        ≡ known_session F w username session (lookup session c.user.sessions)
  unfolding next_upstream
  known now e l = rw (get_user-fresh w.user_manager now username c e l) refl

  started :
      (up : Upstream)
      → Cmap.get w.user_manager.cached_users username ≡ some c
      → lookup session c.user.sessions ≡ none
      → (next w.upstream_manager).1 ≡ some up
      → known_session F w username session (lookup session c.user.sessions)
        ≡ ok (
          record w {
            upstream_manager = (next w.upstream_manager).0;
            user_manager = record w.user_manager {
              cached_users = Cmap.store w.user_manager.cached_users username (entered up);
            };
          },
          some up,
        )
  unfolding known_session
  started up e f n = rw (f, n, e) refl

  resumed :
      (now : ℕ) (up : Upstream)
      → Cmap.get w.user_manager.cached_users username ≡ some c
      → now < c.expire_at
      → lookup session c.user.sessions ≡ some up
      → next_upstream F w now username session ≡ ok (w, some up)
  unfolding known_session
  resumed now up e l f = known now e l ∙ rw f refl

  -- If a session has no upstream yet and there is none to give, NextUpstream panics.
  pub next_upstream-panic :
      (now : ℕ)
      → Cmap.get w.user_manager.cached_users username ≡ some c
      → now < c.expire_at
      → lookup session c.user.sessions ≡ none
      → (next w.upstream_manager).1 ≡ none
      → next_upstream F w now username session ≡ panic
  unfolding known_session
  next_upstream-panic now e l f n = known now e l ∙ rw (f, n) refl

ok-injective :
    {A B : Type 0} {a c : A} {b d : B} (o : Outcome (Unit {0}) (A × B))
    → o ≡ ok (a, b)
    → o ≡ ok (c, d)
    → (a ≡ c) × (b ≡ d)
ok-injective o h k = (cc, cc)

panic-ok : {A : Type 0} {a : A} (o : Outcome (Unit {0}) A) → o ≡ panic → o ≢ ok a
panic-ok o h k = cc

-- What the first call leaves: the session has the upstream that it gave.
first-IsKept :
    (F : Float32) (w w' : WorkerManager F) (username : Str) (x : ℕ) (s : Str) (c : CachedUser)
    (up : Upstream) (now : ℕ)
    → length w.user_manager.cached_users ≡ shard_count
    → Cmap.get w.user_manager.cached_users username ≡ some c
    → now < c.expire_at
    → next_upstream F w now username (x ∷ s) ≡ ok (w', some up)
    → IsKept username (x ∷ s) c.expire_at up w'.user_manager.cached_users
first-IsKept F w w' username x s c up now ready e l h =
    elim (Option-cases (lookup (x ∷ s) c.user.sessions)) [
      | inr (up0, f) ↦
          let (p, q) = ok-injective _ (resumed F w username x s c now up0 e l f) h in
          let users = ap (λ (v : WorkerManager F). v.user_manager.cached_users) p in
          subst (IsKept username (x ∷ s) c.expire_at up) users (record {
            ready = ready;
            has = subst (Has username (x ∷ s) c.expire_at up) (sym e) (refl, f ∙ q);
          })
      | inl f ↦ elim (Option-cases (next w.upstream_manager).1) [
        | inl n ↦ absurd (panic-ok _ (next_upstream-panic F w username x s c now e l f n) h)
        | inr (up0, n) ↦
            let (p, q) =
              ok-injective _
                (known F w username x s c now e l ∙ started F w username x s c up0 e f n) h in
            let users = ap (λ (v : WorkerManager F). v.user_manager.cached_users) p in
            let m = w.user_manager.cached_users in
            let c' = entered F w username x s c up0 in
            let found : Cmap.get (Cmap.store m username c') username ≡ some c' =
              get-store m username username c' ready ∙ rw (str_eq_refl username) refl in
            let given =
              lookup-insert (x ∷ s) (x ∷ s) up0 c.user.sessions ∙ rw (str_eq_refl (x ∷ s)) q in
            subst (IsKept username (x ∷ s) c.expire_at up) users (record {
              ready = length-store m username c' ∙ ready;
              has = subst (Has username (x ∷ s) c.expire_at up) (sym found) (refl, given);
            })
      ]
    ]

-- The upstream that NextUpstream has given to a session is the one it gives to that session again, and
-- without a change of the worker, as long as the user's entry of the cache has not expired, whatever
-- comes in between: NextUpstream for other sessions and users, connections of any user opened and
-- closed, a configuration that brings other upstreams, and the eviction of other users. Not covered is
-- what evicts this user's entry or writes it anew: a refused login or a change of the user, and an
-- answer of Captain to a login.
pub next_upstream-sticky :
    (F : Float32) (w w' w'' : WorkerManager F) (username : Str) (x : ℕ) (s : Str) (c : CachedUser)
    (up : Upstream) (now later : ℕ) (between : List Call)
    → length w.user_manager.cached_users ≡ shard_count
    → Cmap.get w.user_manager.cached_users username ≡ some c
    → now < c.expire_at
    → later < c.expire_at
    → next_upstream F w now username (x ∷ s) ≡ ok (w', some up)
    → All (Allows F username (x ∷ s) c.expire_at up) between
    → calls F w' between ≡ ok w''
    → next_upstream F w'' later username (x ∷ s) ≡ ok (w'', some up)
next_upstream-sticky F w w' w'' username x s c up now later between ready e l k h allowed r =
    let first = first-IsKept F w w' username x s c up now ready e l h in
    let kept = calls-KeptIn F username (x ∷ s) c.expire_at up w' between first allowed in
    let then = subst (KeptIn F username (x ∷ s) c.expire_at up) r kept in
    elim (Option-cases (Cmap.get w''.user_manager.cached_users username)) [
      | inl g ↦ absurd (subst (Has username (x ∷ s) c.expire_at up) g then.has)
      | inr (d, g) ↦
          let (expires, given) = subst (Has username (x ∷ s) c.expire_at up) g then.has in
          resumed F w'' username x s d later up g (subst (λ n. later < n) (sym expires) k) given
    ]
