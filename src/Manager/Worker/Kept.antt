-- ===== src/Manager/Worker/Kept.antt =====
-- What leaves the upstream of a session as it is: the calls of a worker between two NextUpstream.
use subnetwork_system_torchl.Prelude.{
  ℕ, ◌<◌, ◌≡◌, refl, Bool, true, false, ◌∷◌, List, [], Option, none, some, length, Outcome, ok, err,
  panic, Option-cases, Bool-cases, inl, inr, ap, sym, subst, ◌∙◌, ltb, arith, pos, ◌+ℤ◌, ◌-ℤ◌, ℤ,
  All, if◌then◌else◌,
}
use subnetwork_system_torchl.Text.{Str, str_eq, str_eq_iff}
use subnetwork_system_torchl.Dict.{lookup, insert, lookup-insert}
use subnetwork_system_torchl.Cmap
use subnetwork_system_torchl.Cmap.{ConcurrentMap, shard_count}
use subnetwork_system_torchl.Cmap.Laws.{get-store, get-remove, length-store, length-remove}
use subnetwork_system_torchl.Manager.Models.{Upstream, CachedUser, ConfigPayload}
use subnetwork_system_torchl.Manager.Upstreams.{next}
use subnetwork_system_torchl.Manager.Users.{
  UserManager, get_user, set_count, has_room, has_open, add_connection, remove_connection,
  remove_user,
}
use subnetwork_system_torchl.Manager.Health.{Float32}
use subnetwork_system_torchl.Manager.Worker.Defs.{
  WorkerManager, next_upstream, known_session, process_config, add_user_connection,
  remove_user_connection, process_user_change,
}

module _ (name session : Str) (until : ℕ) (up : Upstream) where
  -- The entry expires at `until` and has the upstream of the session.
  abbrev pub Has : Option CachedUser → Type 0
  Has none = ⊥
  Has (some c) = (c.expire_at ≡ until) × (lookup session c.user.sessions ≡ some up)

  pub record IsKept (m : ConcurrentMap CachedUser) : Type 0 where
    pub ready : length m ≡ shard_count
    pub has : Has (Cmap.get m name)

  Has-get :
      (m : ConcurrentMap CachedUser) (u : Str) (c : CachedUser)
      → IsKept m
      → Cmap.get m u ≡ some c
      → str_eq u name ≡ true
      → Has (some c)
  Has-get m u c h e f =
      let same : u ≡ name = (str_eq_iff u name).0 f in
      subst Has (ap (Cmap.get m) (sym same) ∙ e) h.has

  store-IsKept :
      (m : ConcurrentMap CachedUser) (u : Str) (c : CachedUser)
      → IsKept m
      → (str_eq u name ≡ true → Has (some c))
      → IsKept (Cmap.store m u c)
  store-IsKept m u c h new = record {
    ready = length-store m u c ∙ h.ready;
    has = subst Has (sym (get-store m u name c h.ready)) (go (str_eq u name) new);
  }
    where
      go : (b : Bool) → (b ≡ true → Has (some c)) → Has (if b then some c else Cmap.get m name)
      go true new = new refl
      go false new = h.has

  remove-IsKept :
      (m : ConcurrentMap CachedUser) (u : Str)
      → IsKept m
      → str_eq u name ≡ false
      → IsKept (Cmap.remove m u)
  remove-IsKept m u h other = record {
    ready = length-remove m u ∙ h.ready;
    has = subst Has (sym (get-remove m u name h.ready)) (rw other h.has);
  }

  set_count-IsKept :
      (u : UserManager) (k : Str) (c : CachedUser) (n : ℤ)
      → IsKept u.cached_users
      → Cmap.get u.cached_users k ≡ some c
      → IsKept (set_count u k c n).cached_users
  unfolding set_count
  set_count-IsKept u k c n h e = store-IsKept u.cached_users k _ h (Has-get u.cached_users k c h e)

  pub add_connection-IsKept :
      (u : UserManager) (k : Str)
      → IsKept u.cached_users
      → IsKept (add_connection u k).0.cached_users
  unfolding add_connection
  add_connection-IsKept u k h = elim (Option-cases (Cmap.get u.cached_users k)) [
    | inl e ↦ rw e h
    | inr (c, e) ↦ elim (Bool-cases (has_room c.user.connection_count)) [
      | inl f ↦ rw (e, f) (set_count-IsKept u k c (c.user.connection_count +ℤ pos 1) h e)
      | inr f ↦ rw (e, f) h
    ]
  ]

  pub remove_connection-IsKept :
      (u : UserManager) (k : Str)
      → IsKept u.cached_users
      → IsKept (remove_connection u k).cached_users
  unfolding remove_connection
  remove_connection-IsKept u k h = elim (Option-cases (Cmap.get u.cached_users k)) [
    | inl e ↦ rw e h
    | inr (c, e) ↦ elim (Bool-cases (has_open c.user.connection_count)) [
      | inl f ↦ rw (e, f) (set_count-IsKept u k c (c.user.connection_count -ℤ pos 1) h e)
      | inr f ↦ rw (e, f) h
    ]
  ]

  expired-IsKept :
      (m : ConcurrentMap CachedUser) (now : ℕ) (k : Str) (c : CachedUser)
      → now < until
      → IsKept m
      → Cmap.get m k ≡ some c
      → ltb now c.expire_at ≡ false
      → IsKept (Cmap.remove m k)
  expired-IsKept m now k c l h e f = elim (Bool-cases (str_eq k name)) [
    | inl q ↦ let expires = (Has-get m k c h e q).0 in absurd (ground (arith, f, expires))
    | inr q ↦ remove-IsKept m k h q
  ]

  inserted-Has :
      (c : CachedUser) (s : Str) (given : Upstream)
      → lookup s c.user.sessions ≡ none
      → Has (some c)
      → Has (some (record c { user = record c.user { sessions = insert s given c.user.sessions } }))
  inserted-Has c s given e (expires, has) = elim (Bool-cases (str_eq s session)) [
    | inl f ↦ let same : s ≡ session = (str_eq_iff s session).0 f in absurd (cc)
    | inr f ↦ (expires, lookup-insert s session given c.user.sessions ∙ rw f has)
  ]

-- The calls of the services and of Captain's events that change the users or the upstreams.
pub data Call : Type 0 where
  asks : (now : ℕ) (username session : Str) → Call
  opens closes changes : (username : Str) → Call
  configures : ConfigPayload → Call

module _ (F : Float32) where
  abbrev worker_of :
      Outcome (Unit {0}) (WorkerManager F × Option Upstream) → Outcome (Unit {0}) (WorkerManager F)
  worker_of (ok (w, up)) = ok w
  worker_of (err e) = err e
  worker_of panic = panic

  unfoldable pub call : WorkerManager F → Call → Outcome (Unit {0}) (WorkerManager F)
  call w (asks now username session) = worker_of (next_upstream F w now username session)
  call w (opens username) = ok (add_user_connection F w username).0
  call w (closes username) = ok (remove_user_connection F w username)
  call w (changes username) = ok (process_user_change F w username)
  call w (configures cfg) = ok (process_config F w cfg)

  abbrev pub calls_after :
      (WorkerManager F → Outcome (Unit {0}) (WorkerManager F))
      → Outcome (Unit {0}) (WorkerManager F)
      → Outcome (Unit {0}) (WorkerManager F)
  calls_after rest (ok w) = rest w
  calls_after rest (err e) = err e
  calls_after rest panic = panic

  unfoldable pub calls : WorkerManager F → List Call → Outcome (Unit {0}) (WorkerManager F)
  unfolding call
  calls w [] = ok w
  calls w (c ∷ cs) = calls_after (λ v. calls v cs) (call w c)

  module _ (name session : Str) (until : ℕ) (up : Upstream) where
    -- No NextUpstream comes at `until` or later, and no change of this user.
    abbrev pub Allows : Call → Type 0
    Allows (asks now username s) = now < until
    Allows (changes username) = str_eq username name ≡ false
    Allows _ = Unit

    abbrev pub KeptIn : Outcome (Unit {0}) (WorkerManager F) → Type 0
    KeptIn (ok w) = IsKept name session until up w.user_manager.cached_users
    KeptIn _ = Unit

    known_session-KeptIn :
        (w : WorkerManager F) (u s : Str) (c : CachedUser)
        → KeptIn (ok w)
        → Cmap.get w.user_manager.cached_users u ≡ some c
        → KeptIn (worker_of (known_session F w u s (lookup s c.user.sessions)))
    unfolding known_session
    known_session-KeptIn w u s c h e = elim (Option-cases (lookup s c.user.sessions)) [
      | inr (given, f) ↦ rw f h
      | inl f ↦ elim (Option-cases (next w.upstream_manager).1) [
        | inl n ↦ rw (f, n) tt
        | inr (given, n) ↦
            rw (f, n, e)
              (store-IsKept name session until up w.user_manager.cached_users u _ h (λ q.
                inserted-Has name session until up c s given f
                  (Has-get name session until up w.user_manager.cached_users u c h e q)))
      ]
    ]

    next_upstream-KeptIn :
        (w : WorkerManager F) (now : ℕ) (u s : Str)
        → KeptIn (ok w)
        → now < until
        → KeptIn (worker_of (next_upstream F w now u s))
    unfolding next_upstream get_user remove_user
    next_upstream-KeptIn w now u [] h l = h
    next_upstream-KeptIn w now u (x ∷ s) h l =
        elim (Option-cases (Cmap.get w.user_manager.cached_users u)) [
          | inl e ↦ rw e h
          | inr (c, e) ↦ elim (Bool-cases (ltb now c.expire_at)) [
            | inl f ↦ rw (e, f) (known_session-KeptIn w u (x ∷ s) c h e)
            | inr f ↦
                rw (e, f)
                  (expired-IsKept name session until up w.user_manager.cached_users now u c l h e f)
          ]
        ]

    call-KeptIn : (w : WorkerManager F) (c : Call) → KeptIn (ok w) → Allows c → KeptIn (call w c)
    unfolding call add_user_connection remove_user_connection process_user_change process_config
        remove_user
    call-KeptIn w (asks now u s) h l = next_upstream-KeptIn w now u s h l
    call-KeptIn w (opens u) h l = add_connection-IsKept name session until up w.user_manager u h
    call-KeptIn w (closes u) h l = remove_connection-IsKept name session until up w.user_manager u h
    call-KeptIn w (changes u) h l =
        remove-IsKept name session until up w.user_manager.cached_users u h l
    call-KeptIn w (configures cfg) h l = h

    calls_after-KeptIn :
        (rest : WorkerManager F → Outcome (Unit {0}) (WorkerManager F))
        (o : Outcome (Unit {0}) (WorkerManager F))
        → ((v : WorkerManager F) → KeptIn (ok v) → KeptIn (rest v))
        → KeptIn o
        → KeptIn (calls_after rest o)
    calls_after-KeptIn rest (ok v) go k = go v k
    calls_after-KeptIn rest (err e) go k = tt
    calls_after-KeptIn rest panic go k = tt

    pub calls-KeptIn :
        (w : WorkerManager F) (cs : List Call) → KeptIn (ok w) → All Allows cs → KeptIn (calls w cs)
    unfolding calls
    calls-KeptIn w [] h l = h
    calls-KeptIn w (c ∷ cs) h l =
        calls_after-KeptIn (λ v. calls v cs) (call w c) (λ v k. calls-KeptIn v cs k l.1)
          (call-KeptIn w c h l.0)
