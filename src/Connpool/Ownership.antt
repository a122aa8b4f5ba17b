-- ===== src/Connpool/Ownership.antt =====
-- Where a pool's connections are: in the channel, with a client, or released.
use subnetwork_system_torchl.Prelude.{
  ℕ, ◌+◌, ◌<◌, ◌≡◌, refl, true, false, List, [], ◌∷◌, ◌++◌, Option, none, some, arith, ltb,
  if◌then◌else◌, length, ap,
}
use subnetwork_system_torchl.Connpool.Defs.{
  PoolConfig, NetPool, release, offer, fill_loop, init_auto_fill, new_conn_pool, get, put,
  release_all, background_pass,
}
use subnetwork_system_torchl.Connpool.Held.{
  occ, occ_option, made, held, made_by, occ-append, offer-held, offer-made, made-suc, Keeps,
  Keeps-refl, if-Keeps, fill_loop-Keeps, fill_loop-balance, background_pass-balance,
  occ-release_each, config-offer, config-if, config-fill_loop, config-background_pass,
}

-- A pool and what its clients hold.
pub record System : Type 0 where
  pub pool : NetPool
  pub lent : List ℕ

abbrev lend : Option ℕ → List ℕ → List ℕ
lend none lent = lent
lend (some c) lent = c ∷ lent

-- The steps of the pool's goroutines and of clients that give back what they hold.
pub data Step (s : System) : System → Type 0 where
  gets : Step s (record { pool = (get s.pool).0; lent = lend (get s.pool).1 s.lent })
  puts :
      (before after : List ℕ) (c : ℕ)
      → s.lent ≡ before ++ c ∷ after
      → Step s (record { pool = put s.pool (some c); lent = before ++ after })
  fills : Step s (record s { pool = background_pass s.pool })
  -- The pool is not locked between a pass's test and its loop, so others may have come in between.
  fills_late : Step s (record s { pool = (fill_loop true s.pool.initial_cap s.pool).0 })
  releases : Step s (record s { pool = release_all s.pool })

pub data Reach (s : System) : System → Type 0 where
  here : Reach s s
  next : {t u : System} → Reach s t → Step t u → Reach s u

-- Every connection that Factory made is in the channel, with a client or released, as often as it
-- was made; and no connection ever counts as inactive, as in OutPool.
pub record IsAccounted (s : System) : Type 0 where
  pub active : (c : ℕ) → s.pool.is_active c ≡ true
  pub balance : (c : ℕ) → held s.pool c + occ c s.lent ≡ made_by s.pool c

get-balance :
    (p : NetPool) (c : ℕ)
    → ((x : ℕ) → p.is_active x ≡ true)
    → held (get p).0 c + occ_option c (get p).1 + made_by p c ≡ held p c + made_by (get p).0 c
unfolding get occ
get-balance p c h = from p.conns refl
  where
    from :
        (xs : List ℕ)
        → p.conns ≡ xs
        → held (get p).0 c + occ_option c (get p).1 + made_by p c ≡ held p c + made_by (get p).0 c
    from [] e = ground (arith, e, made-suc p.factory c p.calls)
    from (x ∷ xs) e = ground (arith, e, h x)

occ-lend :
    (c : ℕ) (o : Option ℕ) (lent : List ℕ) → occ c (lend o lent) ≡ occ_option c o + occ c lent
unfolding occ
occ-lend c none lent = omega arith
occ-lend c (some x) lent = ground arith

config-get : (p : NetPool) → (get p).0.config ≡ p.config
unfolding get release
config-get p = ground arith

config-put : (p : NetPool) (x : ℕ) → (put p (some x)).config ≡ p.config
unfolding put release
config-put p x = ground (arith, config-offer p x, config-offer (release p x) x)

put-balance :
    (p : NetPool) (x c : ℕ)
    → p.is_active x ≡ true
    → (held (put p (some x)) c ≡ held p c + occ c (x ∷ []))
      × (made_by (put p (some x)) c ≡ made_by p c)
unfolding put
put-balance p x c a = rw a (offer-held p x c, offer-made p x c)

occ-middle :
    (c x : ℕ) (before after : List ℕ)
    → occ c (before ++ x ∷ after) ≡ occ c (x ∷ []) + occ c (before ++ after)
unfolding occ
occ-middle c x before after =
    ground (arith, occ-append c before (x ∷ after), occ-append c before after)

release_all-balance : (p : NetPool) (c : ℕ) → held (release_all p) c ≡ held p c
unfolding release_all occ
release_all-balance p c = ground (arith, occ-release_each c p.conns p.released)

Step-IsAccounted : {s t : System} → Step s t → IsAccounted s → IsAccounted t
Step-IsAccounted {s} gets h = record {
  active = λ c. rw (config-get s.pool) (h.active c);
  balance = λ c.
      omega (arith, get-balance s.pool c h.active, occ-lend c (get s.pool).1 s.lent, h.balance c);
}
Step-IsAccounted {s} (puts before after x e) h = record {
  active = λ c. rw (config-put s.pool x) (h.active c);
  balance = λ c. omega (
    arith,
    put-balance s.pool x c (h.active x),
    occ-middle c x before after,
    ap (occ c) e,
    h.balance c,
  );
}
Step-IsAccounted {s} fills h = record {
  active = λ c. rw (config-background_pass s.pool) (h.active c);
  balance = λ c. omega (arith, background_pass-balance s.pool c, h.balance c);
}
Step-IsAccounted {s} fills_late h = record {
  active = λ c. rw (config-fill_loop true s.pool.initial_cap s.pool) (h.active c);
  balance = λ c. omega (arith, fill_loop-balance s.pool c, h.balance c);
}
Step-IsAccounted {s} releases h = record {
  active = unfold release_all in h.active;
  balance = λ c. unfold release_all in omega (arith, release_all-balance s.pool c, h.balance c);
}

Reach-from : {s t : System} → Reach s t → IsAccounted s → IsAccounted t
Reach-from here h = h
Reach-from (next r st) h = Step-IsAccounted st (Reach-from r h)

abbrev pub new_system : PoolConfig → System
new_system c = record { pool = (new_conn_pool c).0; lent = [] }

abbrev empty_pool : PoolConfig → NetPool
empty_pool c = record { config = c; conns = []; capacity = c.max_cap; calls = 0; released = [] }

new_conn_pool-fill :
    (c : PoolConfig)
    → (new_conn_pool c).0
      ≡ (if ltb 0 c.max_cap then (init_auto_fill false (empty_pool c)).0 else empty_pool c)
unfolding new_conn_pool
new_conn_pool-fill c = ground arith

init-Keeps : (p : NetPool) (c : ℕ) → Keeps p (init_auto_fill false p).0 c
unfolding init_auto_fill
init-Keeps p c = if-Keeps _ p _ _ c (fill_loop-Keeps false p.initial_cap p c) (Keeps-refl p c)

config-init : (p : NetPool) → (init_auto_fill false p).0.config ≡ p.config
unfolding init_auto_fill
config-init p = config-if _ p _ _ (config-fill_loop false p.initial_cap p) refl

init-balance :
    (p : NetPool) (c : ℕ)
    → held (init_auto_fill false p).0 c + made_by p c
      ≡ held p c + made_by (init_auto_fill false p).0 c
init-balance p c = unfold Keeps in init-Keeps p c

new_system-IsAccounted :
    (c : PoolConfig) → ((x : ℕ) → c.is_active x ≡ true) → IsAccounted (new_system c)
unfolding occ made
new_system-IsAccounted c h = record {
  active = λ x. ground (arith, new_conn_pool-fill c, config-init (empty_pool c), h x);
  balance = λ x. ground (arith, new_conn_pool-fill c, init-balance (empty_pool c) x);
}

-- However the goroutines and the clients take turns with a new pool, if connections never count as
-- inactive, none is lost and none is made up: what is in the channel, lent and released is what
-- Factory has made, every connection as often as Factory made it.
pub Reach-IsAccounted :
    (c : PoolConfig) (t : System)
    → ((x : ℕ) → c.is_active x ≡ true)
    → Reach (new_system c) t
    → IsAccounted t
Reach-IsAccounted c t h r = Reach-from r (new_system-IsAccounted c h)

-- With an inactive connection the code does not do what it means to: Put releases it and still
-- puts it into the channel if there is room, so that a later Get can hand it out.
pub put-inactive :
    (p : NetPool) (c : ℕ)
    → p.is_active c ≡ false
    → length p.conns < p.capacity
    → ((put p (some c)).released ≡ c ∷ p.released) × ((put p (some c)).conns ≡ p.conns ++ c ∷ [])
unfolding put offer release
put-inactive p c e h = ground arith

-- Get releases an inactive connection and returns it all the same, with a nil error.
pub get-inactive :
    (p : NetPool) (c : ℕ) (rest : List ℕ)
    → p.conns ≡ c ∷ rest
    → p.is_active c ≡ false
    → ((get p).1 ≡ some c) × ((get p).0.released ≡ c ∷ p.released)
unfolding get release
get-inactive p c rest e i = ground arith
