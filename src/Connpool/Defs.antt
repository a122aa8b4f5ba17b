-- ===== src/Connpool/Defs.antt =====
-- netPool. A connection is the number of its identity; the channel is the list of what it holds,
-- oldest first, with its capacity; `released` lists what Release closed, last first. Each method
-- holds the pool's lock from end to end, so it is one step.
use subnetwork_system_torchl.Prelude.{
  ℕ, zero, suc, ◌/◌, Bool, true, false, List, [], ◌∷◌, ◌++◌, Option, none, some, ltb, leb,
  if◌then◌else◌, length,
}

-- `factory i` is what the call number `i` of Factory returns; none is an error.
pub record PoolConfig : Type 0 where
  pub factory : ℕ → Option ℕ
  pub is_active : ℕ → Bool
  pub initial_cap : ℕ
  pub max_cap : ℕ

pub record NetPool : Type 0 where
  pub config : PoolConfig
  pub open config use *
  pub conns : List ℕ
  pub capacity : ℕ
  pub calls : ℕ
  pub released : List ℕ

pub data PoolError : Type 0 where
  factory_failed : PoolError

unfoldable pub release : NetPool → ℕ → NetPool
release p c = record p { released = c ∷ p.released }

-- select { case p.conns <- c: default: p.config.Release(c) }
unfoldable pub offer : NetPool → ℕ → NetPool
unfolding release
offer p c =
    if ltb (length p.conns) p.capacity then record p { conns = p.conns ++ c ∷ [] } else release p c

called : NetPool → NetPool
called p = record p { calls = suc p.calls }

-- The rounds left of the loop that fills the pool. Failed calls are skipped by the background
-- worker and end the first, synchronous filling.
unfoldable pub fill_loop : Bool → ℕ → NetPool → NetPool × Option PoolError
unfolding called
fill_loop async zero p = (p, none)
fill_loop async (suc n) p = elim (p.factory p.calls) [
  | none ↦
      (let skip = fill_loop async n (called p) in
        if async then skip else (called p, some factory_failed))
  | some c ↦
      (let filled = offer (called p) c in
        let more = fill_loop async n filled in
        if leb filled.initial_cap (length filled.conns) then (filled, none) else more)
]

-- One pass of `worker` in initAutoFill.
unfoldable pub init_auto_fill : Bool → NetPool → NetPool × Option PoolError
init_auto_fill async p =
    if leb (length p.conns) (p.initial_cap / 2) then fill_loop async p.initial_cap p else (p, none)

abbrev started : NetPool × Option PoolError → NetPool × Bool
started (p, none) = (p, true)
started (p, some e) = (p, false)

-- NewConnPool: the pool, and whether its background worker was started. Its error is always nil.
unfoldable pub new_conn_pool : PoolConfig → NetPool × Bool
unfolding init_auto_fill
new_conn_pool c =
    let p : NetPool = record {
      config = c;
      conns = [];
      capacity = c.max_cap;
      calls = 0;
      released = [];
    } in
    if ltb 0 c.max_cap then started (init_auto_fill false p) else (p, false)

-- What the background worker does between two sleeps.
unfoldable pub background_pass : NetPool → NetPool
unfolding init_auto_fill
background_pass p = (init_auto_fill true p).0

take_conn : NetPool → List ℕ → NetPool × Option ℕ
unfolding called release
take_conn p [] = (called p, p.factory p.calls)
take_conn p (c ∷ rest) =
    let p' = record p { conns = rest } in
    if p.is_active c then (p', some c) else (release p' c, some c)

-- Get; none is the error of Factory.
unfoldable pub get : NetPool → NetPool × Option ℕ
unfolding take_conn
get p = take_conn p p.conns

-- Put; none is the nil connection.
unfoldable pub put : NetPool → Option ℕ → NetPool
put p none = p
put p (some c) = offer (if p.is_active c then p else release p c) c

unfoldable pub release_each : List ℕ → List ℕ → List ℕ
release_each [] released = released
release_each (c ∷ cs) released = release_each cs (c ∷ released)

unfoldable pub release_all : NetPool → NetPool
release_all p = record p {
  conns = [];
  capacity = p.initial_cap;
  released = release_each p.conns p.released;
}

unfoldable pub len : NetPool → ℕ
len p = length p.conns
