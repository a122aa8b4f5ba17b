-- ===== src/Captain/Otp.antt =====
-- captain/internal/server/websocket/otp.go: the one-time passwords with which workers connect.
-- Every method holds the lock of the map from end to end. `key` is what uuid.NewString returned.
use subnetwork_system_torchl.Prelude.{
  ℕ, suc, ◌+◌, ◌≤◌, ◌≡◌, List, [], ◌∷◌, Option, none, some, if◌then◌else◌, ltb, arith, is_some,
  Option-cases, inl, inr,
}
use subnetwork_system_torchl.Text.{Str, str_eq, str_eq_iff, str_eq_refl}
use subnetwork_system_torchl.Dict.{Dict, lookup, insert, delete, lookup-insert, lookup-delete}

pub record Otp : Type 0 where
  pub key : Str
  pub created : ℕ
  pub worker_id : Str

abbrev pub RetentionMap : Type 0
RetentionMap = Dict Otp

unfoldable pub new_otp : RetentionMap → ℕ → Str → Str → RetentionMap
new_otp rm now key worker_id =
    insert key (record { key = key; created = now; worker_id = worker_id }) rm

worker_of : Option Otp → Option Str
worker_of none = none
worker_of (some o) = some o.worker_id

-- VerifyOTP: the map it leaves, and the worker; none is false.
unfoldable pub verify_otp : RetentionMap → Str → RetentionMap × Option Str
unfolding worker_of
verify_otp rm key =
    (if is_some (lookup key rm) then delete key rm else rm, worker_of (lookup key rm))

-- One tick of Retention, over the entries in the order of its loop.
purge : ℕ → ℕ → Dict Otp → RetentionMap → RetentionMap
purge period now [] rm = rm
purge period now ((k, o) ∷ entries) rm =
    purge period now entries (if ltb (o.created + period) now then delete o.key rm else rm)

unfoldable pub retention : ℕ → ℕ → RetentionMap → RetentionMap
unfolding purge
retention period now rm = purge period now rm rm

-- What the handlers and the ticker do, in the order in which they get the lock.
pub data Call : Type 0 where
  issues : ℕ → Str → Str → Call
  verifies : Str → Call
  ticks : ℕ → ℕ → Call

unfoldable pub step : RetentionMap → Call → RetentionMap
step rm (issues now key worker_id) = new_otp rm now key worker_id
step rm (verifies key) = (verify_otp rm key).0
step rm (ticks period now) = retention period now rm

-- How often a key is issued, and how often it lets a worker in.
unfoldable pub issued : Str → List Call → ℕ
issued k [] = 0
issued k (issues now key worker_id ∷ cs) = if str_eq key k then suc (issued k cs) else issued k cs
issued k (_ ∷ cs) = issued k cs

abbrev pub lets_in : RetentionMap → Str → Str → ℕ
lets_in rm k key = if str_eq key k then (if is_some (verify_otp rm key).1 then 1 else 0) else 0

unfoldable pub accepted : Str → RetentionMap → List Call → ℕ
accepted k rm [] = 0
accepted k rm (verifies key ∷ cs) = lets_in rm k key + accepted k (step rm (verifies key)) cs
accepted k rm (c ∷ cs) = accepted k (step rm c) cs

abbrev held : RetentionMap → Str → ℕ
held rm k = if is_some (lookup k rm) then 1 else 0

purge-held :
    (period now : ℕ) (entries rm : Dict Otp) (k : Str)
    → held (purge period now entries rm) k ≤ held rm k
unfolding purge
purge-held period now [] rm k = omega arith
purge-held period now ((j, o) ∷ entries) rm k = ground (
  arith,
  purge-held period now entries (delete o.key rm) k,
  purge-held period now entries rm k,
  lookup-delete o.key k rm,
)

verify-held :
    (rm : RetentionMap) (key k : Str) → lets_in rm k key + held (verify_otp rm key).0 k ≤ held rm k
unfolding verify_otp
verify-held rm key k = elim (Option-cases (lookup key rm)) [
  | inl e ↦ ground (arith, e, str_eq_iff key k)
  | inr (o, e) ↦ ground (arith, e, str_eq_iff key k, lookup-delete key k rm)
]

accepted_from :
    (k : Str) (rm : RetentionMap) (cs : List Call) → accepted k rm cs ≤ held rm k + issued k cs
unfolding accepted issued step new_otp retention
accepted_from k rm [] = omega arith
accepted_from k rm (issues now key worker_id ∷ cs) = ground (
  arith,
  accepted_from k (new_otp rm now key worker_id) cs,
  lookup-insert key k (record { key = key; created = now; worker_id = worker_id }) rm,
)
accepted_from k rm (verifies key ∷ cs) =
    omega (arith, accepted_from k (verify_otp rm key).0 cs, verify-held rm key k)
accepted_from k rm (ticks period now ∷ cs) =
    omega (arith, accepted_from k (retention period now rm) cs, purge-held period now rm rm k)

-- Whatever passwords are issued, tried and purged, in whatever order, a password lets a worker in at
-- most as often as it was issued: once, as uuid.NewString does not repeat itself.
pub accepted-issued : (k : Str) (cs : List Call) → accepted k [] cs ≤ issued k cs
unfolding lookup
accepted-issued k cs = ground (arith, accepted_from k [] cs)

-- A password that was just issued lets in the worker that it was issued for, and leaves what any
-- other password would have been answered; the same password is refused afterwards.
pub verify_otp-new_otp :
    (rm : RetentionMap) (now : ℕ) (key worker_id j : Str)
    → let rm' = verify_otp (new_otp rm now key worker_id) key in
      (rm'.1 ≡ some worker_id)
      × ((verify_otp rm'.0 j).1 ≡ (if str_eq key j then none else (verify_otp rm j).1))
unfolding verify_otp new_otp
verify_otp-new_otp rm now key worker_id j =
    let o : Otp = record { key = key; created = now; worker_id = worker_id } in
    ground (
      arith,
      lookup-insert key key o rm,
      lookup-insert key j o rm,
      lookup-delete key j (insert key o rm),
      str_eq_refl key,
    )
