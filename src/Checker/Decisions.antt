-- ===== src/Checker/Decisions.antt =====
-- What the counts of an address decide.
use subnetwork_system_torchl.Prelude.{
  ◌≤◌, ◌≡◌, refl, Bool, true, false, Option, none, some, if◌then◌else◌, arith, length, Bool-cases,
  inl, inr, is_some, ap,
}
use subnetwork_system_torchl.Text.{Str, str_eq_iff}
use subnetwork_system_torchl.Cmap
use subnetwork_system_torchl.Cmap.{shard_count}
use subnetwork_system_torchl.Cmap.Laws.{get-store}
use subnetwork_system_torchl.Cmap.Refinement.{set_if_absent-store}
use subnetwork_system_torchl.Checker.Defs.{
  Checker, CheckerItem, domain_is_in_map, host_in, map_of, is_need_check, is_blocked, counted, add,
}

module _ (hostname : Str → Option Str) (c : Checker) where
  -- The background check never gives up on an address that is in no list and has failed at least as
  -- often as it has succeeded, however often that is: its second test repeats the first one's
  -- comparison where it means the reverse.
  pub is_need_check-failing :
      (item : CheckerItem)
      → domain_is_in_map hostname c item.host false ≡ false
      → domain_is_in_map hostname c item.host true ≡ false
      → item.success_count ≤ item.fail_count
      → is_need_check hostname c item ≡ true
  unfolding is_need_check
  is_need_check-failing item d b l = ground (arith, d, b, l)

  counted-absent :
      (item : CheckerItem) (o : Option CheckerItem)
      → item.success_count ≡ 0
      → item.fail_count ≡ 0
      → counted hostname (if is_some o then o else some item) ≡ counted hostname o
  unfolding counted
  counted-absent item none s f = ground (arith, s, f)
  counted-absent item (some i) s f = refl

  counted-set_if_absent :
      (k j : Str) (item : CheckerItem)
      → length c.items ≡ shard_count
      → item.success_count ≡ 0
      → item.fail_count ≡ 0
      → counted hostname (Cmap.get (Cmap.set_if_absent c.items k item).0 j)
        ≡ counted hostname (Cmap.get c.items j)
  counted-set_if_absent k j item r s f = elim (Bool-cases (is_some (Cmap.get c.items k))) [
    | inl e ↦ rw (set_if_absent-store c.items k item, e) refl
    | inr e ↦ ground (
      arith,
      set_if_absent-store c.items k item,
      e,
      str_eq_iff k j,
      get-store c.items k j item r,
      counted-absent item (Cmap.get c.items k) s f,
    )
  ]

  items-same :
      (m : Cmap.ConcurrentMap CheckerItem) (j : Str)
      → counted hostname (Cmap.get m j) ≡ counted hostname (Cmap.get c.items j)
      → is_blocked hostname (record c { items = m }) j ≡ is_blocked hostname c j
  unfolding is_blocked domain_is_in_map map_of
  items-same m j e =
      ap
        (λ x.
          if host_in c.blocked_map (hostname j)
          then (true, 0, 0)
          else if host_in c.direct_map (hostname j)
          then (false, 0, 0)
          else x)
        e

  if-same :
      (b : Bool) (x y : Checker) (j : Str)
      → is_blocked hostname x j ≡ is_blocked hostname c j
      → is_blocked hostname y j ≡ is_blocked hostname c j
      → is_blocked hostname (if b then x else y) j ≡ is_blocked hostname c j
  if-same true x y j h k = h
  if-same false x y j h k = k

  -- Adding an address changes no decision and no count that IsBlocked gives, for that address or any
  -- other: counts of a known address are kept, and a new one is as blocked as it was before.
  pub is_blocked-add :
      (address : Str) (is_https : Bool) (method url body j : Str)
      → length c.items ≡ shard_count
      → is_blocked hostname (add hostname c address is_https method url body) j
        ≡ is_blocked hostname c j
  unfolding add
  is_blocked-add address is_https method url body j r =
      if-same _ c _ j refl
        (if-same _ c _ j refl (items-same _ j (counted-set_if_absent address j _ r refl refl)))
