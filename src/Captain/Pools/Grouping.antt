-- ===== src/Captain/Pools/Grouping.antt =====
-- What GetPools makes of the rows of a join, compared with GetPoolByTag.
use subnetwork_system_torchl.Prelude.{
  ℕ, ◌+◌, ◌==◌, ◌≡◌, refl, Bool, true, false, List, [], ◌∷◌, Option, none, some, if◌then◌else◌,
  arith, ap, ◌∙◌, sym, Bool-cases, inl, inr,
}
use subnetwork_system_torchl.Text.{str_eq, str_eq_iff}
use subnetwork_system_torchl.Manager.Models.{Uuid}
use subnetwork_system_torchl.Captain.Pools.Defs.{
  PoolRow, PoolResponse, new_response, add_upstream, add_row, group, collect,
}

-- The pool of a response with some identity.
unfoldable pub find_pool : Uuid → List PoolResponse → Option PoolResponse
find_pool k [] = none
find_pool k (p ∷ ps) = if str_eq p.id k then some p else find_pool k ps

-- The rows of one pool, in their order.
unfoldable pub rows_of : Uuid → List PoolRow → List PoolRow
rows_of k [] = []
rows_of k (r ∷ rs) = if str_eq r.pool_id k then r ∷ rows_of k rs else rows_of k rs

abbrev grown : PoolRow → Option PoolResponse → Option PoolResponse
grown r none = some (add_upstream r (new_response r))
grown r (some p) = some (add_upstream r p)

find_pool-add_row :
    (k : Uuid) (r : PoolRow) (ps : List PoolResponse)
    → find_pool k (add_row r ps)
      ≡ (if str_eq r.pool_id k then grown r (find_pool k ps) else find_pool k ps)
unfolding find_pool add_row add_upstream new_response
find_pool-add_row k r [] = ground arith
find_pool-add_row k r (p ∷ ps) = ground (
  arith,
  str_eq_iff p.id k,
  str_eq_iff p.id r.pool_id,
  str_eq_iff r.pool_id k,
  find_pool-add_row k r ps,
)

collect-grown :
    (r : PoolRow) (p : Option PoolResponse) (rs : List PoolRow)
    → collect p (r ∷ rs) ≡ collect (grown r p) rs
unfolding collect
collect-grown r none rs = refl
collect-grown r (some p) rs = refl

abbrev pub is_nil : {A : Type 0} → List A → Bool
is_nil [] = true
is_nil (a ∷ l) = false

find_pool-group :
    (k : Uuid) (ps : List PoolResponse) (rs : List PoolRow)
    → find_pool k (group ps rs) ≡ collect (find_pool k ps) (rows_of k rs)
unfolding group rows_of
find_pool-group k ps [] = unfold collect in refl
find_pool-group k ps (r ∷ rs) =
    let ih = find_pool-group k (add_row r ps) rs in
    let step = find_pool-add_row k r ps in
    elim (Bool-cases (str_eq r.pool_id k)) [
      | inl e ↦
          let grew : find_pool k (add_row r ps) ≡ grown r (find_pool k ps) =
            ground (arith, e, step) in
          rw e (
            ih
            ∙ (ap (λ p. collect p (rows_of k rs)) grew
                ∙ sym (collect-grown r (find_pool k ps) (rows_of k rs))))
      | inr e ↦
          let kept : find_pool k (add_row r ps) ≡ find_pool k ps = ground (arith, e, step) in
          rw e (ih ∙ ap (λ p. collect p (rows_of k rs)) kept)
    ]

-- How often a pool stands in a response.
unfoldable pub occurrences : Uuid → List PoolResponse → ℕ
occurrences k [] = 0
occurrences k (p ∷ ps) = if str_eq p.id k then occurrences k ps + 1 else occurrences k ps

abbrev once : ℕ → ℕ
once n = if n == 0 then 1 else n

occurrences-add_row :
    (k : Uuid) (r : PoolRow) (ps : List PoolResponse)
    → occurrences k (add_row r ps)
      ≡ (if str_eq r.pool_id k then once (occurrences k ps) else occurrences k ps)
unfolding occurrences add_row add_upstream new_response
occurrences-add_row k r [] = ground arith
occurrences-add_row k r (p ∷ ps) = ground (
  arith,
  str_eq_iff p.id k,
  str_eq_iff p.id r.pool_id,
  str_eq_iff r.pool_id k,
  occurrences-add_row k r ps,
)

occurrences-group :
    (k : Uuid) (ps : List PoolResponse) (rs : List PoolRow)
    → occurrences k (group ps rs)
      ≡ (if is_nil (rows_of k rs) then occurrences k ps else once (occurrences k ps))
unfolding group rows_of
occurrences-group k ps [] = refl
occurrences-group k ps (r ∷ rs) =
    ground (arith, occurrences-group k (add_row r ps) rs, occurrences-add_row k r ps)

-- Whatever rows the join gives, in whatever order, GetPools returns every pool that has a row exactly
-- once, and as GetPoolByTag would return it from the rows of that pool alone; and no other pool.
pub group_lem :
    (k : Uuid) (rs : List PoolRow)
    → (find_pool k (group [] rs) ≡ collect none (rows_of k rs))
      × (occurrences k (group [] rs) ≡ (if is_nil (rows_of k rs) then 0 else 1))
unfolding find_pool occurrences
group_lem k rs = (find_pool-group k [] rs, occurrences-group k [] rs)
