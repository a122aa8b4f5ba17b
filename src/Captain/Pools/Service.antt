-- ===== src/Captain/Pools/Service.antt =====
-- captain/internal/server/service/pool_service.go: the operations that change pools. `S` is a state
-- of the database; a transaction that is not committed leaves it as it was.
use subnetwork_system_torchl.Prelude.{
  ℕ, Bool, List, [], ◌∷◌, Option, none, some, if◌then◌else◌, ℤ, ◌==◌,
}
use subnetwork_system_torchl.Text.{Str, codes}
use subnetwork_system_torchl.Manager.Models.{Uuid}
use subnetwork_system_torchl.Captain.Replies.{
  Answer, rows, no_rows, broken, Ret, done, failed, crashed, pool_change, Noted, ok_200,
  created_201, bad_request_400, not_found_404, internal_500,
}
use subnetwork_system_torchl.Captain.Pools.Defs.{PoolRow}

-- The pointers of a decoded body; none is nil.
pub record WeightRequest : Type 0 where
  pub upstream_tag : Option Str
  pub weight : Option ℤ

pub record CreatePoolRequest : Type 0 where
  pub tag : Option Str
  pub region_id : Option Uuid
  pub subdomain : Option Str
  pub port : Option ℤ
  pub upstreams : Option (List WeightRequest)

pub record InsetPoolParams : Type 0 where
  pub tag : Str
  pub region_id : Uuid
  pub subdomain : Str
  pub port : ℤ

-- A pool as the database returns it, without its time stamps.
pub record Pool : Type 0 where
  pub id : Uuid
  pub tag : Str
  pub region_id : Uuid
  pub subdomain : Str
  pub port : ℤ

pub record UpstreamWeight : Type 0 where
  pub upstream_tag : Str
  pub weight : ℤ

pub record CreatePoolResponse : Type 0 where
  pub pool : Pool
  pub upstreams : List UpstreamWeight

-- The queries inside a transaction. `insert_weights` returns the weights of the inserted rows.
pub record PoolQueries (S : Type 0) : Type 0 where
  pub begins : Bool
  pub inset_pool : S → InsetPoolParams → Answer (Pool × S)
  pub insert_weights : S → Uuid → List ℤ → List Str → Answer (List ℤ × S)
  pub commits : Bool

-- *upstreams.Weight and *upstreams.UpstreamTag of every entry; none is a nil pointer.
unfoldable pub weight_in :
    Option ℤ → Option Str → Option (List ℤ × List Str) → Option (List ℤ × List Str)
weight_in (some weight) (some tag) (some (weights, tags)) = some (weight ∷ weights, tag ∷ tags)
weight_in _ _ _ = none

unfoldable pub weights_of : List WeightRequest → Option (List ℤ × List Str)
unfolding weight_in
weights_of [] = some ([], [])
weights_of (u ∷ us) = weight_in u.weight u.upstream_tag (weights_of us)

weight_with : ℤ → Str → Option (List UpstreamWeight) → Option (List UpstreamWeight)
weight_with weight tag none = none
weight_with weight tag (some us) = some (record { upstream_tag = tag; weight = weight } ∷ us)

-- The response's loop over the inserted weights, with upstreamTags[i]; none is out of range.
unfoldable pub pair_tags : List ℤ → List Str → Option (List UpstreamWeight)
unfolding weight_with
pair_tags [] tags = some []
pair_tags (weight ∷ weights) [] = none
pair_tags (weight ∷ weights) (tag ∷ tags) = weight_with weight tag (pair_tags weights tags)

unfoldable pub inset : Option Str → Option Uuid → Option Str → Option ℤ → Option InsetPoolParams
inset (some tag) (some region_id) (some subdomain) (some port) =
    some (record { tag = tag; region_id = region_id; subdomain = subdomain; port = port })
inset _ _ _ _ = none

-- The four pointers that the first insertion dereferences.
unfoldable pub params_of : CreatePoolRequest → Option InsetPoolParams
unfolding inset
params_of req = inset req.tag req.region_id req.subdomain req.port

module _ {S : Type 0} (q : PoolQueries S) where
  unfoldable pub answer_pool : Pool → Option (List UpstreamWeight) → Ret CreatePoolResponse
  answer_pool pool none = crashed
  answer_pool pool (some us) =
      done (record { pool = pool; upstreams = us }) created_201 (codes "pool created")

  unfoldable pub weights_inserted :
      S → Pool → List Str → Answer (List ℤ × S) → Ret CreatePoolResponse × S
  unfolding answer_pool
  weights_inserted s pool tags (rows (weights, s')) =
      if q.commits
      then (answer_pool pool (pair_tags weights tags), s')
      else (failed internal_500 (codes "failed to create pool"), s)
  weights_inserted s pool tags _ = (failed bad_request_400 (codes "server error"), s)

  unfoldable pub insert_weights_of :
      S → Pool → S → Option (List ℤ × List Str) → Ret CreatePoolResponse × S
  unfolding weights_inserted
  insert_weights_of s pool s' none = (crashed, s)
  insert_weights_of s pool s' (some (weights, tags)) =
      weights_inserted s pool tags (q.insert_weights s' pool.id weights tags)

  unfoldable pub pool_inserted :
      S → Option (List WeightRequest) → Answer (Pool × S) → Ret CreatePoolResponse × S
  unfolding insert_weights_of
  pool_inserted s (some upstreams) (rows (pool, s')) =
      insert_weights_of s pool s' (weights_of upstreams)
  pool_inserted s none (rows (pool, s')) = (crashed, s)
  pool_inserted s upstreams _ = (failed bad_request_400 (codes "server error"), s)

  unfoldable pub in_transaction :
      S → CreatePoolRequest → Option InsetPoolParams → Ret CreatePoolResponse × S
  unfolding pool_inserted
  in_transaction s req none = (crashed, s)
  in_transaction s req (some params) = pool_inserted s req.upstreams (q.inset_pool s params)

  -- CreatePool: its results, and the state of the database behind it.
  unfoldable pub create_pool : S → CreatePoolRequest → Ret CreatePoolResponse × S
  unfolding in_transaction
  create_pool s req =
      if q.begins
      then in_transaction s req (params_of req)
      else (failed internal_500 (codes "failed to create user"), s)

pub record UpdatePoolRequest : Type 0 where
  pub region_id : Option Uuid
  pub subdomain : Option Str
  pub port : Option ℤ

pub record UpdatePoolParams : Type 0 where
  pub tag : Str
  pub region_id : Option Uuid
  pub subdomain : Option Str
  pub port : Option ℤ

updated_pool : Answer Pool → Noted Pool
updated_pool (rows pool) = (done pool ok_200 (codes "pool updated"), pool_change pool.id ∷ [])
updated_pool no_rows = (failed not_found_404 (codes "Pool not found"), [])
updated_pool broken = (failed internal_500 (codes "Failed to update pool"), [])

unfoldable pub update_pool : (UpdatePoolParams → Answer Pool) → Str → UpdatePoolRequest → Noted Pool
unfolding updated_pool
update_pool query tag req = updated_pool (
    query
      (record { tag = tag; region_id = req.region_id; subdomain = req.subdomain; port = req.port }))

-- pool[0].PoolID, in a note to the workers.
unfoldable pub notify_first : ℕ → Str → List PoolRow → Noted (Unit {0})
notify_first code message [] = (crashed, [])
notify_first code message (r ∷ rs) = (done tt code message, pool_change r.pool_id ∷ [])

-- `pool, err := GetPoolByTagWithUpstreams`, whose error is not looked at.
unfoldable pub notify_pool : ℕ → Str → Answer (List PoolRow) → Noted (Unit {0})
unfolding notify_first
notify_pool code message (rows rs) = notify_first code message rs
notify_pool code message _ = notify_first code message []

pool_deleted : Bool → List PoolRow → Answer ℕ → Noted (Unit {0})
unfolding notify_first
pool_deleted connected pool (rows affected) =
    if affected == 0
    then (done tt not_found_404 (codes "Nothing deleted"), [])
    else if connected
    then notify_first ok_200 (codes "deleted") pool
    else (done tt ok_200 (codes "deleted"), [])
pool_deleted connected pool _ = (failed internal_500 (codes "Failed to delete pool"), [])

-- DeletePool: the pool's rows are read first. `connected` tells whether wsManager is not nil.
unfoldable pub delete_pool : Bool → Answer (List PoolRow) → Answer ℕ → Noted (Unit {0})
unfolding pool_deleted
delete_pool connected (rows pool) affected = pool_deleted connected pool affected
delete_pool connected _ affected = (failed internal_500 (codes "Failed to delete pool"), [])

-- AddPoolUpstreamWeight
unfoldable pub add_pool_upstream_weight :
    Answer (Unit {0}) → Answer (List PoolRow) → Noted (Unit {0})
unfolding notify_pool
add_pool_upstream_weight (rows _) pool = notify_pool created_201 (codes "added") pool
add_pool_upstream_weight _ pool = (failed internal_500 (codes "Failed to add upstream weight"), [])

-- DeletePoolUpstreamWeight
unfoldable pub delete_pool_upstream_weight : Answer ℕ → Answer (List PoolRow) → Noted (Unit {0})
unfolding notify_pool
delete_pool_upstream_weight (rows affected) pool =
    if affected == 0
    then (done tt not_found_404 (codes "Nothing deleted"), [])
    else notify_pool ok_200 (codes "deleted") pool
delete_pool_upstream_weight _ pool =
    (failed internal_500 (codes "Failed to delete upstream weight"), [])
