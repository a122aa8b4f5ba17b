-- ===== src/Captain/Pools/Handlers.antt =====
-- captain/internal/server/handlers/pool_handler.go: the handlers of pools and weights. A body is what
-- the JSON decoder made of it; none is its error.
use subnetwork_system_torchl.Prelude.{
  ℕ, String, Bool, true, false, ◌||◌, List, [], ◌∷◌, Option, none, some, if◌then◌else◌, ℤ, pos,
  leb_ℤ, ◌&&◌,
}
use subnetwork_system_torchl.Text.{Str, codes, str_eq}
use subnetwork_system_torchl.Captain.Replies.{
  Answer, Response, error, Note, ok_200, created_201, bad_request_400, respond, respond_message,
}
use subnetwork_system_torchl.Captain.Pools.Defs.{
  PoolRow, PoolResponse, text_of, int_of, get_pools, get_pool_by_tag,
}
use subnetwork_system_torchl.Captain.Pools.Service.{
  WeightRequest, CreatePoolRequest, CreatePoolResponse, PoolQueries, create_pool, UpdatePoolRequest,
  UpdatePoolParams, Pool, update_pool, delete_pool, add_pool_upstream_weight,
  delete_pool_upstream_weight,
}

-- p == nil || *p == ""
abbrev pub lacks : Option Str → Bool
lacks none = true
lacks (some s) = str_eq s []

abbrev pub is_none {ℓ} : {A : Type ℓ} → Option A → Bool
is_none none = true
is_none (some a) = false

abbrev pub bad : {A : Type 0} → String → Response A
bad message = error bad_request_400 (codes message)

-- What createPool answers to a body before it calls the service; none is to go on.
unfoldable pub create_pool_check : CreatePoolRequest → Option Str
create_pool_check req =
    if lacks req.tag
    then some (codes "tag is required")
    else if is_none req.region_id
    then some (codes "region id is required")
    else if lacks req.subdomain
    then some (codes "subdomain is required")
    else if is_none req.port
    then some (codes "port is required")
    else none

abbrev pub given : Option (List WeightRequest) → List WeightRequest
given none = []
given (some us) = us

-- req.UpStreams = &[]CreateUpstreamWeightRequest{}
unfoldable pub with_upstreams : CreatePoolRequest → CreatePoolRequest
with_upstreams req = record req { upstreams = some (given req.upstreams) }

module _ {S : Type 0} (q : PoolQueries S) where
  unfoldable pub checked : S → CreatePoolRequest → Option Str → Response CreatePoolResponse × S
  unfolding with_upstreams
  checked s req (some message) = (error bad_request_400 message, s)
  checked s req none =
      let (r, s') = create_pool q s (with_upstreams req) in (respond created_201 r, s')

  unfoldable pub create_pool_handler :
      S → Option CreatePoolRequest → Response CreatePoolResponse × S
  unfolding checked create_pool_check
  create_pool_handler s none = (bad "err in request body", s)
  create_pool_handler s (some req) = checked s req (create_pool_check req)

unfoldable pub get_pools_handler : Answer (List PoolRow) → Response (Option (List PoolResponse))
get_pools_handler answer = respond ok_200 (get_pools answer)

unfoldable pub get_pool_by_tag_handler :
    Str → (Str → Answer (List PoolRow)) → Response (Option PoolResponse)
get_pool_by_tag_handler [] query = bad "Tag is required"
get_pool_by_tag_handler (c ∷ tag) query = respond ok_200 (get_pool_by_tag (query (c ∷ tag)))

unfoldable pub update_pool_handler :
    (UpdatePoolParams → Answer Pool) → Str → Option UpdatePoolRequest → Response Pool × List Note
update_pool_handler query [] body = (bad "Pool Tag is required", [])
update_pool_handler query (c ∷ tag) none = (bad "Invalid request body", [])
update_pool_handler query (c ∷ tag) (some req) =
    let (r, notes) = update_pool query (c ∷ tag) req in (respond ok_200 r, notes)

unfoldable pub delete_pool_handler :
    Bool → Str → (Str → Answer (List PoolRow)) → (Str → Answer ℕ) → Response Str × List Note
delete_pool_handler connected [] query delete = (bad "Tag is required", [])
delete_pool_handler connected (c ∷ tag) query delete =
    let (r, notes) = delete_pool connected (query (c ∷ tag)) (delete (c ∷ tag)) in
    (respond_message ok_200 r, notes)

pub record PoolWeightRequest : Type 0 where
  pub pool_tag : Option Str
  pub upstream_tag : Option Str
  pub weight : Option ℤ

pub record DeleteWeightRequest : Type 0 where
  pub pool_tag : Option Str
  pub upstream_tag : Option Str

abbrev pub lacks_weight : Option ℤ → Bool
lacks_weight none = true
lacks_weight (some w) = leb_ℤ w (pos 0) && leb_ℤ (pos 0) w

unfoldable pub add_weight_handler :
    (Str → Str → ℤ → Answer (Unit {0}))
    → (Str → Answer (List PoolRow))
    → Option PoolWeightRequest
    → Response Str × List Note
add_weight_handler insert query none = (bad "Invalid request body", [])
add_weight_handler insert query (some req) =
    if lacks req.pool_tag || (lacks req.upstream_tag || lacks_weight req.weight)
    then (bad "Pool Tag, Upstream Tag and Weight are required", [])
    else (let (r, notes) =
          add_pool_upstream_weight
            (insert (text_of req.pool_tag) (text_of req.upstream_tag) (int_of req.weight))
            (query (text_of req.pool_tag)) in
        (respond_message created_201 r, notes))

unfoldable pub delete_weight_handler :
    (Str → Str → Answer ℕ)
    → (Str → Answer (List PoolRow))
    → Option DeleteWeightRequest
    → Response Str × List Note
delete_weight_handler delete query none = (bad "Invalid request body", [])
delete_weight_handler delete query (some req) =
    if lacks req.pool_tag || lacks req.upstream_tag
    then (bad "Pool Tag and Upstream Tag are required", [])
    else (let (r, notes) =
          delete_pool_upstream_weight (delete (text_of req.pool_tag) (text_of req.upstream_tag))
            (query (text_of req.pool_tag)) in
        (respond_message ok_200 r, notes))
