-- ===== src/Captain/Pools/Creating.antt =====
-- What a request to create a pool does to the database.
use subnetwork_system_torchl.Prelude.{
  ◌≤◌, ◌≡◌, refl, Bool, true, false, inl, inr, map, take, ap, List, [], ◌∷◌, Option, none, some,
  if◌then◌else◌, ℤ, length, arith, Bool-cases,
}
use subnetwork_system_torchl.Text.{Str}
use subnetwork_system_torchl.Manager.Models.{Uuid}
use subnetwork_system_torchl.Captain.Replies.{
  Answer, rows, no_rows, broken, Ret, done, failed, crashed, Response, json, error, aborted,
  respond,
}
use subnetwork_system_torchl.Captain.Pools.Service.{
  weight_in, inset, WeightRequest, CreatePoolRequest, InsetPoolParams, Pool, UpstreamWeight,
  CreatePoolResponse, PoolQueries, weights_of, pair_tags, params_of, answer_pool, weights_inserted,
  insert_weights_of, pool_inserted, in_transaction, create_pool,
}
use subnetwork_system_torchl.Captain.Pools.Handlers.{
  create_pool_check, given, with_upstreams, checked, create_pool_handler,
}

-- What a list of upstreams names: the weights, and the first of the tags.
abbrev pub AreNamed : List UpstreamWeight → List ℤ → List Str → Type 0
AreNamed us weights tags =
    (map (λ (u : UpstreamWeight). u.weight) us ≡ weights)
    × (map (λ (u : UpstreamWeight). u.upstream_tag) us ≡ take (length weights) tags)

pair_tags-total :
    (weights : List ℤ) (tags : List Str)
    → length weights ≤ length tags
    → (us : List UpstreamWeight) × (pair_tags weights tags ≡ some us) × AreNamed us weights tags
unfolding pair_tags
pair_tags-total [] tags h = ([], refl, (refl, refl))
pair_tags-total (w ∷ weights) [] h = absurd (omega arith)
pair_tags-total (w ∷ weights) (t ∷ tags) h =
    let (us, e, (named, first)) = pair_tags-total weights tags (omega arith) in
    (record { upstream_tag = t; weight = w } ∷ us, rw e refl, (ap (◌∷◌ w) named, ap (◌∷◌ t) first))

-- The weights and the tags are those of the entries of the body, in its order.
abbrev pub AreAsked : List WeightRequest → List ℤ → List Str → Type 0
AreAsked [] [] [] = Unit
AreAsked (u ∷ us) (w ∷ weights) (t ∷ tags) =
    (u.weight ≡ some w) × (u.upstream_tag ≡ some t) × AreAsked us weights tags
AreAsked _ _ _ = ⊥

abbrev AskedBy : List WeightRequest → Option (List ℤ × List Str) → Type 0
AskedBy us none = Unit
AskedBy us (some (weights, tags)) = AreAsked us weights tags

weight_in-AskedBy :
    (u : WeightRequest) (us : List WeightRequest) (weight : Option ℤ) (tag : Option Str)
    (rest : Option (List ℤ × List Str))
    → u.weight ≡ weight
    → u.upstream_tag ≡ tag
    → AskedBy us rest
    → AskedBy (u ∷ us) (weight_in weight tag rest)
unfolding weight_in
weight_in-AskedBy u us none tag rest e f h = tt
weight_in-AskedBy u us (some w) none rest e f h = tt
weight_in-AskedBy u us (some w) (some t) none e f h = tt
weight_in-AskedBy u us (some w) (some t) (some (weights, tags)) e f h = (e, f, h)

weights_of-AskedBy : (us : List WeightRequest) → AskedBy us (weights_of us)
unfolding weights_of
weights_of-AskedBy [] = tt
weights_of-AskedBy (u ∷ us) =
    weight_in-AskedBy u us u.weight u.upstream_tag (weights_of us) refl refl (weights_of-AskedBy us)

-- What is inserted as the pool is what the body says of it.
pub record AreParams (req : CreatePoolRequest) (params : InsetPoolParams) : Type 0 where
  pub tag : req.tag ≡ some params.tag
  pub region_id : req.region_id ≡ some params.region_id
  pub subdomain : req.subdomain ≡ some params.subdomain
  pub port : req.port ≡ some params.port

abbrev ParamsBy : CreatePoolRequest → Option InsetPoolParams → Type 0
ParamsBy req none = Unit
ParamsBy req (some params) = AreParams req params

inset-ParamsBy :
    (req : CreatePoolRequest) (tag : Option Str) (region : Option Uuid) (subdomain : Option Str)
    (port : Option ℤ)
    → req.tag ≡ tag
    → req.region_id ≡ region
    → req.subdomain ≡ subdomain
    → req.port ≡ port
    → ParamsBy req (inset tag region subdomain port)
unfolding inset
inset-ParamsBy req none r d p e f g h = tt
inset-ParamsBy req (some t) none d p e f g h = tt
inset-ParamsBy req (some t) (some r) none p e f g h = tt
inset-ParamsBy req (some t) (some r) (some d) none e f g h = tt
inset-ParamsBy req (some t) (some r) (some d) (some p) e f g h = record {
  tag = e;
  region_id = f;
  subdomain = g;
  port = h;
}

module _ {S : Type 0} (q : PoolQueries S) (s : S) where
  -- The pool and the weights of the body were inserted into `s`, which gave `s'`, and the response
  -- is the row of the pool with one entry for each row of a weight.
  pub record IsInserted (req : CreatePoolRequest) (r : CreatePoolResponse) (s' : S) : Type 0 where
    pub params : InsetPoolParams
    pub between : S
    pub weights : List ℤ
    pub tags : List Str
    pub inserted : List ℤ
    pub pool_row : q.inset_pool s params ≡ rows (r.pool, between)
    pub weight_rows : q.insert_weights between r.pool.id weights tags ≡ rows (inserted, s')
    pub as_pool : AreParams req params
    pub as_weights : AreAsked (given req.upstreams) weights tags
    pub named : AreNamed r.upstreams inserted tags

  module _ (req : CreatePoolRequest) where
    abbrev Kept : Ret CreatePoolResponse → S → Type 0
    Kept (done r code message) s' = (code ≡ 201) × IsInserted req r s'
    Kept (failed code message) s' = s' ≡ s
    Kept crashed s' = s' ≡ s

    choose-Kept :
        (b : Bool) (x y : Ret CreatePoolResponse × S)
        → Kept x.0 x.1
        → Kept y.0 y.1
        → let (r, s') = if b then x else y in Kept r s'
    choose-Kept true x y h k = h
    choose-Kept false x y h k = k

    module _
        (few : (t t' : S) (id : Uuid) (weights inserted : List ℤ) (tags : List Str)
          → q.insert_weights t id weights tags ≡ rows (inserted, t')
          → length inserted ≤ length tags) where
      module _ (params : InsetPoolParams) (as_pool : AreParams req params) where
        weights_inserted-Kept :
            (pool : Pool) (t : S) (weights : List ℤ) (tags : List Str)
            (answer : Answer (List ℤ × S))
            → AreAsked (given req.upstreams) weights tags
            → q.inset_pool s params ≡ rows (pool, t)
            → q.insert_weights t pool.id weights tags ≡ answer
            → let (r, s') = weights_inserted q s pool tags answer in Kept r s'
        unfolding weights_inserted answer_pool
        weights_inserted-Kept pool t weights tags (rows (inserted, s')) asked e f =
            elim (Bool-cases q.commits) [
              | inl c ↦
                  let (us, paired, named) =
                    pair_tags-total inserted tags (few t s' pool.id weights inserted tags f) in
                  rw (c, paired)
                    (
                      refl,
                      record {
                        params = params;
                        between = t;
                        weights = weights;
                        tags = tags;
                        inserted = inserted;
                        pool_row = e;
                        weight_rows = f;
                        as_pool = as_pool;
                        as_weights = asked;
                        named = named;
                      },
                    )
              | inr c ↦ rw c refl
            ]
        weights_inserted-Kept pool t weights tags no_rows asked e f = refl
        weights_inserted-Kept pool t weights tags broken asked e f = refl

        weights_of-Kept :
            (pool : Pool) (t : S) (weights : Option (List ℤ × List Str))
            → AskedBy (given req.upstreams) weights
            → q.inset_pool s params ≡ rows (pool, t)
            → let (r, s') = insert_weights_of q s pool t weights in Kept r s'
        unfolding insert_weights_of
        weights_of-Kept pool t none asked e = refl
        weights_of-Kept pool t (some (weights, tags)) asked e =
            weights_inserted-Kept pool t weights tags (q.insert_weights t pool.id weights tags)
              asked e refl

        pool_inserted-Kept :
            (answer : Answer (Pool × S))
            → q.inset_pool s params ≡ answer
            → let (r, s') = pool_inserted q s (some (given req.upstreams)) answer in Kept r s'
        unfolding pool_inserted
        pool_inserted-Kept (rows (pool, t)) e =
            weights_of-Kept pool t (weights_of (given req.upstreams))
              (weights_of-AskedBy (given req.upstreams)) e
        pool_inserted-Kept no_rows e = refl
        pool_inserted-Kept broken e = refl

      transaction-Kept :
          (params : Option InsetPoolParams)
          → ParamsBy req params
          → let (r, s') = in_transaction q s (with_upstreams req) params in Kept r s'
      unfolding in_transaction with_upstreams
      transaction-Kept none by_body = refl
      transaction-Kept (some params) by_body =
          pool_inserted-Kept params by_body (q.inset_pool s params) refl

      create_pool-Kept : let (r, s') = create_pool q s (with_upstreams req) in Kept r s'
      unfolding create_pool params_of with_upstreams
      create_pool-Kept =
          let by_body =
            inset-ParamsBy req req.tag req.region_id req.subdomain req.port refl refl refl refl in
          choose-Kept q.begins _ _ (transaction-Kept _ by_body) refl

  -- What a response says of the database behind it.
  abbrev pub Told : Option CreatePoolRequest → Response CreatePoolResponse → S → Type 0
  Told none (json status r) s' = ⊥
  Told (some req) (json status r) s' = (status ≡ 201) × IsInserted req r s'
  Told body (error status message) s' = s' ≡ s
  Told body aborted s' = s' ≡ s

  respond-Told :
      (req : CreatePoolRequest) (r : Ret CreatePoolResponse) (s' : S)
      → Kept req r s'
      → Told (some req) (respond 201 r) s'
  unfolding respond
  respond-Told req (done r code message) s' (e, inserted) = (refl, inserted)
  respond-Told req (failed code message) s' k = k
  respond-Told req crashed s' k = k

  -- As long as the insertion of weights gives back no more rows than it was given tags, whatever body
  -- arrives and wherever the transaction fails: createPool answers 201 only when it has inserted and
  -- committed the pool as the body says and the weights and tags of the body's upstreams in their
  -- order, and then with the row of the pool, the weights of the inserted rows, and as many of the
  -- first tags of the body; any other answer, and a panic too, leaves the database as it was.
  pub create_pool_handler-Told :
      (few : (t t' : S) (id : Uuid) (weights inserted : List ℤ) (tags : List Str)
        → q.insert_weights t id weights tags ≡ rows (inserted, t')
        → length inserted ≤ length tags)
      (body : Option CreatePoolRequest)
      → let (r, s') = create_pool_handler q s body in Told body r s'
  unfolding create_pool_handler checked
  create_pool_handler-Told few none = refl
  create_pool_handler-Told few (some req) = go (create_pool_check req)
    where
      go : (check : Option Str) → let (r, s') = checked q s req check in Told (some req) r s'
      go (some message) = refl
      go none = respond-Told req _ _ (create_pool-Kept req few)
