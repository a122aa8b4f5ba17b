-- ===== src/Captain/Pools/Deleting.antt =====
-- What the handlers that delete answer, and what they tell the workers.
use subnetwork_system_torchl.Prelude.{ℕ, ◌≡◌, true, List, [], ◌∷◌, if◌then◌else◌, ◌==◌, arith}
use subnetwork_system_torchl.Text.{Str, codes}
use subnetwork_system_torchl.Captain.Replies.{Answer, rows, json, pool_change, respond_message}
use subnetwork_system_torchl.Captain.Pools.Defs.{PoolRow}
use subnetwork_system_torchl.Captain.Pools.Service.{notify_first, delete_pool}
use subnetwork_system_torchl.Captain.Pools.Handlers.{delete_pool_handler}

-- A request to delete a pool that is well formed and reaches the database is answered 200 whether a
-- row was deleted or not, although the service has asked for 404 if none was. The workers of the pool
-- are told exactly if one was.
pub delete_pool_handler_lem :
    (c : ℕ) (tag : Str) (query : Str → Answer (List PoolRow)) (delete : Str → Answer ℕ)
    (row : PoolRow) (rest : List PoolRow) (affected : ℕ)
    → query (c ∷ tag) ≡ rows (row ∷ rest)
    → delete (c ∷ tag) ≡ rows affected
    → delete_pool_handler true (c ∷ tag) query delete ≡ (
      json 200 (if affected == 0 then codes "Nothing deleted" else codes "deleted"),
      if affected == 0 then [] else pool_change row.pool_id ∷ [],
    )
unfolding delete_pool_handler delete_pool notify_first respond_message
delete_pool_handler_lem c tag query delete row rest affected e f = rw (e, f) (ground arith)
