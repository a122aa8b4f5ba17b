-- ===== src/Captain/Users/Creating.antt =====
-- What a request to create a user does to the database.
use subnetwork_system_torchl.Prelude.{◌≡◌}
use subnetwork_system_torchl.Captain.Replies.{
  rows, Ret, done, failed, crashed, Response, json, error, aborted,
}
use subnetwork_system_torchl.Captain.Users.Defs.{
  CreateUserRequest, CreateUserResponse, UserQueries, pools_step, whitelist_step,
}

module _ {S : Type 0} (q : UserQueries S) (s : S) (req : CreateUserRequest) where
  -- The user, its pools and its addresses were inserted into `s`, which gave `s'`.
  pub record IsCreated (r : CreateUserResponse) (s' : S) : Type 0 where
    pub with_user : S
    pub with_pools : S
    pub user_row : q.create s ≡ rows (r.user, with_user)
    pub pool_rows :
        pools_step q s r.user with_user req.allow_pools ≡ rows (r.allow_pools, with_pools)
    pub address_rows :
        whitelist_step q s r.user with_pools req.ip_whitelist ≡ rows (r.ip_whitelist, s')

  abbrev Kept : Ret CreateUserResponse × S → Type 0
  Kept (done r code message, s') = (code ≡ 201) × IsCreated r s'
  Kept (failed code message, s') = s' ≡ s
  Kept (crashed, s') = ⊥

  -- What a response says of the database behind it.
  abbrev pub Told : Response CreateUserResponse × S → Type 0
  Told (json status r, s') = (status ≡ 201) × IsCreated r s'
  Told (error status message, s') = s' ≡ s
  Told (aborted, s') = ⊥
