-- ===== src/Examples/Connections.antt =====
-- Connection pools and the choice of an upstream, run.
use subnetwork_system_torchl.Prelude.{ℕ, ◌≡◌, refl, ◌+◌, true, [], ◌∷◌, map, some, pos, arith}
use mathlib.Core.List.{Perm}
use subnetwork_system_torchl.Text.{codes}
use subnetwork_system_torchl.Connpool.{
  PoolConfig, new_conn_pool, get, fill_loop, init_auto_fill, offer,
}
use subnetwork_system_torchl.Connpool.Ownership.{
  System, Reach, here, IsAccounted, new_system, Reach-IsAccounted, put-inactive, get-inactive,
}
use subnetwork_system_torchl.Connpool.Ownership
use subnetwork_system_torchl.Manager.Models.{Upstream}
use subnetwork_system_torchl.Manager.Upstreams.{UpstreamManager}
use subnetwork_system_torchl.Manager.Upstreams.Rotation.{next_n, next_n-perm}

-- Dials that give connections 0, 1, 2, …
abbrev dialled : PoolConfig
dialled = record { factory = λ i. some i; is_active = λ c. true; initial_cap = 2; max_cap = 3 }

first_two : (new_conn_pool dialled).0.conns ≡ 0 ∷ 1 ∷ []
unfolding new_conn_pool fill_loop init_auto_fill offer
first_two = refl

abbrev lent_one : System
lent_one = record { pool = (get (new_conn_pool dialled).0).0; lent = 0 ∷ [] }

one_step : Reach (new_system dialled) lent_one
unfolding get new_conn_pool fill_loop init_auto_fill offer
one_step = Ownership.next here Ownership.gets

Reach-IsAccounted_example : IsAccounted lent_one
Reach-IsAccounted_example = Reach-IsAccounted dialled lent_one (λ x. refl) one_step

abbrev upstream : ℕ → Upstream
upstream n = record {
  upstream_id = n ∷ [];
  upstream_tag = codes "dc";
  upstream_format = [];
  upstream_username = codes "u";
  upstream_password = codes "p";
  upstream_host = codes "10.0.0.1";
  upstream_port = pos (8000 + n);
  upstream_provider = [];
  weight = pos 1;
}

abbrev three : UpstreamManager
three = record { upstreams = upstream 0 ∷ upstream 1 ∷ upstream 2 ∷ []; index = 4 }

next_n-perm_example : Perm (next_n 3 three) (map some three.upstreams)
next_n-perm_example = next_n-perm three (omega arith) (omega arith)
