-- ===== src/Examples/Maps.antt =====
-- The sharded map, run.
use subnetwork_system_torchl.Prelude.{
  ℕ, ◌≡◌, refl, true, false, List, [], ◌∷◌, none, some, replicate,
}
use subnetwork_system_torchl.Text.{codes, str_eq}
use subnetwork_system_torchl.Dict.{lookup, insert}
use subnetwork_system_torchl.Cmap.{
  ConcurrentMap, new_concurrent_map, store, get, fnv32, shard_index,
}
use subnetwork_system_torchl.Cmap.Laws.{IsSharded, store-IsSharded, new_concurrent_map-IsSharded}
use subnetwork_system_torchl.Cmap.Refinement.{
  Call, sets, sets_if_absent, gets, pops, asks, removes, nothing, found, flag, run, run_spec, spec,
  run-refines,
}
use subnetwork_system_torchl.Cmap.Iter.{FanIn, closed, receive, snapshot, items, items-get}

abbrev script : List (Call ℕ)
script =
    sets (codes "alice") 1
    ∷ sets_if_absent (codes "alice") 2
    ∷ sets_if_absent (codes "bob") 3
    ∷ pops (codes "alice")
    ∷ gets (codes "alice")
    ∷ asks (codes "bob")
    ∷ removes (codes "bob")
    ∷ []

script_run :
    run_spec (λ k. none) script
    ≡ nothing ∷ flag false ∷ flag true ∷ found (some 1) ∷ found none ∷ flag true ∷ nothing ∷ []
unfolding run_spec spec str_eq
script_run = refl

alice_hash : fnv32 (codes "alice") ≡ 839819315
unfolding fnv32
alice_hash = refl

run-refines_example : run new_concurrent_map script ≡ run_spec (λ k. none) script
run-refines_example = run-refines script

abbrev one : ConcurrentMap ℕ
one = store new_concurrent_map (codes "a") 7

one-IsSharded : IsSharded one
one-IsSharded = store-IsSharded new_concurrent_map (codes "a") 7 new_concurrent_map-IsSharded

-- The shard of "a" is shard 30.
one_delivered : FanIn (snapshot one) ((codes "a", 7) ∷ [])
unfolding snapshot store new_concurrent_map fnv32 shard_index insert
one_delivered = receive (replicate 30 []) (replicate 1 []) (codes "a") 7 [] refl (
    closed (
      refl,
      (
        refl,
        (
          refl,
          (
            refl,
            (
              refl,
              (
                refl,
                (
                  refl,
                  (
                    refl,
                    (
                      refl,
                      (
                        refl,
                        (
                          refl,
                          (
                            refl,
                            (
                              refl,
                              (
                                refl,
                                (
                                  refl,
                                  (
                                    refl,
                                    (
                                      refl,
                                      (
                                        refl,
                                        (
                                          refl,
                                          (
                                            refl,
                                            (
                                              refl,
                                              (
                                                refl,
                                                (
                                                  refl,
                                                  (
                                                    refl,
                                                    (
                                                      refl,
                                                      (
                                                        refl,
                                                        (
                                                          refl,
                                                          (
                                                            refl,
                                                            (refl, (refl, (refl, (refl, tt)))),
                                                          ),
                                                        ),
                                                      ),
                                                    ),
                                                  ),
                                                ),
                                              ),
                                            ),
                                          ),
                                        ),
                                      ),
                                    ),
                                  ),
                                ),
                              ),
                            ),
                          ),
                        ),
                      ),
                    ),
                  ),
                ),
              ),
            ),
          ),
        ),
      ),
    ))

items-get_example : lookup (codes "a") (items ((codes "a", 7) ∷ [])) ≡ get one (codes "a")
items-get_example = items-get one ((codes "a", 7) ∷ []) (codes "a") one-IsSharded one_delivered
