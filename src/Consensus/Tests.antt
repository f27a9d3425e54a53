-- ===== src/Consensus/Tests.antt =====
-- The pool state that a proposer builds on, of three members.
use cash_prototype.Base.{◌≡◌, refl, some, List, [], ◌∷◌}
use cash_prototype.Consensus.PoolStates.{
  PoolState, get_closest_pool_state, reported, greatest, get_closest_pool_state-greatest,
}

abbrev some_states : List PoolState
some_states = ((0, 5) ∷ (1, 7) ∷ []) ∷ [] ∷ ((1, 9) ∷ (0, 2) ∷ []) ∷ []

get_closest_pool_state-greatest_example :
    get_closest_pool_state some_states 1 ≡ greatest (reported 1 some_states)
get_closest_pool_state-greatest_example = get_closest_pool_state-greatest some_states 1

closest_of_shard_1 : get_closest_pool_state some_states 1 ≡ some 9
unfolding get_closest_pool_state
closest_of_shard_1 = refl
