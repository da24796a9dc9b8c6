-- ===== src/Tests/Policies.antt =====
-- An order of two blocks, and an adaptive policy with an interval of one.
use intellil.Common.{ℕ, string_key, String, List, some, [], ◌∷◌, ◌≡◌, ◌⊎◌, refl}
use intellil.Policies.Lru.{
  EvictionDecision, LruEviction, select_victim, IsOldest, Untracked, select_victim-IsOldest,
}
use intellil.Policies.Adaptive.{AdaptivePrefetchPolicy}
use intellil.Common.{string_dec, ok, raise, value_error}
use intellil.Common.Dict.{get, put}
use intellil.Policies.Registry.{
  prefix_reuse_eviction, get_eviction_policy, list_eviction_policies, built_in,
}
use intellil.Tests.Fixtures.{counts}

abbrev two_blocks : LruEviction ℕ
two_blocks = record { access_order = ("a", 5) ∷ ("b", 7) ∷ [] }

select_victim-IsOldest_example :
    (d : EvictionDecision ℕ) × (select_victim two_blocks ("c" ∷ "b" ∷ []) ≡ some d)
    × (IsOldest two_blocks.access_order ("c" ∷ "b" ∷ []) d
        ⊎ (d.object_id ≡ "c") × Untracked two_blocks.access_order ("c" ∷ "b" ∷ []))
select_victim-IsOldest_example = select_victim-IsOldest two_blocks "c" ("b" ∷ [])

abbrev policy : AdaptivePrefetchPolicy ℕ
policy = record {
  depth = 2;
  min_depth = 1;
  max_depth = 3;
  interval = 1;
  high_hit_rate = 0;
  low_hit_rate = 0;
  total_prefetch = 0;
  useful_prefetch = 0;
  events_since_adjust = 0;
}

abbrev wanted : List String
wanted = "a" ∷ "b" ∷ []

registered :
    (get_eviction_policy built_in "prefix_reuse" ≡ ok prefix_reuse_eviction)
    × (get_eviction_policy built_in "fifo" ≡ raise value_error)
    × (list_eviction_policies built_in ≡ "lru" ∷ "prefix_reuse" ∷ "workflow_aware" ∷ [])
unfolding get put string_dec get_eviction_policy built_in
registered = (refl, refl, refl)
