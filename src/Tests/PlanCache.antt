-- ===== src/Tests/PlanCache.antt =====
-- A plan cache of one plan, over a memory backend.
use intellil.Common.{
  ℕ, ◌≤◌, string_key, ◌≟◌, String, true, none, List, [], ◌∷◌, ◌≡◌, refl, arith, ok, length, All,
}
use mathlib.Core.Path.{subst}
use intellil.Common.Dict.{get, has}
use intellil.Core.ObjectStore.{is_empty}
use intellil.Core.ObjectStore.Agent.{put_plan_cache_entry}
use intellil.Metadata.Hnsw
use intellil.Metadata.Hnsw.{has_dim, new_index}
use intellil.Metadata.Store.{init}
use intellil.Storage.Memory.{MemoryBackend, memory, memory-IsStorage}
use intellil.Agent.PlanCache
use intellil.Agent.Plans.{PlanCacheCandidate, PlanCacheManager, normalize_tools}
use intellil.Agent.PlanCache.{search_similar_plans, load_plans, load_existing_plans}
use intellil.Agent.PlanCache.Answers.{IsAnswer, Readable, search_similar_plans-IsAnswer}
use intellil.Agent.PlanCache.Restart.{init_restart}
use intellil.Tests.Fixtures.{counts, libraries, Blob, serializer, config}
use intellil.Tests.ObjectStore.{new_store, plan, plan_round_trip}
use intellil.Tests.Hnsw.{one_entry, one_entry-IsValid}

abbrev strip : String → String
strip s = s

abbrev embed : String → List ℕ
embed s = 5 ∷ 6 ∷ []

abbrev manager : PlanCacheManager ℕ (MemoryBackend Blob) (List ℕ)
manager = record {
  store = (put_plan_cache_entry libraries memory serializer config new_store plan (3 ∷ 4 ∷ [])).1;
  threshold = 1;
  index = one_entry;
  puts = 1;
  searches = 0;
  hits = 0;
  validations = 0;
  validation_failures = 0;
  deleted = 0;
}

readable :
    (x : String)
    → has one_entry.object_to_id x ≡ true
    → Readable libraries memory serializer config manager.store 20 x
unfolding get
readable x there = elim ("a" ≟ x) [
  | yes e ↦
      subst (Readable libraries memory serializer config manager.store 20) e (_, plan_round_trip)
  | no n ↦ ground arith
]

search_similar_plans-IsAnswer_example :
    (candidates : List (PlanCacheCandidate ℕ)) × ((search_similar_plans libraries memory serializer
        config strip embed manager "travel" 3 [] [] none 20).0
      ≡ ok candidates)
    × (length candidates ≤ 3)
    × All
        (IsAnswer libraries memory serializer config strip manager.store
          (normalize_tools strip [])
          []
          1
          20)
        candidates
unfolding has_dim is_empty
search_similar_plans-IsAnswer_example =
    search_similar_plans-IsAnswer libraries memory serializer config strip embed manager "travel" 3
      [] [] none 20 refl one_entry-IsValid refl readable

-- The store of the manager, opened again
init_restart_example :
    (m : PlanCacheManager ℕ (MemoryBackend Blob) (List ℕ)) × (PlanCache.init libraries memory
        serializer config
        (record manager.store { metadata = init libraries 100 64 3 })
        2
        1
        5
        20
      ≡ ok m)
    × (Hnsw.size m.index ≡ 0)
init_restart_example =
    init_restart libraries memory serializer config memory-IsStorage manager.store 100 64 3 2 5 1 20
      refl refl refl
