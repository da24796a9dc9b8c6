-- ===== src/Agent/PlanCache.antt =====
-- `PlanCacheManager` of src/l3store/agent/plan_cache.py. The object store that the manager shares is
-- a field of its state. `strip` is `str.strip`, `embed` is the embedding service, `now` is the clock
-- at the call, and a new entry gets the id and the meta data of its default factories. A state stands
-- beside what a method raises.

pub mod Answers
pub mod Restart
use intellil.Common.{
  ℕ, zero, suc, ◌+◌, ◌==◌, string_key, ◌≟◌, holds, String, Bool, true, false, not, ◌&&◌, ◌||◌,
  Option, none, some, List, [], ◌∷◌, ◌++◌, map, Result, ok, raise, value_error, ◌>>=◌, ◌>>◌,
  raise_if, length, keep, or_else, is_some, if◌then◌else◌,
}
use intellil.Common.Sort.{sort}
use intellil.Common.Sets.{add_all}
use intellil.Common.Float.{Float}
use intellil.Common.Dict.{Dict, get}
use intellil.Core.Enums.{ArtifactScope}
use intellil.Core.Types.{ObjectMeta, PlanCacheEntry}
use intellil.Metadata.Hnsw
use intellil.Metadata.Hnsw.{HnswIndex, new_index}
use intellil.Metadata.Store.{Libraries}
use intellil.Storage.{Backend}
use intellil.Storage.Memory.{le_text}
use intellil.Core.ObjectStore.{UnifiedObjectStore, is_empty}
use intellil.Core.ObjectStore.Objects.{Serializer, ObjectsConfig}
use intellil.Core.ObjectStore.Agent.{
  put_plan_cache_entry, get_plan_cache_entry, delete_plan_cache_entry, list_plan_cache_entries,
}
use intellil.Agent.Plans.{
  PlanAdaptationResult, PlanCacheCandidate, PlanCacheManager, candidate, count_hit, count_result,
  fits, has_all, is_value, new_entry, normalize_tools, same_dict, same_list, validate_entry,
}

module _ {F Json Vector Index B Bytes : Type 0} ⦃fl : Float F⦄ (libs : Libraries F Vector Index)
    (b : Backend B Bytes) (ser : Serializer F Json Vector Bytes) (cfg : ObjectsConfig) where
  -- The loop of `_load_existing_plans`; the clock stands still.
  unfoldable pub load_plans :
      UnifiedObjectStore B Index → HnswIndex Index → F → List String → Result (HnswIndex Index)
  load_plans store index now [] = ok index
  load_plans store index now (x ∷ ids) = elim (get_plan_cache_entry libs b ser cfg store x now) [
    | raise err ↦ raise err
    | ok none ↦ load_plans store index now ids
    | ok (some (entry, v)) ↦ elim (Hnsw.add libs.hnswlib index x v) [
      | raise err ↦ raise err
      | ok index' ↦ load_plans store index' now ids
    ]
  ]

  unfoldable pub load_existing_plans :
      UnifiedObjectStore B Index → HnswIndex Index → F → Result (HnswIndex Index)
  load_existing_plans store index now =
      load_plans store index now (list_plan_cache_entries libs b ser cfg store)

  -- `__init__`; the dimension is that of the embedding service.
  unfoldable pub init :
      UnifiedObjectStore B Index → ℕ → F → ℕ → F → Result (PlanCacheManager F B Index)
  init store dimension threshold max_elements now = do
    raise_if (not (fl.le (fl.of_nat 0) threshold && fl.le threshold (fl.of_nat 1))) value_error
    empty_index ← new_index libs.hnswlib dimension max_elements
    index ← load_existing_plans store empty_index now
    ok (record {
      store = store;
      threshold = threshold;
      index = index;
      puts = 0;
      searches = 0;
      hits = 0;
      validations = 0;
      validation_failures = 0;
      deleted = 0;
    })

  unfoldable pub adapt_plan :
      PlanCacheManager F B Index
      → String
      → Dict String String
      → F
      → Result (Option PlanAdaptationResult)
  adapt_plan m plan_id context now =
      elim (get_plan_cache_entry libs b ser cfg m.store plan_id now) [
        | raise err ↦ raise err
        | ok none ↦ ok none
        | ok (some (entry, v)) ↦ ok (
            some (record {
              plan_id = plan_id;
              plan_template = entry.plan_template;
              adapted_template = entry.plan_template;
              context = context;
            }))
      ]

  -- The index after the store has taken an entry
  unfoldable pub index_plan :
      PlanCacheManager F B Index → String → Vector → Result (Unit {0}) × PlanCacheManager F B Index
  index_plan m x v = elim (Hnsw.add libs.hnswlib m.index x v) [
    | raise err ↦ (raise err, m)
    | ok index ↦ (ok tt, record m { index = index })
  ]

  -- The put and the add of `record_plan_result`
  unfoldable pub store_result :
      PlanCacheManager F B Index
      → String
      → PlanCacheEntry F
      → Vector
      → Result Bool × PlanCacheManager F B Index
  store_result m plan_id entry v =
      let (r, store) = put_plan_cache_entry libs b ser cfg m.store entry v in
      let m' = record m { store = store } in
      elim r [
        | raise err ↦ (raise err, m')
        | ok _ ↦
            let (r', m'') = index_plan m' plan_id v in
            elim r' [ raise err ↦ (raise err, m'') | ok _ ↦ (ok true, m'') ]
      ]

  unfoldable pub record_plan_result :
      PlanCacheManager F B Index → String → Bool → F → Result Bool × PlanCacheManager F B Index
  record_plan_result m plan_id success now =
      elim (get_plan_cache_entry libs b ser cfg m.store plan_id now) [
        | raise err ↦ (raise err, m)
        | ok none ↦ (ok false, m)
        | ok (some (entry, v)) ↦
            store_result (record m { index = (Hnsw.remove libs.hnswlib m.index plan_id).0 }) plan_id
              (count_result success entry) v
      ]

  unfoldable pub delete_stored :
      PlanCacheManager F B Index → String → Bool → Bool × PlanCacheManager F B Index
  delete_stored m plan_id true =
      let (store, removed) = delete_plan_cache_entry libs b ser cfg m.store plan_id in
      (removed, record m { store = store })
  delete_stored m plan_id false = (false, m)

  -- What `delete_plan` does once it knows whether the store has the plan
  unfoldable pub delete_known :
      PlanCacheManager F B Index → String → Bool → Bool × PlanCacheManager F B Index
  delete_known m plan_id exists_in_store =
      let (index, from_index) = Hnsw.remove libs.hnswlib m.index plan_id in
      let (from_store, m') = delete_stored (record m { index = index }) plan_id exists_in_store in
      if from_index || from_store
      then (true, record m' { deleted = m.deleted + 1 })
      else (false, m')

  unfoldable pub delete_plan :
      PlanCacheManager F B Index → String → F → Result Bool × PlanCacheManager F B Index
  delete_plan m plan_id now = elim (get_plan_cache_entry libs b ser cfg m.store plan_id now) [
    | raise err ↦ (raise err, m)
    | ok found ↦ let (deleted, m') = delete_known m plan_id (is_some found) in (ok deleted, m')
  ]

  module _ (strip : String → String) (embed : String → Vector) where
    -- What `put_plan` does with its entry
    unfoldable pub store_plan :
        PlanCacheManager F B Index
        → PlanCacheEntry F
        → Vector
        → Result String × PlanCacheManager F B Index
    store_plan m entry v =
        let (r, store) = put_plan_cache_entry libs b ser cfg m.store entry v in
        let m' = record m { store = store } in
        elim r [
          | raise err ↦ (raise err, m')
          | ok plan_id ↦
              let (r', m'') = index_plan m' plan_id v in
              elim r' [
                | raise err ↦ (raise err, m'')
                | ok _ ↦ (ok plan_id, record m'' { puts = m''.puts + 1 })
              ]
        ]

    unfoldable pub put_plan :
        PlanCacheManager F B Index
        → String
        → ObjectMeta F
        → String
        → String
        → List String
        → Dict String String
        → ArtifactScope
        → Result String × PlanCacheManager F B Index
    put_plan m plan_id meta task template tools constraints scope =
        if is_empty (strip task) || is_empty (strip template)
        then (raise value_error, m)
        else store_plan m
            (new_entry plan_id meta template (normalize_tools strip tools) constraints scope)
            (embed task)

    unfoldable pub validate_plan :
        PlanCacheManager F B Index
        → String
        → List String
        → Dict String String
        → Option (PlanCacheEntry F)
        → F
        → Result Bool × PlanCacheManager F B Index
    validate_plan m plan_id required constraints (some entry) now =
        let (valid, m') = validate_entry strip m required constraints entry in (ok valid, m')
    validate_plan m plan_id required constraints none now =
        elim (get_plan_cache_entry libs b ser cfg m.store plan_id now) [
          | raise err ↦ (raise err, record m { validations = m.validations + 1 })
          | ok none ↦ (
            ok false,
            record m {
              validations = m.validations + 1;
              validation_failures = m.validation_failures + 1;
            },
          )
          | ok (some (entry, v)) ↦
              let (valid, m') = validate_entry strip m required constraints entry in (ok valid, m')
        ]

    -- The loop of `search_similar_plans`
    unfoldable pub consider :
        PlanCacheManager F B Index
        → List String
        → Dict String String
        → F
        → List (PlanCacheCandidate F)
        → List (String × F)
        → Result (List (PlanCacheCandidate F)) × PlanCacheManager F B Index
    consider m tools constraints now candidates [] = (ok candidates, m)
    consider m tools constraints now candidates ((x, similarity) ∷ matches) =
        elim (get_plan_cache_entry libs b ser cfg m.store x now) [
          | raise err ↦ (raise err, m)
          | ok none ↦
              consider (record m { index = (Hnsw.remove libs.hnswlib m.index x).0 }) tools
                constraints now candidates matches
          | ok (some (entry, v)) ↦
              let (valid, m') = validate_entry strip m tools constraints entry in
              consider m' tools constraints now
                (if valid then candidates ++ candidate x similarity entry ∷ [] else candidates)
                matches
        ]

    -- A `top_k` that is not positive is 0 here.
    unfoldable pub search_similar_plans :
        PlanCacheManager F B Index
        → String
        → ℕ
        → List String
        → Dict String String
        → Option F
        → F
        → Result (List (PlanCacheCandidate F)) × PlanCacheManager F B Index
    search_similar_plans m task zero required constraints threshold now = (ok [], m)
    search_similar_plans m task (suc k) required constraints threshold now =
        let searched = record m { searches = m.searches + 1 } in
        if is_empty (strip task)
        then (raise value_error, m)
        else elim (Hnsw.search libs.hnswlib m.index (embed task) (suc k)
            (or_else threshold m.threshold)) [
              | raise err ↦ (raise err, searched)
              | ok matches ↦
                  let (r, m') =
                    consider searched (normalize_tools strip required) constraints now [] matches in
                  count_hit r m'
            ]

-- The two rates of `stats`
unfoldable pub hit_rate : {F B Index : Type 0} ⦃fl : Float F⦄ → PlanCacheManager F B Index → F
hit_rate ⦃fl⦄ m =
    if m.searches == 0 then fl.of_nat 0 else fl.div (fl.of_nat m.hits) (fl.of_nat m.searches)

unfoldable pub validation_fail_rate :
    {F B Index : Type 0} ⦃fl : Float F⦄ → PlanCacheManager F B Index → F
validation_fail_rate ⦃fl⦄ m =
    if m.validations == 0
    then fl.of_nat 0
    else fl.div (fl.of_nat m.validation_failures) (fl.of_nat m.validations)
