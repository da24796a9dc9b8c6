-- ===== src/Agent/PlanCache/Restart.antt =====
-- What the plan cache of src/l3store/agent/plan_cache.py finds of the plans of an earlier run.
use intellil.Common.{true, false, ℕ, ◌==◌, string_key, String, ◌&&◌, List, [], ◌∷◌, ◌≡◌, refl, ok}
use intellil.Common.Float.{Float}
use intellil.Metadata.Hnsw
use intellil.Metadata.Hnsw.{HnswIndex, has_dim, new_index}
use intellil.Metadata.Store
use intellil.Metadata.Store.{Libraries}
use intellil.Storage.{Backend, IsStorage}
use intellil.Core.ObjectStore.{UnifiedObjectStore}
use intellil.Core.ObjectStore.Objects.{Serializer, ObjectsConfig}
use intellil.Core.ObjectStore.Agent.{list_plan_cache_entries}
use intellil.Core.ObjectStore.RoundTrip.{get-init}
use intellil.Agent.Plans.{PlanCacheManager}
use intellil.Agent.PlanCache.{init, load_plans, load_existing_plans}

module _ {F Json Vector Index B Bytes : Type 0} ⦃fl : Float F⦄ (libs : Libraries F Vector Index)
    (b : Backend B Bytes) (ser : Serializer F Json Vector Bytes) (cfg : ObjectsConfig) where
  module _ (law : IsStorage b) (st : UnifiedObjectStore B Index) (expected size hashes : ℕ) where
    load_plans_restart :
        (index : HnswIndex Index) (now : F) (ids : List String)
        → load_plans libs b ser cfg
            (record st { metadata = Store.init libs expected size hashes })
            index
            now
            ids
          ≡ ok index
    unfolding load_plans
    load_plans_restart index now [] = refl
    load_plans_restart index now (x ∷ ids) =
        let (_, _, _, _, _, _, nothing, _) =
          get-init libs b ser cfg law st expected size hashes x now in
        rw (load_plans, nothing) (load_plans_restart index now ids)

    -- With arguments that the constructor takes, a manager that is built on a store which was opened with
    -- a new metadata store, as after a restart, has no plan in its index, whatever plans the backend
    -- holds and lists.
    pub init_restart :
        (dimension max_elements : ℕ) (threshold now : F)
        → fl.le (fl.of_nat 0) threshold && fl.le threshold (fl.of_nat 1) ≡ true
        → (dimension == 0) ≡ false
        → (max_elements == 0) ≡ false
        → (m : PlanCacheManager F B Index) × (init libs b ser cfg
              (record st { metadata = Store.init libs expected size hashes })
              dimension
              threshold
              max_elements
              now
            ≡ ok m)
          × (Hnsw.size m.index ≡ 0)
    unfolding init load_existing_plans new_index
    init_restart dimension max_elements threshold now in_range some_dimension some_room =
        let fresh : UnifiedObjectStore B Index = record st {
          metadata = Store.init libs expected size hashes;
        } in
        let index : HnswIndex Index = record {
          dim = dimension;
          max_elements = max_elements;
          index = libs.hnswlib.empty_index dimension max_elements;
          id_to_object = [];
          object_to_id = [];
          free_ids = [];
          next_id = 0;
        } in
        let m : PlanCacheManager F B Index = record {
          store = fresh;
          threshold = threshold;
          index = index;
          puts = 0;
          searches = 0;
          hits = 0;
          validations = 0;
          validation_failures = 0;
          deleted = 0;
        } in
        let loaded = load_plans_restart index now (list_plan_cache_entries libs b ser cfg fresh) in
        (
          m,
          rw (init, in_range, new_index, some_dimension, some_room, load_existing_plans, loaded)
              refl,
          refl,
        )
