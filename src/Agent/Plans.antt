-- ===== src/Agent/Plans.antt =====
-- What `PlanCacheManager` of src/l3store/agent/plan_cache.py keeps and answers: its state, the
-- comparison of a plan with a request, and the counters of the two.
use intellil.Common.{
  ℕ, ◌+◌, ◌==◌, string_key, ◌≟◌, holds, String, Bool, true, false, not, ◌&&◌, Option, none, some,
  List, [], ◌∷◌, map, Result, ok, raise, length, keep, if◌then◌else◌,
}
use intellil.Common.Sort.{sort}
use intellil.Common.Sets.{add_all}
use intellil.Common.Dict.{Dict, get}
use intellil.Core.Enums.{ArtifactScope}
use intellil.Core.Types.{ObjectMeta, PlanCacheEntry}
use intellil.Metadata.Hnsw.{HnswIndex}
use intellil.Storage.Memory.{le_text}
use intellil.Core.ObjectStore.{UnifiedObjectStore, is_empty}

pub record PlanCacheCandidate (F : Type 0) : Type 0 where
  pub plan_id : String
  pub plan_template : String
  pub similarity : F
  pub required_tools : List String
  pub constraints : Dict String String

pub record PlanAdaptationResult : Type 0 where
  pub plan_id : String
  pub plan_template : String
  pub adapted_template : String
  pub context : Dict String String

pub record PlanCacheManager (F B Index : Type 0) : Type 0 where
  pub store : UnifiedObjectStore B Index
  pub threshold : F
  pub index : HnswIndex Index
  pub puts : ℕ
  pub searches : ℕ
  pub hits : ℕ
  pub validations : ℕ
  pub validation_failures : ℕ
  pub deleted : ℕ

-- `a == b` of lists of texts
unfoldable pub same_list : List String → List String → Bool
same_list [] [] = true
same_list [] (y ∷ ys) = false
same_list (x ∷ xs) [] = false
same_list (x ∷ xs) (y ∷ ys) = holds (x ≟ y) && same_list xs ys

-- `a == b` of dictionaries, whose order does not count
abbrev pub is_value : Option String → String → Bool
is_value none v = false
is_value (some w) v = holds (w ≟ v)

unfoldable pub has_all : Dict String String → Dict String String → Bool
has_all d [] = true
has_all d ((q, v) ∷ rest) = is_value (get d q) v && has_all d rest

unfoldable pub same_dict : Dict String String → Dict String String → Bool
same_dict a c = (length a == length c) && has_all a c

-- `_normalize_tools`
unfoldable pub normalize_tools : (String → String) → List String → List String
normalize_tools strip tools =
    sort le_text (add_all [] (keep (λ s. not (is_empty s)) (map strip tools)))

module _ {F : Type 0} (strip : String → String) where
  -- The test of `validate_plan`
  unfoldable pub fits : List String → Dict String String → PlanCacheEntry F → Bool
  fits required constraints entry =
      same_list (normalize_tools strip entry.required_tools) (normalize_tools strip required)
      && same_dict entry.constraints constraints

module _ {F B Index : Type 0} (strip : String → String) where
  -- `validate_plan` of an entry that is at hand
  unfoldable pub validate_entry :
      PlanCacheManager F B Index
      → List String
      → Dict String String
      → PlanCacheEntry F
      → Bool × PlanCacheManager F B Index
  validate_entry m required constraints entry =
      let counted = record m { validations = m.validations + 1 } in
      if fits strip required constraints entry
      then (true, counted)
      else (false, record counted { validation_failures = m.validation_failures + 1 })

abbrev pub new_entry :
    {F : Type 0}
    → String
    → ObjectMeta F
    → String
    → List String
    → Dict String String
    → ArtifactScope
    → PlanCacheEntry F
new_entry plan_id meta template tools constraints scope = record {
  meta = meta;
  plan_id = plan_id;
  task_embedding_dim = 0;
  plan_template = template;
  required_tools = tools;
  constraints = constraints;
  success_count = 0;
  failure_count = 0;
  last_validated_at = none;
  validity_scope = scope;
}

abbrev pub candidate : {F : Type 0} → String → F → PlanCacheEntry F → PlanCacheCandidate F
candidate x similarity entry = record {
  plan_id = x;
  plan_template = entry.plan_template;
  similarity = similarity;
  required_tools = entry.required_tools;
  constraints = entry.constraints;
}

abbrev pub count_hit :
    {F B Index : Type 0}
    → Result (List (PlanCacheCandidate F))
    → PlanCacheManager F B Index
    → Result (List (PlanCacheCandidate F)) × PlanCacheManager F B Index
count_hit (raise err) m = (raise err, m)
count_hit (ok []) m = (ok [], m)
count_hit (ok (c ∷ candidates)) m = (ok (c ∷ candidates), record m { hits = m.hits + 1 })

abbrev pub count_result : {F : Type 0} → Bool → PlanCacheEntry F → PlanCacheEntry F
count_result true entry = record entry { success_count = entry.success_count + 1 }
count_result false entry = record entry { failure_count = entry.failure_count + 1 }
