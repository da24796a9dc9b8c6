-- ===== src/Agent/PlanCache/Answers.antt =====
-- What the plan cache of src/l3store/agent/plan_cache.py finds: plans that may be reused.
use intellil.Common.{
  ℕ, zero, suc, ◌+◌, ◌≤◌, ◌==◌, string_key, ◌≟◌, holds, String, Bool, true, false, ◌&&◌, Option,
  none, some, List, [], ◌∷◌, ◌++◌, ◌≡◌, refl, ap, ◌∙◌, arith, inl, inr, Result, ok, raise, length,
  length-append, All, All-append, All-map, Bool-cases, Option-cases, or_else,
}
use intellil.Common.Float.{Float}
use intellil.Common.Dict.{Dict, get, has}
use intellil.Core.Types.{PlanCacheEntry}
use intellil.Metadata.Hnsw
use intellil.Metadata.Hnsw.{HnswIndex, has_dim, new_index}
use intellil.Metadata.Hnsw.Labels.{IsValid}
use intellil.Metadata.Hnsw.Results.{IsHit, search-IsHit}
use intellil.Metadata.Store.{Libraries}
use intellil.Storage.{Backend}
use intellil.Core.ObjectStore.{UnifiedObjectStore, is_empty}
use intellil.Core.ObjectStore.Objects.{Serializer, ObjectsConfig}
use intellil.Core.ObjectStore.Agent.{get_plan_cache_entry}
use intellil.Agent.Plans.{
  PlanCacheCandidate, PlanCacheManager, same_list, is_value, has_all, same_dict, normalize_tools,
  fits, validate_entry, candidate, count_hit,
}
use intellil.Agent.PlanCache.{consider, search_similar_plans}

both : (a c : Bool) → a && c ≡ true → (a ≡ true) × (c ≡ true)
both true true e = (refl, refl)
both true false e = cc
both false c e = cc

same_list_sound : (xs ys : List String) → same_list xs ys ≡ true → xs ≡ ys
unfolding same_list
same_list_sound [] [] e = refl
same_list_sound [] (y ∷ ys) e = cc
same_list_sound (x ∷ xs) [] e = cc
same_list_sound (x ∷ xs) (y ∷ ys) e =
    let (first, rest) = both (holds (x ≟ y)) (same_list xs ys) e in
    let tail = same_list_sound xs ys rest in
    elim (x ≟ y) [ yes h ↦ cc (h, tail) | no n ↦ ground arith ]

has_all_sound :
    (d rest : Dict String String)
    → has_all d rest ≡ true
    → All (λ (e : String × String). get d e.0 ≡ some e.1) rest
unfolding has_all
has_all_sound d [] e = tt
has_all_sound d ((q, v) ∷ rest) e =
    let (first, later) = both (is_value (get d q) v) (has_all d rest) e in
    (found (get d q) first, has_all_sound d rest later)
  where
    found : (o : Option String) → is_value o v ≡ true → o ≡ some v
    found none h = cc
    found (some w) h = elim (w ≟ v) [ yes same ↦ ap some same | no n ↦ ground arith ]

-- The entry has the tools that are required, and the constraints, and no others.
pub record IsReusable {F : Type 0} (strip : String → String) (required : List String)
    (constraints : Dict String String) (entry : PlanCacheEntry F) : Type 0 where
  pub same_tools : normalize_tools strip entry.required_tools ≡ normalize_tools strip required
  pub same_number : length entry.constraints ≡ length constraints
  pub constrained : All (λ (e : String × String). get entry.constraints e.0 ≡ some e.1) constraints

fits-IsReusable :
    {F : Type 0} (strip : String → String) (required : List String)
    (constraints : Dict String String) (entry : PlanCacheEntry F)
    → fits strip required constraints entry ≡ true
    → IsReusable strip required constraints entry
unfolding fits same_dict
fits-IsReusable strip required constraints entry e =
    let (tools, dicts) =
      both (same_list (normalize_tools strip entry.required_tools) (normalize_tools strip required))
        (same_dict entry.constraints constraints) e in
    let (lengths, values) =
      both (length entry.constraints == length constraints) (has_all entry.constraints constraints)
        dicts in
    record {
      same_tools = same_list_sound _ _ tools;
      same_number = ground arith;
      constrained = has_all_sound entry.constraints constraints values;
    }

module _ {F Json Vector Index B Bytes : Type 0} ⦃fl : Float F⦄ (libs : Libraries F Vector Index)
    (b : Backend B Bytes) (ser : Serializer F Json Vector Bytes) (cfg : ObjectsConfig) where
  -- A candidate is a stored plan that may be reused, and is similar enough.
  pub record IsAnswer (strip : String → String) (st : UnifiedObjectStore B Index)
      (required : List String) (constraints : Dict String String) (threshold now : F)
      (c : PlanCacheCandidate F) : Type 0 where
    pub entry : PlanCacheEntry F
    pub embedding : Vector
    pub stored : get_plan_cache_entry libs b ser cfg st c.plan_id now ≡ ok (some (entry, embedding))
    pub shown : c ≡ candidate c.plan_id c.similarity entry
    pub reusable : IsReusable strip required constraints entry
    pub similar : fl.le threshold c.similarity ≡ true

  -- The store can be read at an id.
  abbrev pub Readable : UnifiedObjectStore B Index → F → String → Type 0
  Readable st now x =
      (found : Option (PlanCacheEntry F × Vector)) × (get_plan_cache_entry libs b ser cfg st x now
        ≡ ok found)

  -- The loop of a search keeps the store, and adds answers only.
  record Considered (strip : String → String) (m : PlanCacheManager F B Index) (tools : List String)
      (constraints : Dict String String) (threshold now : F) (most : ℕ)
      (r : Result (List (PlanCacheCandidate F)) × PlanCacheManager F B Index) : Type 0 where
    candidates : List (PlanCacheCandidate F)
    returned : r.0 ≡ ok candidates
    answers : All (IsAnswer strip m.store tools constraints threshold now) candidates
    few : length candidates ≤ most

  module _ (strip : String → String) (embed : String → Vector) where
    consider-Considered :
        (m : PlanCacheManager F B Index) (tools : List String) (constraints : Dict String String)
        (threshold now : F) (candidates : List (PlanCacheCandidate F)) (matches : List (String × F))
        → All (λ (e : String × F). Readable m.store now e.0) matches
        → All (λ (e : String × F). fl.le threshold e.1 ≡ true) matches
        → All (IsAnswer strip m.store tools constraints threshold now) candidates
        → Considered strip m tools constraints threshold now
            (length candidates + length matches)
            (consider libs b ser cfg strip embed m tools constraints now candidates matches)
    unfolding consider validate_entry
    consider-Considered m tools constraints threshold now candidates [] readable close answers =
        record { candidates = candidates; returned = refl; answers = answers; few = omega arith }
    consider-Considered m tools constraints threshold now candidates ((x, s) ∷ matches) readable
          close answers =
        let (found, read) = readable.0 in
        elim (Option-cases found) [
          | inl gone ↦
              let m' = record m { index = (Hnsw.remove libs.hnswlib m.index x).0 } in
              let rest =
                consider-Considered m' tools constraints threshold now candidates matches readable.1
                  close.1 answers in
              rw (consider, read, gone)
                (record {
                  candidates = rest.candidates;
                  returned = rest.returned;
                  answers = rest.answers;
                  few = omega (arith, rest.few);
                })
          | inr ((entry, v), there) ↦ elim (Bool-cases (fits strip tools constraints entry)) [
            | inl good ↦
                let m' = record m { validations = m.validations + 1 } in
                let c = candidate x s entry in
                let answer : IsAnswer strip m.store tools constraints threshold now c = record {
                  entry = entry;
                  embedding = v;
                  stored = read ∙ ap ok there;
                  shown = refl;
                  reusable = fits-IsReusable strip tools constraints entry good;
                  similar = close.0;
                } in
                let rest =
                  consider-Considered m' tools constraints threshold now (candidates ++ c ∷ [])
                    matches readable.1 close.1
                    (All-append (IsAnswer strip m.store tools constraints threshold now) candidates
                      (c ∷ []) answers (answer, tt)) in
                rw (consider, read, there, validate_entry, good)
                  (record {
                    candidates = rest.candidates;
                    returned = rest.returned;
                    answers = rest.answers;
                    few = omega (arith, rest.few, length-append candidates (c ∷ []));
                  })
            | inr bad ↦
                let m' = record m {
                  validations = m.validations + 1;
                  validation_failures = m.validation_failures + 1;
                } in
                let rest =
                  consider-Considered m' tools constraints threshold now candidates matches
                    readable.1 close.1 answers in
                rw (consider, read, there, validate_entry, bad)
                  (record {
                    candidates = rest.candidates;
                    returned = rest.returned;
                    answers = rest.answers;
                    few = omega (arith, rest.few);
                  })
          ]
        ]

    -- Where the task is not blank, the index is valid, the task's vector has its dimension, and the store
    -- can be read at the ids of the index, `search_similar_plans` returns at most `k` candidates. Each is
    -- a plan that the store has, with its template, whose tools are those that are required, whose
    -- constraints are those that are asked for, and whose similarity reaches the threshold.
    pub search_similar_plans-IsAnswer :
        (m : PlanCacheManager F B Index) (task : String) (k : ℕ) (required : List String)
        (constraints : Dict String String) (threshold : Option F) (now : F)
        → is_empty (strip task) ≡ false
        → IsValid m.index
        → has_dim m.index.dim (libs.hnswlib.shape (embed task)) ≡ true
        → ((x : String) → has m.index.object_to_id x ≡ true → Readable m.store now x)
        → (candidates : List (PlanCacheCandidate F)) × ((search_similar_plans libs b ser cfg strip
              embed m task k required constraints threshold now).0
            ≡ ok candidates)
          × (length candidates ≤ k)
          × All
              (IsAnswer strip m.store
                (normalize_tools strip required)
                constraints
                (or_else threshold m.threshold)
                now)
              candidates
    unfolding search_similar_plans
    search_similar_plans-IsAnswer m task zero required constraints threshold now named valid
          fits_index readable =
        ([], refl, omega arith, tt)
    search_similar_plans-IsAnswer m task (suc k) required constraints threshold now named valid
          fits_index readable =
        let limit = or_else threshold m.threshold in
        let (matches, found, hits, few) =
          search-IsHit libs.hnswlib m.index (embed task) (suc k) limit valid fits_index in
        let searched = record m { searches = m.searches + 1 } in
        let close =
          All-map (IsHit libs.hnswlib m.index limit) (λ (e : String × F). fl.le limit e.1 ≡ true)
            (λ e (h : IsHit libs.hnswlib m.index limit e). h.1) matches hits in
        let readable_hits =
          All-map (IsHit libs.hnswlib m.index limit) (λ (e : String × F). Readable m.store now e.0)
            (λ e (h : IsHit libs.hnswlib m.index limit e). readable e.0 h.0) matches hits in
        let r =
          consider-Considered searched (normalize_tools strip required) constraints limit now []
            matches readable_hits close tt in
        (
          r.candidates,
          rw (search_similar_plans, named, found) (counted _ _ r.candidates r.returned),
          omega (arith, r.few, few),
          r.answers,
        )
      where
        counted :
            (r : Result (List (PlanCacheCandidate F))) (m' : PlanCacheManager F B Index)
            (cs : List (PlanCacheCandidate F))
            → r ≡ ok cs
            → (count_hit r m').0 ≡ ok cs
        counted (raise err) m' cs e = cc
        counted (ok []) m' cs e = e
        counted (ok (c ∷ rest)) m' cs e = e
