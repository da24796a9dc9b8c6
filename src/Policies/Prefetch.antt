-- ===== src/Policies/Prefetch.antt =====
-- What the prefetch policies share: src/l3store/policies/prefetch/base.py, and the two steps that
-- session_prefetch.py and agent_prefetch.py take alike, the best decision of each key and the first
-- of them by priority.
pub mod Ranking
pub mod Session
pub mod Agent
use intellil.Common.{
  ℕ, ◌≟◌, Key, Bool, String, Option, none, some, List, [], ◌∷◌, if◌then◌else◌, take,
}
use intellil.Common.Sort.{sort}
use intellil.Common.Float.{Float}
use intellil.Common.Dict.{Dict, values, get, put}

-- `prefetch_type`, of the texts that the policies write
pub data PrefetchType : Type 0 where
  kv_cache rag semantic tool_artifact plan_cache : PrefetchType

unfoldable pub PrefetchType-discrete : Discrete PrefetchType
PrefetchType-discrete = hlevel

instance abbrev pub prefetch_type_key : Key PrefetchType
prefetch_type_key = record { dec = PrefetchType-discrete }

pub record RequestContext (Vector : Type 0) : Type 0 where
  pub prompt : String
  pub session_id : String
  pub model_name : String
  pub prompt_embedding : Option Vector

pub record PrefetchDecision (F : Type 0) : Type 0 where
  pub object_id : String
  pub priority : F
  pub prefetch_type : PrefetchType

module _ {F K : Type 0} ⦃fl : Float F⦄ ⦃k : Key K⦄ (key : PrefetchDecision F → K) where
  -- The body of the loops: a decision replaces the one of its key where its priority is greater.
  unfoldable pub keep_better :
      Dict K (PrefetchDecision F) → PrefetchDecision F → Dict K (PrefetchDecision F)
  keep_better best d = elim (get best (key d)) [
    | none ↦ put best (key d) d
    | some current ↦ if fl.lt current.priority d.priority then put best (key d) d else best
  ]

  unfoldable pub keep_all :
      Dict K (PrefetchDecision F) → List (PrefetchDecision F) → Dict K (PrefetchDecision F)
  keep_all best [] = best
  keep_all best (d ∷ ds) = keep_all (keep_better best d) ds

module _ {F : Type 0} ⦃fl : Float F⦄ where
  -- The order of `sorted` by priority, with `reverse=True`
  abbrev pub before : PrefetchDecision F → PrefetchDecision F → Bool
  before a b = fl.le b.priority a.priority

  unfoldable pub ranked : {K : Type 0} → ℕ → Dict K (PrefetchDecision F) → List (PrefetchDecision F)
  ranked n best = take n (sort before (values best))
