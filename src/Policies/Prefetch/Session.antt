-- ===== src/Policies/Prefetch/Session.antt =====
-- `SessionPrefetchPolicy` of src/l3store/policies/prefetch/session_prefetch.py, and
-- `SemanticPrefetchPolicy` of semantic_prefetch.py.
pub mod Histories
pub mod Longest
use intellil.Common.{
  ℕ, zero, suc, ◌-◌, ◌==◌, string_key, String, Bool, not, ◌&&◌, Option, none, some, List, [], ◌∷◌,
  ◌++◌, map, Result, ok, value_error, ◌>>=◌, ◌>>◌, raise_if, length, drop, reversed,
}
use intellil.Common.Sort.{sort}
use intellil.Common.Float.{Float}
use intellil.Common.Dict.{Dict, get, put}
use intellil.Common.Groups.{group}
use intellil.Metadata.PrefixTree.{PrefixMatch}
use intellil.Metadata.Store.{Libraries, MetadataStore, find_prefix_matches, search_similar_prompts}
use intellil.Policies.Prefetch.{
  PrefetchDecision, RequestContext, kv_cache, semantic, keep_better, keep_all, before, ranked,
}

pub record SessionPrefetchPolicy : Type 0 where
  pub history_size : ℕ
  pub top_k : ℕ
  pub session_histories : Dict String (List (List ℕ))

-- `__init__`
unfoldable pub new_policy : ℕ → ℕ → Result SessionPrefetchPolicy
new_policy size top_k = do
  raise_if (size == 0) value_error
  raise_if (top_k == 0) value_error
  ok (record { history_size = size; top_k = top_k; session_histories = [] })

-- `append` of a `deque` with `maxlen`
unfoldable pub push_bounded : ℕ → List (List ℕ) → List ℕ → List (List ℕ)
push_bounded size history tokens =
    let longer = history ++ tokens ∷ [] in drop (length longer - size) longer

unfoldable pub on_request_completed :
    SessionPrefetchPolicy → String → List ℕ → SessionPrefetchPolicy
on_request_completed p session [] = p
on_request_completed p session (t ∷ tokens) = record p {
  session_histories =
      put p.session_histories session
        (push_bounded p.history_size (group p.session_histories session) (t ∷ tokens));
}

module _ {F : Type 0} ⦃fl : Float F⦄ where
  abbrev pub decision_of : PrefixMatch → PrefetchDecision F
  decision_of m = record {
    object_id = m.object_id;
    priority = fl.of_nat m.matched_length;
    prefetch_type = kv_cache;
  }

  -- The two loops of `predict_prefetch`
  unfoldable pub keep_matches :
      Dict String (PrefetchDecision F) → List PrefixMatch → Dict String (PrefetchDecision F)
  keep_matches best [] = best
  keep_matches best (m ∷ matches) =
      keep_matches (keep_better (λ d. d.object_id) best (decision_of m)) matches

module _ {F Vector Index : Type 0} ⦃fl : Float F⦄ (libs : Libraries F Vector Index) where
  unfoldable pub keep_history :
      MetadataStore Index
      → Dict String (PrefetchDecision F)
      → List (List ℕ)
      → Dict String (PrefetchDecision F)
  keep_history store best [] = best
  keep_history store best (tokens ∷ history) =
      keep_history store (keep_matches best (find_prefix_matches libs store tokens)) history

  unfoldable pub predict_prefetch :
      SessionPrefetchPolicy
      → RequestContext Vector
      → MetadataStore Index
      → List (PrefetchDecision F)
  predict_prefetch p request store =
      let history = group p.session_histories request.session_id in
      ranked p.top_k (keep_history store [] (reversed history))

pub record SemanticPrefetchPolicy (F Vector : Type 0) : Type 0 where
  pub embed : String → Vector
  pub top_k : ℕ
  pub threshold : F

module _ {F Vector Index : Type 0} ⦃fl : Float F⦄ (libs : Libraries F Vector Index) where
  unfoldable pub new_semantic_policy :
      (String → Vector) → ℕ → F → Result (SemanticPrefetchPolicy F Vector)
  new_semantic_policy embed top_k threshold = do
    raise_if (top_k == 0) value_error
    raise_if (not (fl.le (fl.of_nat 0) threshold && fl.le threshold (fl.of_nat 1))) value_error
    ok (record { embed = embed; top_k = top_k; threshold = threshold })

  abbrev pub prompt_vector : SemanticPrefetchPolicy F Vector → RequestContext Vector → Vector
  prompt_vector p request = elim request.prompt_embedding [
    | none ↦ p.embed request.prompt
    | some v ↦ v
  ]

  abbrev pub semantic_decision : String × F → PrefetchDecision F
  semantic_decision (x, similarity) = record {
    object_id = x;
    priority = similarity;
    prefetch_type = semantic;
  }

  unfoldable pub predict_semantic :
      SemanticPrefetchPolicy F Vector
      → RequestContext Vector
      → MetadataStore Index
      → Result (List (PrefetchDecision F))
  predict_semantic p request store = do
    similar ← search_similar_prompts libs store (prompt_vector p request) p.top_k p.threshold
    ok (sort before (map semantic_decision similar))
