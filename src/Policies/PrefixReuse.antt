-- ===== src/Policies/PrefixReuse.antt =====
-- `PrefixReuseEviction` of src/l3store/policies/eviction/prefix_reuse.py. `now` is the clock at the
-- call. The metadata store and the decay, which no method reads, are left out.
use intellil.Common.{
  ℕ, max, ltb, string_key, String, Option, none, List, [], ◌∷◌, map, length, or_else, if◌then◌else◌,
}
use intellil.Common.Float.{Float, fmin}
use intellil.Common.Dict.{get}
use intellil.Core.Types.{KvCacheBlock}
use intellil.Policies.Lru.{EvictionDecision}
use intellil.Policies.Scores.{Accesses, accessed, added, evicted, choose_victim}

pub record PrefixReuseEviction (F : Type 0) : Type 0 where
  pub w_recency : F
  pub w_frequency : F
  pub w_shared : F
  pub accesses : Accesses F
  pub max_shared : ℕ

module _ {F : Type 0} ⦃fl : Float F⦄ where
  -- `__init__`
  unfoldable pub new_policy : F → F → F → PrefixReuseEviction F
  new_policy recency frequency shared = record {
    w_recency = recency;
    w_frequency = frequency;
    w_shared = shared;
    accesses = record { access_times = []; access_counts = [] };
    max_shared = 1;
  }

  unfoldable pub on_block_accessed :
      PrefixReuseEviction F → KvCacheBlock F → F → PrefixReuseEviction F
  on_block_accessed p block now =
      let shared = length block.shared_by_sessions in
      record p {
        accesses = accessed p.accesses block.meta.object_id now;
        max_shared = if ltb p.max_shared shared then shared else p.max_shared;
      }

  unfoldable pub on_block_added : PrefixReuseEviction F → KvCacheBlock F → F → PrefixReuseEviction F
  on_block_added p block now = record p { accesses = added p.accesses block.meta.object_id now }

  unfoldable pub on_block_evicted : PrefixReuseEviction F → String → PrefixReuseEviction F
  on_block_evicted p x = record p { accesses = evicted p.accesses x }

  -- The score of a candidate in `select_victim`
  unfoldable pub recency : PrefixReuseEviction F → String → F → F
  recency p x now =
      let last_access = or_else (get p.accesses.access_times x) (fl.of_nat 0) in
      fl.div (fl.of_nat 1) (fl.add (fl.of_nat 1) (fl.sub now last_access))

  unfoldable pub frequency : PrefixReuseEviction F → String → F
  frequency p x =
      fmin (fl.of_nat 1)
        (fl.div (fl.of_nat (or_else (get p.accesses.access_counts x) 1)) (fl.of_nat 10))

  unfoldable pub shared_score : PrefixReuseEviction F → KvCacheBlock F → F
  shared_score p block =
      fl.div (fl.of_nat (length block.shared_by_sessions)) (fl.of_nat (max 1 p.max_shared))

  unfoldable pub reuse_score : PrefixReuseEviction F → F → KvCacheBlock F → F
  reuse_score p now block =
      let x = block.meta.object_id in
      fl.add (fl.add (fl.mul p.w_recency (recency p x now)) (fl.mul p.w_frequency (frequency p x)))
        (fl.mul p.w_shared (shared_score p block))

  unfoldable pub select_victim :
      PrefixReuseEviction F → List (KvCacheBlock F) → F → Option (EvictionDecision F)
  select_victim p [] now = none
  select_victim p (b ∷ blocks) now = choose_victim (
      map (λ (block : KvCacheBlock F). (block.meta.object_id, reuse_score p now block))
        (b ∷ blocks))
