-- ===== src/Metadata/Store.antt =====
-- `MetadataStore` of src/l3store/metadata/metadata_store.py: the Bloom filter, the prefix tree and
-- the HNSW index behind one object. A method returns its result, or what it raises, beside the
-- state that it leaves. Log lines are left out.
pub mod Existence
use intellil.Common.{
  ℕ, zero, suc, ◌==◌, string_key, String, Bool, true, false, not, Option, none, some, List, [], ◌∷◌,
  Result, ok, raise, value_error, index_error, ◌>>=◌, ◌>>◌, raise_if, length, if◌then◌else◌,
}
use intellil.Common.Float.{Float}
use intellil.Core.Enums.{
  ObjectType, kv_cache, rag, semantic_cache, agent_workflow, agent_step, tool_call_artifact,
  plan_cache, workflow_trace,
}
use intellil.Metadata.Bloom
use intellil.Metadata.Bloom.{BloomFilter}
use intellil.Metadata.PrefixTree
use intellil.Metadata.PrefixTree.{PrefixTree, PrefixMatch}
use intellil.Metadata.Hnsw
use intellil.Metadata.Hnsw.{HnswLib, HnswIndex}

-- The digests and hnswlib, which the program calls.
pub record Libraries (F Vector Index : Type 0) : Type 0 where
  pub sha256 : String → ℕ
  pub md5 : String → ℕ
  pub hnswlib : HnswLib F Vector Index

pub record MetadataStore (Index : Type 0) : Type 0 where
  pub bloom : BloomFilter
  pub prefix_tree : PrefixTree
  pub expected_items : ℕ
  pub hnsw : Option (HnswIndex Index)

-- `shape[-1]`
unfoldable pub last_dim : List ℕ → Result ℕ
last_dim [] = raise index_error
last_dim (n ∷ []) = ok n
last_dim (m ∷ n ∷ ns) = last_dim (n ∷ ns)

-- `token_ids` is given and not empty
abbrev pub some_tokens : Option (List ℕ) → Option (List ℕ)
some_tokens none = none
some_tokens (some []) = none
some_tokens (some (t ∷ ts)) = some (t ∷ ts)

unfoldable pub index_tokens : PrefixTree → ObjectType → Option (List ℕ) → String → PrefixTree
index_tokens t kv_cache tokens x = elim (some_tokens tokens) [
  | none ↦ t
  | some ts ↦ PrefixTree.insert t ts x
]
index_tokens t _ tokens x = t

module _ {F Vector Index : Type 0} ⦃fl : Float F⦄ (libs : Libraries F Vector Index) where
  -- `__init__` without an embedding dimension; the estimates are those of `BloomFilter`
  unfoldable pub init : ℕ → ℕ → ℕ → MetadataStore Index
  init expected_items size_estimate hashes_estimate = record {
    bloom = Bloom.init size_estimate hashes_estimate;
    prefix_tree = PrefixTree.init;
    expected_items = expected_items;
    hnsw = none;
  }

  unfoldable pub on_object_added :
      MetadataStore Index
      → ObjectType
      → String
      → Option (List ℕ)
      → Result (Unit {0}) × MetadataStore Index
  on_object_added m type x tokens = elim (Bloom.add libs.sha256 libs.md5 m.bloom x) [
    | raise e ↦ (raise e, m)
    | ok bloom ↦
        (ok tt, record m { bloom = bloom; prefix_tree = index_tokens m.prefix_tree type tokens x })
  ]

  -- `_ensure_hnsw`
  unfoldable pub ensure_hnsw : MetadataStore Index → ℕ → Result (HnswIndex Index)
  ensure_hnsw m dim = elim m.hnsw [
    | none ↦ Hnsw.new_index libs.hnswlib dim m.expected_items
    | some h ↦ do raise_if (not (h.dim == dim)) value_error; ok h
  ]

  -- The index after `self._ensure_hnsw(embedding.shape[-1])`, also where `add` raises afterwards.
  unfoldable pub index_embedding :
      MetadataStore Index → String → Vector → Result (Unit {0}) × MetadataStore Index
  index_embedding m x v = elim (last_dim (libs.hnswlib.shape v) >>= ensure_hnsw m) [
    | raise e ↦ (raise e, m)
    | ok h ↦ elim (Hnsw.add libs.hnswlib h x v) [
      | raise e ↦ (raise e, record m { hnsw = some h })
      | ok h' ↦ (ok tt, record m { hnsw = some h' })
    ]
  ]

  unfoldable pub on_semantic_entry_added :
      MetadataStore Index → String → Vector → Result (Unit {0}) × MetadataStore Index
  on_semantic_entry_added m x v = elim (Bloom.add libs.sha256 libs.md5 m.bloom x) [
    | raise e ↦ (raise e, m)
    | ok bloom ↦ index_embedding (record m { bloom = bloom }) x v
  ]

  unfoldable pub on_object_removed : MetadataStore Index → ObjectType → String → MetadataStore Index
  on_object_removed m kv_cache x = record m { prefix_tree = (PrefixTree.remove m.prefix_tree x).0 }
  on_object_removed m semantic_cache x = elim m.hnsw [
    | none ↦ m
    | some h ↦ record m { hnsw = some (Hnsw.remove libs.hnswlib h x).0 }
  ]
  on_object_removed m _ x = m

  unfoldable pub might_exist : MetadataStore Index → String → Result Bool
  might_exist m x = Bloom.might_contain libs.sha256 libs.md5 m.bloom x

  unfoldable pub find_prefix_matches : MetadataStore Index → List ℕ → List PrefixMatch
  find_prefix_matches m tokens = PrefixTree.search m.prefix_tree tokens

  unfoldable pub find_longest_prefix : MetadataStore Index → List ℕ → Option PrefixMatch
  find_longest_prefix m tokens = PrefixTree.longest_match m.prefix_tree tokens

  unfoldable pub search_similar_prompts :
      MetadataStore Index → Vector → ℕ → F → Result (List (String × F))
  search_similar_prompts m v k threshold = elim m.hnsw [
    | none ↦ ok []
    | some h ↦ Hnsw.search libs.hnswlib h v k threshold
  ]

pub record MetadataStats : Type 0 where
  pub bloom_count : ℕ
  pub prefix_tree_size : ℕ
  pub hnsw_size : ℕ

unfoldable pub stats : {Index : Type 0} → MetadataStore Index → MetadataStats
stats m = record {
  bloom_count = m.bloom.count;
  prefix_tree_size = PrefixTree.size m.prefix_tree;
  hnsw_size = elim m.hnsw [ none ↦ 0 | some h ↦ Hnsw.size h ];
}
