-- ===== src/Embeddings.antt =====
-- `CachedEmbeddingService` of src/l3store/embeddings/cache.py, the cache in front of an embedding
-- service. Parameters are the service, whose dimension does not change, `astype(np.float32)`, and the
-- hex digits of SHA-256 of a text. A copy of an array is the array, and a stack of rows their list.
pub mod Answers
use intellil.Common.{
  ℕ, zero, suc, map, ◌==◌, leb, string_key, String, Bool, true, false, Option, none, some, List, [],
  ◌∷◌, Result, ok, raise, value_error, ◌>>=◌, ◌>>◌, raise_if, length,
}
use intellil.Common.Dict.{Dict, get, put, put_last}

pub record CachedEmbeddingService (V : Type 0) : Type 0 where
  pub max_cache_size : ℕ
  pub cache : Dict String V

-- `s[:n]`
unfoldable pub take_text : ℕ → String → String
take_text zero s = String.[]
take_text (suc n) String.[] = String.[]
take_text (suc n) (String.◌∷◌ c s) = String.◌∷◌ c (take_text n s)

module _ {V : Type 0} (service : String → V) (astype : V → V) (hexdigest : String → String) where
  -- `_cache_key`
  unfoldable pub cache_key : String → String
  cache_key text = take_text 16 (hexdigest text)

  -- `__init__`
  unfoldable pub new_service : ℕ → Result (CachedEmbeddingService V)
  new_service size = do
    raise_if (size == 0) value_error
    ok (record { max_cache_size = size; cache = [] })

  -- `_evict_if_needed`
  unfoldable pub evict_if_needed : ℕ → Dict String V → Dict String V
  evict_if_needed size [] = []
  evict_if_needed size (e ∷ cache) = elim (leb (length (e ∷ cache)) size) [
    | true ↦ e ∷ cache
    | false ↦ evict_if_needed size cache
  ]

  unfoldable pub embed : CachedEmbeddingService V → String → V × CachedEmbeddingService V
  embed c text = elim (get c.cache (cache_key text)) [
    | some v ↦ (v, record c { cache = put_last c.cache (cache_key text) v })
    | none ↦ (
      astype (service text),
      record c {
        cache =
            evict_if_needed c.max_cache_size (put c.cache (cache_key text) (astype (service text)));
      },
    )
  ]

  -- The list of `embed_batch`, and the rows of its array
  unfoldable pub embed_all :
      CachedEmbeddingService V → List String → List V × CachedEmbeddingService V
  embed_all c [] = ([], c)
  embed_all c (text ∷ texts) =
      let (v, c') = embed c text in let (vs, c'') = embed_all c' texts in (v ∷ vs, c'')

  unfoldable pub embed_batch :
      CachedEmbeddingService V → List String → List V × CachedEmbeddingService V
  embed_batch c texts = let (vs, c') = embed_all c texts in (map astype vs, c')

  unfoldable pub clear_cache : CachedEmbeddingService V → CachedEmbeddingService V
  clear_cache c = record c { cache = [] }
