-- ===== src/Tests/Embeddings.antt =====
-- A cache of one entry; the embedding of a text is its length, of which two digits are kept, and the
-- digest of a text is the text.
use intellil.Common.{
  ℕ, ◌%◌, arith, inl, inr, In, ap, sym, ◌∙◌, ◌≤◌, string_key, String, List, [], ◌∷◌, ◌≡◌, refl, ap,
  length, map,
}
use Prim.Native.String.{len}
use intellil.Embeddings.{CachedEmbeddingService, new_service, embed_batch, cache_key, take_text}
use intellil.Embeddings.Answers.{OneKey, embed_batch-service}

abbrev small_cache : CachedEmbeddingService ℕ
small_cache = record { max_cache_size = 1; cache = [] }

abbrev same_text : String → String
same_text text = text

abbrev half : ℕ → ℕ
half n = n % 100

abbrev batch : List String
batch = "a" ∷ "bc" ∷ "a" ∷ []

short : (t : String) → In t ("bc" ∷ batch) → take_text 16 t ≡ t
unfolding take_text
short t i = elim i [
  | inl e ↦ rw e refl
  | inr (inl e) ↦ rw e refl
  | inr (inr (inl e)) ↦ rw e refl
  | inr (inr (inr (inl e))) ↦ rw e refl
  | inr (inr (inr (inr h))) ↦ absurd h
]

one_key : OneKey len half same_text ("bc" ∷ batch)
unfolding cache_key
one_key t u i j e = ap (λ s. half (len s)) (sym (short t i) ∙ e ∙ short u j)

embed_batch-service_example :
    let c' = (embed_batch len half same_text small_cache ("bc" ∷ [])).1 in
    ((embed_batch len half same_text c' batch).0 ≡ map (λ t. half (len t)) batch)
    × (length (embed_batch len half same_text c' batch).1.cache
        ≤ (embed_batch len half same_text c' batch).1.max_cache_size)
unfolding new_service
embed_batch-service_example =
    embed_batch-service len half same_text 1 small_cache ("bc" ∷ []) batch (λ n. omega arith)
      one_key refl
