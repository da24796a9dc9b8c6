-- ===== src/Tests/SemanticCache.antt =====
-- A semantic cache whose index names an entry that the store has not.
use intellil.Common.{ℕ, string_key, String, true, none, some, List, [], ◌∷◌, ◌≡◌, refl, sym, ok}
use mathlib.Core.Path.{subst}
use intellil.Common.Dict.{has}
use intellil.Core.Enums.{semantic_cache}
use intellil.Core.ObjectStore.{get_object, get_guarded}
use intellil.Core.ObjectStore.Objects.{get_semantic_entry}
use intellil.Core.ObjectStore.RoundTrip.{get-init}
use intellil.Metadata.Hnsw.{HnswIndex, has_dim}
use intellil.Metadata.Hnsw.Labels
use intellil.Metadata.Store.{init, might_exist, search_similar_prompts}
use intellil.Metadata.Bloom.Membership
use intellil.Storage.Memory.{MemoryBackend, memory, memory-IsStorage}
use intellil.SemanticCache.{SemanticCacheManager, get_or_generate}
use intellil.SemanticCache.Answers.{IsReady, Readable, Answered, get_or_generate-Answered}
use intellil.Tests.Fixtures.{counts, libraries, Blob, serializer, config}
use intellil.Tests.ObjectStore.{new_store, meta_of}
use intellil.Tests.Hnsw.{one_entry, one_entry-IsValid}

abbrev embed : String → List ℕ
embed s = 5 ∷ 6 ∷ []

abbrev cache : SemanticCacheManager ℕ (MemoryBackend Blob) (List ℕ)
cache = record {
  store = record new_store {
    metadata = record (init libraries 100 64 3) { hnsw = some one_entry };
  };
  threshold = 1;
  model_name = "model";
}

is_entry : (h : HnswIndex (List ℕ)) → cache.store.metadata.hnsw ≡ some h → one_entry ≡ h
is_entry h e = cc

readable :
    (x : String)
    → has one_entry.object_to_id x ≡ true
    → Readable libraries memory serializer config embed cache.store 20 x
unfolding get_semantic_entry get_object get_guarded might_exist init
readable x there =
    let (_, _, nothing, _, _, _, _, _) =
      get-init libraries memory serializer config memory-IsStorage new_store 100 64 3 x 20 in
    (none, nothing)

ready : IsReady libraries memory serializer config embed cache "hello" 20
unfolding has_dim init
ready = record {
  valid = record {
    bloom = (Membership.init-IsValid libraries.sha256 libraries.md5 64 3 "a").0;
    hnsw = λ h e. subst Labels.IsValid (is_entry h e) one_entry-IsValid;
  };
  fits =
      λ h e. subst (λ (i : HnswIndex (List ℕ)). has_dim i.dim (2 ∷ []) ≡ true) (is_entry h e) refl;
  readable = λ h x e there.
      readable x (
        subst (λ (i : HnswIndex (List ℕ)). has i.object_to_id x ≡ true) (sym (is_entry h e)) there);
}

get_or_generate-Answered_example :
    (matches : List (String × ℕ)) × (search_similar_prompts libraries cache.store.metadata
        (embed "hello")
        1
        1
      ≡ ok matches)
    × Answered libraries memory serializer config embed cache "hello" "hi"
        (meta_of semantic_cache)
        20
        matches
        (get_or_generate libraries memory serializer config embed cache "hello"
          (λ s. ok "hi")
          (meta_of semantic_cache)
          20)
get_or_generate-Answered_example =
    get_or_generate-Answered libraries memory serializer config embed cache "hello" "hi"
      (λ s. ok "hi") (meta_of semantic_cache) 20 ready refl
