-- ===== src/Tests/Hnsw.antt =====
-- An index with room for one vector.
use intellil.Common.{
  ℕ, ◌≤◌, string_key, nat_key, string_dec, String, false, none, List, [], ◌∷◌, ◌≡◌, ◌≢◌, ◌⊎◌, refl,
  arith, ok, raise, value_error, length, All,
}
use intellil.Common.Dict.{get, put, pop, has}
use intellil.Metadata.Hnsw
use intellil.Metadata.Hnsw.{
  HnswIndex, has_dim, pop_last, new_index, prepare_embedding, choose_label, add, remove, keep_hit,
  collect, search,
}
use intellil.Metadata.Hnsw.Labels.{IsValid, Added, add-Added, remove-Removed}
use intellil.Metadata.Hnsw.Results.{IsHit, search-IsHit}
use intellil.Tests.Fixtures.{counts, hnswlib}

abbrev empty_index : HnswIndex (List ℕ)
empty_index = record {
  dim = 2;
  max_elements = 1;
  index = [];
  id_to_object = [];
  object_to_id = [];
  free_ids = [];
  next_id = 0;
}

abbrev pub one_entry : HnswIndex (List ℕ)
one_entry = record empty_index {
  index = 0 ∷ [];
  id_to_object = (0, "a") ∷ [];
  object_to_id = ("a", 0) ∷ [];
  next_id = 1;
}

starts : new_index hnswlib 2 1 ≡ ok empty_index
unfolding string_dec get put pop has_dim pop_last new_index prepare_embedding choose_label add
    remove keep_hit collect search
starts = refl

full : add hnswlib one_entry "b" (5 ∷ 6 ∷ []) ≡ raise value_error
unfolding string_dec get put pop has_dim pop_last new_index prepare_embedding choose_label add
    remove keep_hit collect search
full = refl

finds : search hnswlib one_entry (5 ∷ 6 ∷ []) 3 1 ≡ ok (("a", 1) ∷ [])
unfolding string_dec get put pop has_dim pop_last new_index prepare_embedding choose_label add
    remove keep_hit collect search native.Mathlib.Decide.ℕ_discrete
finds = refl

pub one_entry-IsValid : IsValid one_entry
unfolding get
one_entry-IsValid = record {
  forth = λ x i e. ground arith;
  back = λ x i e. ground arith;
  used = λ x i e. ground arith;
  free = λ i in_free. absurd in_free;
  free_once = tt;
  keys_once = ((λ e. e), tt);
  counted = refl;
  bounded = omega arith;
}

add-Added_example :
    ((h' : HnswIndex (List ℕ)) × (add hnswlib one_entry "b" (5 ∷ 6 ∷ []) ≡ ok h')
      × Added one_entry "b" h')
    ⊎ (add hnswlib one_entry "b" (5 ∷ 6 ∷ []) ≡ raise value_error)
      × (get one_entry.object_to_id "b" ≡ none)
      × ((Hnsw.size one_entry ≡ one_entry.max_elements)
          ⊎ (has_dim one_entry.dim (hnswlib.shape (5 ∷ 6 ∷ [])) ≡ false))
add-Added_example = add-Added hnswlib one_entry "b" (5 ∷ 6 ∷ []) one_entry-IsValid

remove-Removed_example :
    IsValid (remove hnswlib one_entry "a").0
    × ((remove hnswlib one_entry "a").1 ≡ has one_entry.object_to_id "a")
    × (get (remove hnswlib one_entry "a").0.object_to_id "a" ≡ none)
    × ((y : String)
        → "a" ≢ y
        → get (remove hnswlib one_entry "a").0.object_to_id y ≡ get one_entry.object_to_id y)
remove-Removed_example = remove-Removed hnswlib one_entry "a" one_entry-IsValid

search-IsHit_example :
    (results : List (String × ℕ)) × (search hnswlib one_entry (5 ∷ 6 ∷ []) 3 1 ≡ ok results)
    × All (IsHit hnswlib one_entry 1) results
    × (length results ≤ 3)
unfolding has_dim
search-IsHit_example = search-IsHit hnswlib one_entry (5 ∷ 6 ∷ []) 3 1 one_entry-IsValid refl
