-- ===== src/Metadata/Hnsw.antt =====
-- `HNSWIndex` of src/l3store/metadata/hnsw_index.py: the labels that it hands out to hnswlib, and the
-- filter over what hnswlib finds. hnswlib and numpy are an interface; their calls are taken to
-- return. Labels are natural numbers, and `self._free_ids.pop()` takes the last.
pub mod Labels
pub mod Results
use intellil.Common.{
  ℕ, zero, suc, ◌+◌, min, nat_key, string_key, String, Bool, true, false, not, ◌&&◌, ◌||◌, Option,
  none, some, List, [], ◌∷◌, ◌++◌, Result, ok, raise, value_error, ◌>>=◌, ◌>>◌, raise_if, length,
  leb, ◌==◌, if◌then◌else◌,
}
use intellil.Common.Dict.{Dict, get, put, pop, has}
use intellil.Common.Float.{Float}

-- What is used of hnswlib, and of the arrays of numpy.
pub record HnswLib (F Vector Index : Type 0) : Type 0 where
  pub shape : Vector → List ℕ
  pub empty_index : ℕ → ℕ → Index
  -- the vector, its label, and whether a deleted place is taken
  pub add_items : Index → Vector → ℕ → Bool → Index
  pub mark_deleted : Index → ℕ → Index
  -- the labels and distances of the nearest `k`
  pub knn_query : Index → Vector → ℕ → List (ℕ × F)

pub record HnswIndex (Index : Type 0) : Type 0 where
  pub dim : ℕ
  pub max_elements : ℕ
  pub index : Index
  pub id_to_object : Dict ℕ String
  pub object_to_id : Dict String ℕ
  pub free_ids : List ℕ
  pub next_id : ℕ

-- `_prepare_embedding`: one row of `dim` numbers, or its elements
unfoldable pub has_dim : ℕ → List ℕ → Bool
has_dim dim (n ∷ []) = n == dim
has_dim dim (m ∷ n ∷ []) = (m == 1) && (n == dim)
has_dim dim _ = false

-- `ids.pop()`, of a list that is not empty: all but the last, and the last
unfoldable pub pop_last : ℕ → List ℕ → List ℕ × ℕ
pop_last i [] = ([], i)
pop_last i (j ∷ ids) = let (rest, l) = pop_last j ids in (i ∷ rest, l)

module _ {F Vector Index : Type 0} ⦃fl : Float F⦄ (lib : HnswLib F Vector Index) where
  -- `__init__`
  unfoldable pub new_index : ℕ → ℕ → Result (HnswIndex Index)
  new_index dim max_elements = do
    raise_if (dim == 0) value_error
    raise_if (max_elements == 0) value_error
    ok (record {
      dim = dim;
      max_elements = max_elements;
      index = lib.empty_index dim max_elements;
      id_to_object = [];
      object_to_id = [];
      free_ids = [];
      next_id = 0;
    })

  unfoldable pub prepare_embedding : HnswIndex Index → Vector → Result (Unit {0})
  unfolding has_dim
  prepare_embedding h v = raise_if (not (has_dim h.dim (lib.shape v))) value_error

  -- The end of `add`, once the label is chosen.
  abbrev pub store_label :
      HnswIndex Index → String → Vector → ℕ → Bool → List ℕ → ℕ → HnswIndex Index
  store_label h x v i replace free next = record h {
    index = lib.add_items h.index v i replace;
    id_to_object = put h.id_to_object i x;
    object_to_id = put h.object_to_id x i;
    free_ids = free;
    next_id = next;
  }

  -- A free label, or else the next new one.
  unfoldable pub choose_label :
      HnswIndex Index → String → Vector → List ℕ → Result (HnswIndex Index)
  unfolding prepare_embedding pop_last
  choose_label h x v [] = do
    raise_if (leb h.max_elements h.next_id) value_error
    prepare_embedding h v
    ok (store_label h x v h.next_id false [] (h.next_id + 1))
  choose_label h x v (i ∷ ids) = do
    prepare_embedding h v
    ok (store_label h x v (pop_last i ids).1 true (pop_last i ids).0 h.next_id)

  unfoldable pub add : HnswIndex Index → String → Vector → Result (HnswIndex Index)
  add h x v = if has h.object_to_id x then ok h else choose_label h x v h.free_ids

  unfoldable pub remove : HnswIndex Index → String → HnswIndex Index × Bool
  remove h x = elim (get h.object_to_id x) [
    | none ↦ (h, false)
    | some i ↦ (
      record h {
        object_to_id = pop h.object_to_id x;
        id_to_object = pop h.id_to_object i;
        index = lib.mark_deleted h.index i;
        free_ids = h.free_ids ++ i ∷ [];
      },
      true,
    )
  ]

  -- `if similarity >= threshold: results.append(...)`
  unfoldable pub keep_hit : F → List (String × F) → String → F → List (String × F)
  keep_hit threshold results x s = if fl.le threshold s then results ++ (x, s) ∷ [] else results

  -- The loop of `search`, with the results so far.
  unfoldable pub collect :
      Dict ℕ String → ℕ → F → List (String × F) → List (ℕ × F) → List (String × F)
  collect objects k threshold results [] = results
  collect objects k threshold results ((label, distance) ∷ found) =
      let skip = collect objects k threshold results found in
      elim (get objects label) [
        | none ↦ skip
        | some x ↦
            let results' = keep_hit threshold results x (fl.sub (fl.of_nat 1) distance) in
            let rest = collect objects k threshold results' found in
            if leb k (length results') then results' else rest
      ]

  -- A `k` that is not positive is 0 here.
  unfoldable pub search : HnswIndex Index → Vector → ℕ → F → Result (List (String × F))
  search h v k threshold = if (k == 0) || (length h.id_to_object == 0) then ok [] else do
    prepare_embedding h v
    ok (
        collect h.id_to_object k threshold []
          (lib.knn_query h.index v (min k (length h.id_to_object))))

abbrev pub size : {Index : Type 0} → HnswIndex Index → ℕ
size h = length h.object_to_id
