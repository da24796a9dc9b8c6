-- ===== src/Metadata/Hnsw/Results.antt =====
-- What `search` returns, whatever labels and distances hnswlib answers with.
use intellil.Common.{
  ℕ, zero, suc, ◌+◌, ◌≤◌, ◌<◌, min, nat_key, string_key, String, true, List, [], ◌∷◌, ◌≡◌, ap,
  arith, ok, length, leb, All, All-append, Option-cases, Bool-cases, inl, inr, is_some,
  length-append, ◌==◌,
}
use intellil.Common.Dict.{get, has}
use intellil.Common.Float.{Float}
use intellil.Metadata.Hnsw.{
  HnswLib, HnswIndex, has_dim, prepare_embedding, keep_hit, collect, search,
}
use intellil.Metadata.Hnsw.Labels.{IsValid}

module _ {F Vector Index : Type 0} ⦃fl : Float F⦄ (lib : HnswLib F Vector Index) where
  -- A result names an object of the index, and its similarity reaches the threshold.
  abbrev pub IsHit : HnswIndex Index → F → String × F → Type 0
  IsHit h threshold (x, s) = (has h.object_to_id x ≡ true) × (fl.le threshold s ≡ true)

  keep_hit-IsHit :
      (h : HnswIndex Index) (threshold : F) (results : List (String × F)) (x : String) (s : F)
      → has h.object_to_id x ≡ true
      → All (IsHit h threshold) results
      → All (IsHit h threshold) (keep_hit lib threshold results x s)
        × (length (keep_hit lib threshold results x s) ≤ length results + 1)
  unfolding keep_hit
  keep_hit-IsHit h threshold results x s live all = elim (Bool-cases (fl.le threshold s)) [
    | inl high ↦ rw high (
      All-append (IsHit h threshold) results ((x, s) ∷ []) all ((live, high), tt),
      omega (arith, length-append results ((x, s) ∷ [])),
    )
    | inr low ↦ rw low (all, omega arith)
  ]

  collect-IsHit :
      (h : HnswIndex Index) (k : ℕ) (threshold : F) (results : List (String × F))
      (found : List (ℕ × F))
      → IsValid h
      → All (IsHit h threshold) results
      → length results < k
      → All (IsHit h threshold) (collect lib h.id_to_object k threshold results found)
        × (length (collect lib h.id_to_object k threshold results found) ≤ k)
  unfolding collect
  collect-IsHit h k threshold results [] valid all short = (all, omega arith)
  collect-IsHit h k threshold results ((label, distance) ∷ found) valid all short =
      elim (Option-cases (get h.id_to_object label)) [
        | inl gone ↦ rw (gone, collect) (collect-IsHit h k threshold results found valid all short)
        | inr (x, live) ↦
            let s = fl.sub (fl.of_nat 1) distance in
            let results' = keep_hit lib threshold results x s in
            let (all', longer) =
              keep_hit-IsHit h threshold results x s (ap is_some (valid.back x label live)) all in
            elim (Bool-cases (leb k (length results'))) [
              | inl full ↦ rw (live, collect, full) (all', omega (arith, longer))
              | inr more ↦
                  rw (live, collect, more)
                    (collect-IsHit h k threshold results' found valid all' (ground arith))
            ]
      ]

  -- On a valid index, with a query of its dimension, `search` returns at most `k` results, each an
  -- object of the index whose similarity reaches the threshold, whatever hnswlib finds.
  pub search-IsHit :
      (h : HnswIndex Index) (v : Vector) (k : ℕ) (threshold : F)
      → IsValid h
      → has_dim h.dim (lib.shape v) ≡ true
      → (results : List (String × F)) × (search lib h v k threshold ≡ ok results)
        × All (IsHit h threshold) results
        × (length results ≤ k)
  unfolding search prepare_embedding
  search-IsHit h v zero threshold valid fits = ([], ground arith, tt, omega arith)
  search-IsHit h v (suc k) threshold valid fits = elim (Bool-cases (length h.id_to_object == 0)) [
    | inl empty ↦ ([], ground arith, tt, omega arith)
    | inr some_there ↦
        let found = lib.knn_query h.index v (min (suc k) (length h.id_to_object)) in
        let (all, short) = collect-IsHit h (suc k) threshold [] found valid tt (omega arith) in
        (collect lib h.id_to_object (suc k) threshold [] found, ground arith, all, short)
  ]
