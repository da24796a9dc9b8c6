-- ===== src/Embeddings/Answers.antt =====
-- The cache of src/l3store/embeddings/cache.py gives the answers of the service, and stays small.
use mathlib.Core.Path.{subst}
use intellil.Common.{
  ap, ◌∙◌, ◌++◌, In, In-append_left, In-append_right, ℕ, suc, passed, value_error, ◌==◌, ◌≤◌, leb,
  string_key, ◌≟◌, String, some, List, [], ◌∷◌, ◌≡◌, refl, sym, arith, map, ok, length,
  length-append, All, All-append, Option-cases, Bool-cases, inl, inr, if_pos, if_neg,
}
use intellil.Common.Dict.{Dict, get, put, pop, put_last}
use intellil.Embeddings.{
  CachedEmbeddingService, new_service, evict_if_needed, embed, embed_all, embed_batch, cache_key,
}

module _ {V : Type 0} where
  All-pop : (P : String × V → Type 0) (d : Dict String V) (q : String) → All P d → All P (pop d q)
  unfolding pop
  All-pop P [] q all = tt
  All-pop P ((j, v) ∷ d) q (here, all) = elim (j ≟ q) [
    | yes e ↦ rw (pop, if_pos (j ≟ q) e) (All-pop P d q all)
    | no n ↦ rw (pop, if_neg (j ≟ q) n) (here, All-pop P d q all)
  ]

  All-put :
      (P : String × V → Type 0) (d : Dict String V) (q : String) (w : V)
      → P (q, w)
      → All P d
      → All P (put d q w)
  unfolding put
  All-put P [] q w new all = (new, tt)
  All-put P ((j, v) ∷ d) q w new (here, all) = elim (j ≟ q) [
    | yes e ↦ rw (put, if_pos (j ≟ q) e) (subst (λ k. P (k, w)) (sym e) new, all)
    | no n ↦ rw (put, if_neg (j ≟ q) n) (here, All-put P d q w new all)
  ]

  All-get :
      (P : String × V → Type 0) (d : Dict String V) (q : String) (w : V)
      → All P d
      → get d q ≡ some w
      → P (q, w)
  unfolding get
  All-get P [] q w all found = cc
  All-get P ((j, v) ∷ d) q w (here, all) found = elim (j ≟ q) [
    | yes e ↦ subst P (ground arith) here
    | no n ↦ All-get P d q w all (ground arith)
  ]

  length-pop_le : (d : Dict String V) (q : String) → length (pop d q) ≤ length d
  unfolding pop
  length-pop_le [] q = omega arith
  length-pop_le ((j, v) ∷ d) q = ground (arith, length-pop_le d q)

  length-pop_lt :
      (d : Dict String V) (q : String) (w : V)
      → get d q ≡ some w
      → suc (length (pop d q)) ≤ length d
  unfolding pop get
  length-pop_lt [] q w found = cc
  length-pop_lt ((j, v) ∷ d) q w found = ground (arith, length-pop_le d q, length-pop_lt d q w)

module _ {V : Type 0} (service : String → V) (astype : V → V) (hexdigest : String → String)
    (asked : List String) where
  -- `_cache_key`
  abbrev key : String → String
  key = cache_key service astype hexdigest

  -- What an entry holds is the service's answer, as float32, for every text of its key that is asked for.
  abbrev pub Holds : String × V → Type 0
  Holds e = (text : String) → In text asked → key text ≡ e.0 → e.1 ≡ astype (service text)

  -- Texts that are asked for and have one key have one embedding.
  abbrev pub OneKey : Type 0
  OneKey =
      (t u : String)
      → In t asked
      → In u asked
      → key t ≡ key u
      → astype (service t) ≡ astype (service u)

  pub record IsValid (c : CachedEmbeddingService V) : Type 0 where
    pub right : All Holds c.cache
    pub small : length c.cache ≤ c.max_cache_size

  evict_if_needed_lem :
      (size : ℕ) (d : Dict String V)
      → All Holds d
      → All Holds (evict_if_needed service astype hexdigest size d)
        × (length (evict_if_needed service astype hexdigest size d) ≤ size)
  unfolding evict_if_needed
  evict_if_needed_lem size [] all = (tt, omega arith)
  evict_if_needed_lem size (e ∷ d) all = elim (Bool-cases (leb (length (e ∷ d)) size)) [
    | inl small ↦
        let state : evict_if_needed service astype hexdigest size (e ∷ d) ≡ e ∷ d =
          rw (evict_if_needed, small) refl in
        rw state (all, ground arith)
    | inr large ↦
        let state : evict_if_needed service astype hexdigest size (e ∷ d)
            ≡ evict_if_needed service astype hexdigest size d =
          rw (evict_if_needed, large) refl in
        rw state (evict_if_needed_lem size d all.1)
  ]

  -- Where texts of one key have one embedding, `embed` answers what the service answers, and keeps
  -- the cache valid: of right entries, and no more of them than its size.
  embed-service :
      (c : CachedEmbeddingService V) (text : String)
      → OneKey
      → In text asked
      → IsValid c
      → ((embed service astype hexdigest c text).0 ≡ astype (service text))
        × IsValid (embed service astype hexdigest c text).1
  unfolding embed
  embed-service c text apart here valid =
      let k = key text in
      let answer = astype (service text) in
      elim (Option-cases (get c.cache k)) [
        | inr (v, e) ↦
            let holds = All-get Holds c.cache k v valid.right e in
            let state : embed service astype hexdigest c text
                ≡ (v, record c { cache = put_last c.cache k v }) =
              rw (embed, e) refl in
            rw state (
              holds text here refl,
              record {
                right =
                    All-append Holds (pop c.cache k) ((k, v) ∷ [])
                      (All-pop Holds c.cache k valid.right) (holds, tt);
                small = omega (
                  arith,
                  length-append (pop c.cache k) ((k, v) ∷ []),
                  length-pop_lt c.cache k v e,
                  valid.small,
                );
              },
            )
        | inl e ↦
            let grown = put c.cache k answer in
            let (right, small) = evict_if_needed_lem c.max_cache_size grown (
              All-put Holds c.cache k answer (λ t i same. apart text t here i (sym same))
                valid.right) in
            let state : embed service astype hexdigest c text ≡ (
              answer,
              record c { cache = evict_if_needed service astype hexdigest c.max_cache_size grown },
            ) =
              rw (embed, e) refl in
            rw state (refl, record { right = right; small = small })
      ]

  embed_all-map :
      (c : CachedEmbeddingService V) (texts : List String)
      → OneKey
      → ((t : String) → In t texts → In t asked)
      → IsValid c
      → ((embed_all service astype hexdigest c texts).0 ≡ map (λ t. astype (service t)) texts)
        × IsValid (embed_all service astype hexdigest c texts).1
  unfolding embed_all
  embed_all-map c [] apart sub valid = (refl, valid)
  embed_all-map c (text ∷ texts) apart sub valid =
      let (here, good) = embed-service c text apart (sub text (inl refl)) valid in
      let (rest, later) =
        embed_all-map (embed service astype hexdigest c text).1 texts apart (λ t i. sub t (inr i))
          good in
      (rw (here, rest) refl, later)

  new_service-IsValid :
      (size : ℕ) (c : CachedEmbeddingService V)
      → new_service service astype hexdigest size ≡ ok c
      → IsValid c
  unfolding new_service
  new_service-IsValid size c built =
      let made : record { max_cache_size = size; cache = [] } ≡ c =
        cc ((passed value_error (size == 0) _ built).1) in
      subst IsValid made (record { right = tt; small = omega arith })

module _ {V : Type 0} (service : String → V) (astype : V → V) (hexdigest : String → String) where
  astype_all :
      (texts : List String)
      → ((v : V) → astype (astype v) ≡ astype v)
      → map astype (map (λ t. astype (service t)) texts) ≡ map (λ t. astype (service t)) texts
  astype_all [] same = refl
  astype_all (text ∷ texts) same = rw (same (service text), astype_all texts same) refl

  -- Where a float32 array is its own float32, and those of the texts asked for that have one key have
  -- one embedding, a cache that the constructor has built answers a batch of texts by the answers
  -- of the service as float32, whatever batch it has answered before, and holds no more entries
  -- than its size.
  pub embed_batch-service :
      (size : ℕ) (c : CachedEmbeddingService V) (earlier texts : List String)
      → ((v : V) → astype (astype v) ≡ astype v)
      → OneKey service astype hexdigest (earlier ++ texts)
      → new_service service astype hexdigest size ≡ ok c
      → let c' = (embed_batch service astype hexdigest c earlier).1 in
        ((embed_batch service astype hexdigest c' texts).0 ≡ map (λ t. astype (service t)) texts)
        × (length (embed_batch service astype hexdigest c' texts).1.cache
            ≤ (embed_batch service astype hexdigest c' texts).1.max_cache_size)
  unfolding embed_batch
  embed_batch-service size c earlier texts same apart built =
      let asked = earlier ++ texts in
      let before =
        (embed_all-map service astype hexdigest asked c earlier apart
          (λ t i. In-append_left t earlier texts i)
          (new_service-IsValid service astype hexdigest asked size c built)).1 in
      let (answers, after) =
        embed_all-map service astype hexdigest asked
          (embed_all service astype hexdigest c earlier).1 texts apart
          (λ t i. In-append_right t earlier texts i) before in
      (ap (map astype) answers ∙ astype_all texts same, after.small)
