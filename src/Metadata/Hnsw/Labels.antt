-- ===== src/Metadata/Hnsw/Labels.antt =====
-- The labels of an HNSW index: live ids and labels correspond one to one, free labels are not live,
-- and the index never hands out more than `max_elements`.
use intellil.Common.{
  ℕ, suc, ◌+◌, ◌≤◌, ◌<◌, nat_key, string_key, String, Bool, true, false, none, some, List, [], ◌∷◌,
  ◌++◌, ◌≡◌, ◌≢◌, ◌⊎◌, inl, inr, refl, sym, ap, ◌∙◌, arith, ok, raise, value_error, length, In,
  In-append, In-append_left, In-append_right, Distinct, Distinct-snoc, snoc-Distinct, length-append,
  Option-cases, Bool-cases, ◌≟◌, if◌then◌else◌,
}
use mathlib.Core.Path.{subst}
use native.Mathlib.Decide.{dec_lt}
use intellil.Common.Dict.{
  keys, get, pop, has, get-put, get-pop, get-put_self, get-put_ne, get-pop_self, get-pop_ne,
}
use intellil.Common.Counting.{length-put_new, length-pop, put-Distinct, pop-Distinct}
use intellil.Common.Float.{Float}
use intellil.Metadata.Hnsw.{
  HnswLib, HnswIndex, has_dim, pop_last, store_label, choose_label, add, remove, size,
}

pub record IsValid {Index : Type 0} (h : HnswIndex Index) : Type 0 where
  pub forth : (x : String) (i : ℕ) → get h.object_to_id x ≡ some i → get h.id_to_object i ≡ some x
  pub back : (x : String) (i : ℕ) → get h.id_to_object i ≡ some x → get h.object_to_id x ≡ some i
  pub used : (x : String) (i : ℕ) → get h.id_to_object i ≡ some x → i < h.next_id
  pub free : (i : ℕ) → In i h.free_ids → (get h.id_to_object i ≡ none) × (i < h.next_id)
  pub free_once : Distinct h.free_ids
  pub keys_once : Distinct (keys h.object_to_id)
  pub counted : length h.object_to_id + length h.free_ids ≡ h.next_id
  pub bounded : h.next_id ≤ h.max_elements

pop_last_lem : (i : ℕ) (ids : List ℕ) → (pop_last i ids).0 ++ (pop_last i ids).1 ∷ [] ≡ i ∷ ids
unfolding pop_last
pop_last_lem i [] = refl
pop_last_lem i (j ∷ ids) = ap (◌∷◌ i) (pop_last_lem j ids)

module _ {F Vector Index : Type 0} ⦃fl : Float F⦄ (lib : HnswLib F Vector Index)
    (h : HnswIndex Index) where
  -- A new id under a label that is not live.
  module _ (x : String) (v : Vector) (i : ℕ) (replace : Bool) (ids : List ℕ) (next : ℕ)
      (valid : IsValid h) (new : get h.object_to_id x ≡ none) (unused : get h.id_to_object i ≡ none)
      (below : i < next) (grows : h.next_id ≤ next) (ids_once : Distinct ids) (apart : ¬ In i ids)
      (old_ids : (j : ℕ) → In j ids → In j h.free_ids)
      (total : length h.object_to_id + suc (length ids) ≡ next) (room : next ≤ h.max_elements) where
    store_label-IsValid : IsValid (store_label lib h x v i replace ids next)
    store_label-IsValid = record {
      forth = λ y j e. elim (x ≟ y) [
        | yes p ↦
            let same : i ≡ j = ground (arith, get-put h.object_to_id x y i) in
            ground (arith, get-put h.id_to_object i j x)
        | no p ↦
            let old = valid.forth y j (sym (get-put_ne h.object_to_id x y i p) ∙ e) in
            get-put_ne h.id_to_object i j x (λ q. cc (unused, old, ap (get h.id_to_object) q)) ∙ old
      ];
      back = λ y j e. elim (i ≟ j) [
        | yes p ↦
            let same : x ≡ y = ground (arith, get-put h.id_to_object i j x) in
            ground (arith, get-put h.object_to_id x y i)
        | no p ↦
            let old = valid.back y j (sym (get-put_ne h.id_to_object i j x p) ∙ e) in
            get-put_ne h.object_to_id x y i (λ q. cc (new, old, ap (get h.object_to_id) q)) ∙ old
      ];
      used = λ y j e. elim (i ≟ j) [
        | yes p ↦ omega arith
        | no p ↦
            let low = valid.used y j (sym (get-put_ne h.id_to_object i j x p) ∙ e) in omega arith
      ];
      free = λ j m.
          let (gone, low) = valid.free j (old_ids j m) in
          (
            get-put_ne h.id_to_object i j x (λ q. apart (subst (λ k. In k ids) (sym q) m)) ∙ gone,
            omega arith,
          );
      free_once = ids_once;
      keys_once = put-Distinct h.object_to_id x i valid.keys_once;
      counted = omega (arith, length-put_new h.object_to_id x i new, total);
      bounded = room;
    }

  remove-IsValid :
      (x : String) (i : ℕ)
      → IsValid h
      → get h.object_to_id x ≡ some i
      → IsValid (record h {
        object_to_id = pop h.object_to_id x;
        id_to_object = pop h.id_to_object i;
        index = lib.mark_deleted h.index i;
        free_ids = h.free_ids ++ i ∷ [];
      })
  remove-IsValid x i valid live = record {
    forth = λ y j e. elim (x ≟ y) [
      | yes p ↦ ground (arith, get-pop h.object_to_id x y)
      | no p ↦
          let old = sym (get-pop_ne h.object_to_id x y p) ∙ e in
          let was = valid.forth y j old in
          get-pop_ne h.id_to_object i j (λ q. p (owner x y i j (valid.forth x i live) was q)) ∙ was
    ];
    back = λ y j e. elim (i ≟ j) [
      | yes p ↦ ground (arith, get-pop h.id_to_object i j)
      | no p ↦
          let old = sym (get-pop_ne h.id_to_object i j p) ∙ e in
          let was = valid.back y j old in
          get-pop_ne h.object_to_id x y (λ q. p (label x y i j live was q)) ∙ was
    ];
    used = λ y j e. elim (i ≟ j) [
      | yes p ↦ ground (arith, get-pop h.id_to_object i j)
      | no p ↦ valid.used y j (sym (get-pop_ne h.id_to_object i j p) ∙ e)
    ];
    free = λ j m. elim (In-append j h.free_ids (i ∷ []) m) [
      | inl old ↦
          let (gone, low) = valid.free j old in
          (ground (arith, get-pop h.id_to_object i j, gone), low)
      | inr (inl e) ↦ (
        ap (get (pop h.id_to_object i)) e ∙ get-pop_self h.id_to_object i,
        subst (λ k. k < h.next_id) (sym e) (valid.used x i (valid.forth x i live)),
      )
      | inr (inr never) ↦ absurd never
    ];
    free_once =
        Distinct-snoc h.free_ids i valid.free_once
          (λ m. cc ((valid.free i m).0, valid.forth x i live));
    keys_once = pop-Distinct h.object_to_id x valid.keys_once;
    counted = omega (
      arith,
      valid.counted,
      length-pop h.object_to_id x valid.keys_once live,
      length-append h.free_ids (i ∷ []),
    );
    bounded = valid.bounded;
  }
    where
      owner :
          (y z : String) (j k : ℕ)
          → get h.id_to_object j ≡ some y
          → get h.id_to_object k ≡ some z
          → j ≡ k
          → y ≡ z
      owner y z j k p q e = cc (p, q, ap (get h.id_to_object) e)

      label :
          (y z : String) (j k : ℕ)
          → get h.object_to_id y ≡ some j
          → get h.object_to_id z ≡ some k
          → y ≡ z
          → j ≡ k
      label y z j k p q e = cc (p, q, ap (get h.object_to_id) e)

-- What `add` returns, if it returns: the same index if the id is known, and else an index in which
-- the id has a label, there is one entry more, and no other id has changed its label.
abbrev pub Added : {Index : Type 0} → HnswIndex Index → String → HnswIndex Index → Type 0
Added h x h' =
    IsValid h'
    × (has h'.object_to_id x ≡ true)
    × (size h' ≡ (if has h.object_to_id x then size h else suc (size h)))
    × ((y : String) → x ≢ y → get h'.object_to_id y ≡ get h.object_to_id y)
    × (h'.max_elements ≡ h.max_elements)

module _ {F Vector Index : Type 0} ⦃fl : Float F⦄ (lib : HnswLib F Vector Index)
    (h : HnswIndex Index) where
  stored :
      (x : String) (v : Vector) (i : ℕ) (replace : Bool) (ids : List ℕ) (next : ℕ)
      → get h.object_to_id x ≡ none
      → IsValid (store_label lib h x v i replace ids next)
      → Added h x (store_label lib h x v i replace ids next)
  stored x v i replace ids next new valid = (
    valid,
    ground (arith, get-put_self h.object_to_id x i),
    ground (arith, length-put_new h.object_to_id x i new),
    λ y n. get-put_ne h.object_to_id x y i n,
    refl,
  )

  next_unused : IsValid h → get h.id_to_object h.next_id ≡ none
  next_unused valid = elim (Option-cases (get h.id_to_object h.next_id)) [
    | inl e ↦ e
    | inr (y, e) ↦ absurd (omega (arith, valid.used y h.next_id e))
  ]

  -- A new id with a vector of the right shape is stored while there is room.
  new_id-Added :
      (x : String) (v : Vector)
      → IsValid h
      → get h.object_to_id x ≡ none
      → size h < h.max_elements
      → has_dim h.dim (lib.shape v) ≡ true
      → (h' : HnswIndex Index) × (choose_label lib h x v h.free_ids ≡ ok h') × Added h x h'
  unfolding choose_label
  new_id-Added x v valid new room fits = choose h.free_ids refl
    where
      choose :
          (ids : List ℕ)
          → h.free_ids ≡ ids
          → (h' : HnswIndex Index) × (choose_label lib h x v ids ≡ ok h') × Added h x h'
      choose [] e =
          let none_free : length h.free_ids ≡ 0 = ap (λ (l : List ℕ). length l) e in
          (
            store_label lib h x v h.next_id false [] (h.next_id + 1),
            ground arith,
            stored x v h.next_id false [] (h.next_id + 1) new (
                store_label-IsValid lib h x v h.next_id false [] (h.next_id + 1) valid new
                  (next_unused valid) (omega arith) (omega arith) tt (λ i. i) (λ j i. absurd i)
                  (omega (arith, valid.counted)) (omega (arith, valid.counted))),
          )
      choose (i ∷ ids) e =
          let rest = (pop_last i ids).0 in
          let l = (pop_last i ids).1 in
          let split : rest ++ l ∷ [] ≡ h.free_ids = pop_last_lem i ids ∙ sym e in
          let (once, apart) = snoc-Distinct rest l (subst Distinct (sym split) valid.free_once) in
          let (unused, low) =
            valid.free l (subst (In l) split (In-append_right l rest (l ∷ []) (inl refl))) in
          let count = ap (λ (q : List ℕ). length q) split in
          (
            store_label lib h x v l true rest h.next_id,
            ground arith,
            stored x v l true rest h.next_id new (
                store_label-IsValid lib h x v l true rest h.next_id valid new unused low
                  (omega arith) once apart
                  (λ j m. subst (In j) split (In-append_left j rest (l ∷ []) m))
                  (omega (arith, valid.counted, count, length-append rest (l ∷ []))) valid.bounded),
          )

  choose_unfit :
      (x : String) (v : Vector)
      → has_dim h.dim (lib.shape v) ≡ false
      → (ids : List ℕ) → choose_label lib h x v ids ≡ raise value_error
  unfolding choose_label
  choose_unfit x v unfit [] = ground arith
  choose_unfit x v unfit (i ∷ ids) = ground arith

  choose_full :
      (x : String) (v : Vector) (ids : List ℕ)
      → h.free_ids ≡ ids
      → ¬ (size h < h.max_elements)
      → IsValid h
      → choose_label lib h x v ids ≡ raise value_error
  unfolding choose_label
  choose_full x v [] e full valid =
      let none_free : length h.free_ids ≡ 0 = ap (λ (l : List ℕ). length l) e in
      let all_used : h.max_elements ≤ h.next_id = omega (arith, valid.counted) in ground arith
  choose_full x v (i ∷ ids) e full valid =
      let some_free : length h.free_ids ≡ suc (length ids) = ap (λ (l : List ℕ). length l) e in
      absurd (full (omega (arith, valid.counted, valid.bounded)))

  -- On a valid index `add` goes through if the id is known, or if there is room below
  -- `max_elements` and the vector has the dimension of the index. It then leaves the index as it was,
  -- or adds the one entry and keeps the labels of the others. Otherwise it raises.
  pub add-Added :
      (x : String) (v : Vector)
      → IsValid h
      → ((h' : HnswIndex Index) × (add lib h x v ≡ ok h') × Added h x h')
        ⊎ (add lib h x v ≡ raise value_error)
          × (get h.object_to_id x ≡ none)
          × ((size h ≡ h.max_elements) ⊎ (has_dim h.dim (lib.shape v) ≡ false))
  unfolding add
  add-Added x v valid = elim (Option-cases (get h.object_to_id x)) [
    | inr (i, known) ↦ inl (h, ground arith, (valid, ground arith, ground arith, λ y n. refl, refl))
    | inl new ↦ elim (Bool-cases (has_dim h.dim (lib.shape v))) [
      | inr unfit ↦ inr (refuse x v new (choose_unfit x v unfit h.free_ids), new, inr unfit)
      | inl fits ↦ elim (dec_lt (size h) h.max_elements) [
        | yes room ↦
            let (h', stored', good) = new_id-Added x v valid new room fits in
            inl (h', ground arith, good)
        | no full ↦ inr (
          refuse x v new (choose_full x v h.free_ids refl full valid),
          new,
          inl (omega (arith, valid.counted, valid.bounded)),
        )
      ]
    ]
  ]
    where
      refuse :
          (x : String) (v : Vector)
          → get h.object_to_id x ≡ none
          → choose_label lib h x v h.free_ids ≡ raise value_error
          → add lib h x v ≡ raise value_error
      refuse x v new e = ground arith

  -- `remove` takes the entry of a known id away, answers whether it was known, and keeps the labels
  -- of the others.
  pub remove-Removed :
      (x : String)
      → IsValid h
      → IsValid (remove lib h x).0
        × ((remove lib h x).1 ≡ has h.object_to_id x)
        × (get (remove lib h x).0.object_to_id x ≡ none)
        × ((y : String) → x ≢ y → get (remove lib h x).0.object_to_id y ≡ get h.object_to_id y)
  unfolding remove
  remove-Removed x valid = elim (Option-cases (get h.object_to_id x)) [
    | inl absent ↦ rw (absent, remove) (valid, refl, absent, λ y n. refl)
    | inr (i, live) ↦
        rw (live, remove)
          (
            remove-IsValid lib h x i valid live,
            refl,
            get-pop_self h.object_to_id x,
            λ y n. get-pop_ne h.object_to_id x y n,
          )
  ]
