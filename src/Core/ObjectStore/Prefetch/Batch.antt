-- ===== src/Core/ObjectStore/Prefetch/Batch.antt =====
-- `prefetch_batch` of src/l3store/core/object_store.py against the single reads.
use intellil.Common.{
  string_key, ◌≟◌, holds, if_pos, if_neg, String, Bool, true, false, not, ◌&&◌, ◌||◌, Option, none,
  some, List, [], ◌∷◌, Result, ok, raise, if◌then◌else◌, ◌≡◌, ◌≢◌, refl, sym, ap, ◌∙◌, arith, inl,
  inr, Option-cases, Bool-cases, Error,
}
use mathlib.Core.Path.{subst}
use intellil.Common.Float.{Float}
use intellil.Common.Sets.{member, add, member-add}
use intellil.Common.Dict.{Dict, put, get, get-put_self, get-put_ne}
use intellil.Metadata.Store.{Libraries}
use intellil.Storage.{Backend}
use intellil.Core.ObjectStore.{UnifiedObjectStore, is_empty}
use intellil.Core.ObjectStore.Objects.{Serializer, ObjectsConfig}
use intellil.Core.ObjectStore.Prefetch.{
  Decision, Loaded, prefetch_one, prefetch_loop, prefetch_batch,
}

-- A decision that asks for `x`, which is not empty.
unfoldable pub asks_for : Decision → String → Bool
asks_for d x = elim d.object_id [ none ↦ false | some y ↦ not (is_empty y) && holds (y ≟ x) ]

asks_for_missing : (d : Decision) (x : String) → d.object_id ≡ none → asks_for d x ≡ false
unfolding asks_for
asks_for_missing d x e = rw (e, asks_for) refl

-- A decision that the loop skips asks for nothing that has not been seen.
asks_for_skipped :
    (d : Decision) (x y : String) (seen : List String)
    → d.object_id ≡ some y
    → (is_empty y || member seen y) ≡ true
    → member seen x ≡ false
    → asks_for d x ≡ false
unfolding asks_for
asks_for_skipped d x y seen e skip m = elim (y ≟ x) [
  | yes same ↦ rw (e, asks_for) (ground (arith, ap (member seen) same))
  | no n ↦ rw (e, asks_for) (ground arith)
]

module _ {F Json Vector Index B Bytes : Type 0} ⦃fl : Float F⦄ (libs : Libraries F Vector Index)
    (b : Backend B Bytes) (ser : Serializer F Json Vector Bytes) (cfg : ObjectsConfig)
    (st : UnifiedObjectStore B Index) (clock : String → F) where
  -- What a read answers for the first decision that asks for `x`.
  unfoldable pub fetched : List Decision → String → Result (Option (Loaded F Json Vector))
  fetched [] x = ok none
  fetched (d ∷ ds) x =
      let rest = fetched ds x in
      if asks_for d x then prefetch_one libs b ser cfg st x d.prefetch_type (clock x) else rest

  read-cases :
      (r : Result (Option (Loaded F Json Vector))) (P : Type 0)
      → ((l : Loaded F Json Vector) → r ≡ ok (some l) → P)
      → (r ≡ ok none → P)
      → ((e : Error) → r ≡ raise e → P)
      → P
  read-cases (ok (some l)) P a b c = a l refl
  read-cases (ok none) P a b c = b refl
  read-cases (raise e) P a b c = c e refl

  Follows :
      List String
      → Dict String (Loaded F Json Vector)
      → List Decision
      → Dict String (Loaded F Json Vector)
      → String
      → Type 0
  Follows seen results ds out x =
      (member seen x ≡ true → get out x ≡ get results x)
      × (member seen x ≡ false → get results x ≡ none → fetched ds x ≡ ok (get out x))

  -- The decision that the loop has just served, seen from the id that it asks for.
  Follows-same :
      (seen : List String) (results results' out : Dict String (Loaded F Json Vector))
      (d : Decision) (ds : List Decision) (x : String) (o : Option (Loaded F Json Vector))
      → d.object_id ≡ some x
      → (is_empty x || member seen x) ≡ false
      → prefetch_one libs b ser cfg st x d.prefetch_type (clock x) ≡ ok o
      → (get results x ≡ none → get results' x ≡ o)
      → Follows (add seen x) results' ds out x
      → Follows seen results (d ∷ ds) out x
  unfolding Follows fetched asks_for
  Follows-same seen results results' out d ds x o e take got here rest =
      let mem : member (add seen x) x ≡ true =
        member-add seen x x ∙ if_pos (x ≟ x) refl true (member seen x) in
      let asks : asks_for d x ≡ true = rw (e, asks_for) (ground arith) in
      (
        λ m. absurd (ground arith),
        λ m n. rw (fetched, asks, got) (ap ok (sym (rest.0 mem ∙ here n))),
      )

  -- The same, seen from another id.
  Follows-other :
      (seen : List String) (results results' out : Dict String (Loaded F Json Vector))
      (d : Decision) (ds : List Decision) (x y : String)
      → d.object_id ≡ some y
      → y ≢ x
      → get results' x ≡ get results x
      → Follows (add seen y) results' ds out x
      → Follows seen results (d ∷ ds) out x
  unfolding Follows fetched asks_for
  Follows-other seen results results' out d ds x y e ne same rest =
      let mem : member (add seen y) x ≡ member seen x =
        member-add seen y x ∙ if_neg (y ≟ x) ne true (member seen x) in
      let asks : asks_for d x ≡ false = rw (e, asks_for) (ground (arith, ne)) in
      (λ m. rest.0 (mem ∙ m) ∙ same, λ m n. rw (fetched, asks) (rest.1 (mem ∙ m) (same ∙ n)))

  Follows-step :
      (seen : List String) (results results' out : Dict String (Loaded F Json Vector))
      (d : Decision) (ds : List Decision) (x y : String) (o : Option (Loaded F Json Vector))
      → d.object_id ≡ some y
      → (is_empty y || member seen y) ≡ false
      → prefetch_one libs b ser cfg st y d.prefetch_type (clock y) ≡ ok o
      → (get results y ≡ none → get results' y ≡ o)
      → (y ≢ x → get results' x ≡ get results x)
      → ((z : String) → Follows (add seen y) results' ds out z)
      → Follows seen results (d ∷ ds) out x
  Follows-step seen results results' out d ds x y o e take got here there rest = elim (y ≟ x) [
    | yes same ↦
        subst (Follows seen results (d ∷ ds) out) same
          (Follows-same seen results results' out d ds y o e take got here (rest y))
    | no n ↦ Follows-other seen results results' out d ds x y e n (there n) (rest x)
  ]

  -- The loop, decision by decision.
  unread :
      (seen : List String) (results : Dict String (Loaded F Json Vector)) (d : Decision)
      (ds : List Decision)
      → d.object_id ≡ none
      → prefetch_loop libs b ser cfg st clock seen results (d ∷ ds)
        ≡ prefetch_loop libs b ser cfg st clock seen results ds
  unfolding prefetch_loop
  unread seen results d ds e = rw (prefetch_loop, e) refl

  skipped :
      (seen : List String) (results : Dict String (Loaded F Json Vector)) (d : Decision)
      (ds : List Decision) (y : String)
      → d.object_id ≡ some y
      → (is_empty y || member seen y) ≡ true
      → prefetch_loop libs b ser cfg st clock seen results (d ∷ ds)
        ≡ prefetch_loop libs b ser cfg st clock seen results ds
  unfolding prefetch_loop
  skipped seen results d ds y e skip = rw (prefetch_loop, e, skip) refl

  served :
      (seen : List String) (results : Dict String (Loaded F Json Vector)) (d : Decision)
      (ds : List Decision) (y : String) (l : Loaded F Json Vector)
      → d.object_id ≡ some y
      → (is_empty y || member seen y) ≡ false
      → prefetch_one libs b ser cfg st y d.prefetch_type (clock y) ≡ ok (some l)
      → prefetch_loop libs b ser cfg st clock seen results (d ∷ ds)
        ≡ prefetch_loop libs b ser cfg st clock (add seen y) (put results y l) ds
  unfolding prefetch_loop
  served seen results d ds y l e take got = rw (prefetch_loop, e, take, got) refl

  missed :
      (seen : List String) (results : Dict String (Loaded F Json Vector)) (d : Decision)
      (ds : List Decision) (y : String)
      → d.object_id ≡ some y
      → (is_empty y || member seen y) ≡ false
      → prefetch_one libs b ser cfg st y d.prefetch_type (clock y) ≡ ok none
      → prefetch_loop libs b ser cfg st clock seen results (d ∷ ds)
        ≡ prefetch_loop libs b ser cfg st clock (add seen y) results ds
  unfolding prefetch_loop
  missed seen results d ds y e take got = rw (prefetch_loop, e, take, got) refl

  failed :
      (seen : List String) (results out : Dict String (Loaded F Json Vector)) (d : Decision)
      (ds : List Decision) (y : String) (err : Error)
      → d.object_id ≡ some y
      → (is_empty y || member seen y) ≡ false
      → prefetch_one libs b ser cfg st y d.prefetch_type (clock y) ≡ raise err
      → prefetch_loop libs b ser cfg st clock seen results (d ∷ ds) ≢ ok out
  unfolding prefetch_loop
  failed seen results out d ds y err e take got returned =
      let next : prefetch_loop libs b ser cfg st clock seen results (d ∷ ds) ≡ raise err =
        rw (prefetch_loop, e, take, got) refl in
      cc

  follows :
      (seen : List String) (results out : Dict String (Loaded F Json Vector)) (ds : List Decision)
      → prefetch_loop libs b ser cfg st clock seen results ds ≡ ok out
      → (x : String) → Follows seen results ds out x
  unfolding prefetch_loop fetched Follows
  follows seen results out [] returned x = (λ m. cc, λ m n. cc)
  follows seen results out (d ∷ ds) returned x = elim (Option-cases d.object_id) [
    | inl e ↦
        let next : prefetch_loop libs b ser cfg st clock seen results ds ≡ ok out =
          sym (unread seen results d ds e) ∙ returned in
        let rest = follows seen results out ds next x in
        (rest.0, λ m n. rw (fetched, asks_for_missing d x e) (rest.1 m n))
    | inr (y, e) ↦ elim (Bool-cases (is_empty y || member seen y)) [
      | inl skip ↦
          let next : prefetch_loop libs b ser cfg st clock seen results ds ≡ ok out =
            sym (skipped seen results d ds y e skip) ∙ returned in
          let rest = follows seen results out ds next x in
          (rest.0, λ m n. rw (fetched, asks_for_skipped d x y seen e skip m) (rest.1 m n))
      | inr take ↦
          let one = prefetch_one libs b ser cfg st y d.prefetch_type (clock y) in
          read-cases one (Follows seen results (d ∷ ds) out x)
            (λ l got.
              Follows-step seen results (put results y l) out d ds x y (some l) e take got
                (λ n. get-put_self results y l) (get-put_ne results y x l)
                (follows (add seen y) (put results y l) out ds
                  (sym (served seen results d ds y l e take got) ∙ returned)))
            (λ got.
              Follows-step seen results results out d ds x y none e take got (λ n. n) (λ n. refl)
                (follows (add seen y) results out ds
                  (sym (missed seen results d ds y e take got) ∙ returned)))
            (λ err got. absurd (failed seen results out d ds y err e take got returned))
    ]
  ]

  -- Where `prefetch_batch` returns, its result has under each id what a read answers for the first
  -- decision that asks for the id, and nothing where no decision asks for it.
  pub prefetch_batch-fetched :
      (ds : List Decision) (out : Dict String (Loaded F Json Vector))
      → prefetch_batch libs b ser cfg st clock ds ≡ ok out
      → (x : String) → fetched ds x ≡ ok (get out x)
  unfolding prefetch_batch member get Follows
  prefetch_batch-fetched ds out returned x = (follows [] [] out ds returned x).1 refl refl
