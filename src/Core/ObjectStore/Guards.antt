-- ===== src/Core/ObjectStore/Guards.antt =====
-- Objects of the store behind the Bloom filter: what the helpers of `UnifiedObjectStore` in
-- src/l3store/core/object_store.py leave for the reads that follow them.
use intellil.Common.{
  ℕ, string_key, ◌≟◌, if_pos, String, Bool, true, false, Option, none, some, ◌≡◌, ◌≢◌, refl, ap,
  ◌∙◌, inl, inr, Result, ok, ◌>>=◌, Option-cases,
}
use intellil.Common.Float.{Float}
use intellil.Core.Enums.{
  ObjectType, kv_cache, rag, semantic_cache, agent_workflow, agent_step, tool_call_artifact,
  plan_cache, workflow_trace,
}
use intellil.Metadata.Bloom.Membership
use intellil.Metadata.Store
use intellil.Metadata.Store.{Libraries, MetadataStore}
use intellil.Metadata.Store.Existence
use intellil.Storage.{Backend, IsStorage}
use intellil.Storage.Keys.{meta_ext, object_key}
use intellil.Core.ObjectStore.{
  UnifiedObjectStore, put_pair, get_pair, delete_pair, put_and_index, get_guarded,
  delete_and_unindex, put_meta_object, get_meta_object, delete_meta_object, put_object, get_object,
  delete_object,
}
use intellil.Core.ObjectStore.Pairs.{get_pair-put_pair, delete_pair-get_pair}

module _ {F Vector Index B Bytes : Type 0} ⦃fl : Float F⦄ (libs : Libraries F Vector Index)
    (b : Backend B Bytes) (law : IsStorage b) where
  -- A read behind a filter that answers true.
  pub get_guarded_known :
      {T : Type 0} (st : UnifiedObjectStore B Index) (x : String) (found : Result (Option T))
      → Store.might_exist libs st.metadata x ≡ ok true
      → get_guarded libs b st x found ≡ found
  unfolding get_guarded
  get_guarded_known st x found known = rw (get_guarded, known) refl

  -- A read of nothing, behind a filter that does not raise.
  pub get_guarded_absent :
      {T : Type 0} (st : UnifiedObjectStore B Index) (x : String) (found : Result (Option T))
      (seen : Bool)
      → Store.might_exist libs st.metadata x ≡ ok seen
      → found ≡ ok none
      → get_guarded libs b st x found ≡ ok none
  unfolding get_guarded
  get_guarded_absent st x found true known nothing = rw (get_guarded, known) nothing
  get_guarded_absent st x found false known nothing = rw (get_guarded, known) refl

  -- What is put as a pair and indexed is read back.
  pub get_object-put_object :
      {T : Type 0} (st : UnifiedObjectStore B Index) (prefix x ext : String) (mv dv : Bytes)
      (index : MetadataStore Index → Result (Unit {0}) × MetadataStore Index)
      (deserialize : Bytes → Bytes → Result T)
      → object_key prefix x meta_ext ≢ object_key prefix x ext
      → (put_pair b st.backend (object_key prefix x meta_ext) mv (object_key prefix x ext) dv).0
        ≡ ok tt
      → (index st.metadata).0 ≡ ok tt
      → Store.might_exist libs (index st.metadata).1 x ≡ ok true
      → ((put_object libs b st prefix x ext mv dv index).0 ≡ ok x)
        × (get_object libs b
              (put_object libs b st prefix x ext mv dv index).1
              prefix
              x
              ext
              deserialize
            ≡ deserialize mv dv >>= (λ obj. ok (some obj)))
  unfolding put_object put_and_index get_object
  get_object-put_object st prefix x ext mv dv index deserialize ne written indexed known =
      let mk = object_key prefix x meta_ext in
      let dk = object_key prefix x ext in
      let pair = get_pair-put_pair b law st.backend mk dk mv dv ne written in
      let s' = (put_pair b st.backend mk mv dk dv).1 in
      let st' : UnifiedObjectStore B Index = record {
        backend = s';
        metadata = (index st.metadata).1;
      } in
      let state : put_object libs b st prefix x ext mv dv index ≡ (ok x, st') =
        rw (put_object, put_and_index, written, indexed) refl in
      rw state (
        refl,
        rw (get_object, pair.0)
            (get_guarded_known st' x (do obj ← deserialize mv dv; ok (some obj)) known),
      )

  -- What is put without data is read back.
  pub get_meta_object-put_meta_object :
      {T : Type 0} (st : UnifiedObjectStore B Index) (prefix x : String) (mv : Bytes)
      (type : ObjectType) (deserialize : Bytes → Result T)
      → Existence.IsValid st.metadata
      → (b.put st.backend (object_key prefix x meta_ext) mv).0 ≡ ok tt
      → ((put_meta_object libs b st prefix x mv type).0 ≡ ok x)
        × (get_meta_object libs b
              (put_meta_object libs b st prefix x mv type).1
              prefix
              x
              deserialize
            ≡ deserialize mv >>= (λ obj. ok (some obj)))
  unfolding put_meta_object put_and_index get_meta_object
  get_meta_object-put_meta_object st prefix x mv type deserialize valid written =
      let mk = object_key prefix x meta_ext in
      let s' = (b.put st.backend mk mv).1 in
      let (indexed, after) = Existence.on_object_added-Indexes libs st.metadata type x none valid in
      let st' : UnifiedObjectStore B Index = record {
        backend = s';
        metadata = (Store.on_object_added libs st.metadata type x none).1;
      } in
      let state : put_meta_object libs b st prefix x mv type ≡ (ok x, st') =
        rw (put_meta_object, put_and_index, written, indexed) refl in
      let found : b.get s' mk ≡ some mv =
        law.get-put st.backend s' mk mk mv (ap (λ r. (r, s')) written)
        ∙ if_pos (mk ≟ mk) refl (some mv) (b.get st.backend mk) in
      rw state (
        refl,
        rw (get_meta_object, found)
            (get_guarded_known st' x (do obj ← deserialize mv; ok (some obj)) after.1),
      )

  -- Removals leave the filter as it is.
  bloom-on_object_removed :
      (m : MetadataStore Index) (type : ObjectType) (x : String)
      → (Store.on_object_removed libs m type x).bloom ≡ m.bloom
  unfolding Store.on_object_removed
  bloom-on_object_removed m kv_cache x = refl
  bloom-on_object_removed m rag x = refl
  bloom-on_object_removed m semantic_cache x = elim (Option-cases m.hnsw) [
    | inl e ↦ rw (e, Store.on_object_removed) refl
    | inr (h, e) ↦ rw (e, Store.on_object_removed) refl
  ]
  bloom-on_object_removed m agent_workflow x = refl
  bloom-on_object_removed m agent_step x = refl
  bloom-on_object_removed m tool_call_artifact x = refl
  bloom-on_object_removed m plan_cache x = refl
  bloom-on_object_removed m workflow_trace x = refl

  -- After a deletion, whatever it answered, the filter still does not raise.
  seen_after_delete :
      (st : UnifiedObjectStore B Index) (type : ObjectType) (x : String) (s : B) (result : Bool)
      → Existence.IsValid st.metadata
      → (seen : Bool) × (Store.might_exist libs
            (delete_and_unindex libs b st type x (s, result)).0.metadata
            x
          ≡ ok seen)
  unfolding delete_and_unindex Store.might_exist
  seen_after_delete st type x s true valid =
      rw (bloom-on_object_removed st.metadata type x)
        (Membership.might_contain_total libs.sha256 libs.md5 st.metadata.bloom x valid.bloom)
  seen_after_delete st type x s false valid =
      Membership.might_contain_total libs.sha256 libs.md5 st.metadata.bloom x valid.bloom

  -- What was deleted as a pair is not found any more; the answer is true where it was there.
  pub get_object-delete_object :
      {T : Type 0} (st : UnifiedObjectStore B Index) (type : ObjectType) (prefix x ext : String)
      (deserialize : Bytes → Bytes → Result T)
      → Existence.IsValid st.metadata
      → (get_object libs b (delete_object libs b st type prefix x ext).0 prefix x ext deserialize
          ≡ ok none)
        × ((m : Bytes)
            → b.get st.backend (object_key prefix x meta_ext) ≡ some m
            → (delete_object libs b st type prefix x ext).1 ≡ true)
  unfolding delete_object get_object get_pair delete_and_unindex
  get_object-delete_object st type prefix x ext deserialize valid =
      let (gone, half_gone, kept, answer) = delete_pair-get_pair b law st.backend prefix x ext in
      let (s', result) = delete_pair b st.backend prefix x ext in
      let (seen, known) = seen_after_delete st type x s' result valid in
      (
        get_guarded_absent (delete_object libs b st type prefix x ext).0 x _ seen known
            (rw (get_pair, gone) refl),
        answer,
      )

  pub get_meta_object-delete_meta_object :
      {T : Type 0} (st : UnifiedObjectStore B Index) (type : ObjectType) (prefix x : String)
      (deserialize : Bytes → Result T)
      → Existence.IsValid st.metadata
      → get_meta_object libs b (delete_meta_object libs b st prefix x type).0 prefix x deserialize
        ≡ ok none
  unfolding delete_meta_object get_meta_object delete_and_unindex
  get_meta_object-delete_meta_object st type prefix x deserialize valid =
      let mk = object_key prefix x meta_ext in
      let (s', result) = b.delete st.backend mk in
      let (seen, known) = seen_after_delete st type x s' result valid in
      let gone : b.get s' mk ≡ none =
        law.get-delete st.backend mk mk ∙ if_pos (mk ≟ mk) refl none (b.get st.backend mk) in
      get_guarded_absent (delete_meta_object libs b st prefix x type).0 x _ seen known
        (rw gone refl)

  -- Behind a metadata store that has just been built, no object is found, whatever the backend holds.
  pub get_guarded-init :
      {T : Type 0} (s : B) (x : String) (found : Result (Option T)) (expected size hashes : ℕ)
      → get_guarded libs b
          (record { backend = s; metadata = Store.init libs expected size hashes })
          x
          found
        ≡ ok none
  unfolding get_guarded Store.might_exist Store.init
  get_guarded-init s x found expected size hashes =
      rw (get_guarded, (Membership.init-IsValid libs.sha256 libs.md5 size hashes x).1) refl
