-- ===== src/Core/ObjectStore/Pairs.antt =====
-- The two halves of an object in the backend: `_put_pair`, `_get_pair` and `_delete_pair` of
-- src/l3store/core/object_store.py.
use intellil.Common.{
  string_key, ◌≟◌, if_pos, if_neg, String, true, none, some, [], ◌∷◌, ◌≡◌, ◌≢◌, refl, sym, ap, ◌∙◌,
  arith, ◌⊎◌, inl, inr, Result, ok, raise, Error,
}
use intellil.Common.Sets.{member}
use intellil.Storage.{Backend, IsStorage}
use intellil.Storage.Keys.{meta_ext, object_key}
use intellil.Core.ObjectStore.{put_pair, get_pair, delete_pair}

pub Result-cases : (r : Result (Unit {0})) → (r ≡ ok tt) ⊎ ((e : Error) × (r ≡ raise e))
Result-cases (ok t) = inl refl
Result-cases (raise e) = inr (e, refl)

module _ {B Bytes : Type 0} (b : Backend B Bytes) (law : IsStorage b) where
  -- Where `_put_pair` returns, `_get_pair` finds both halves, and other keys keep their objects.
  pub get_pair-put_pair :
      (s : B) (mk dk : String) (mv dv : Bytes)
      → mk ≢ dk
      → (put_pair b s mk mv dk dv).0 ≡ ok tt
      → (get_pair b (put_pair b s mk mv dk dv).1 mk dk ≡ some (mv, dv))
        × ((j : String) → mk ≢ j → dk ≢ j → b.get (put_pair b s mk mv dk dv).1 j ≡ b.get s j)
  unfolding put_pair get_pair
  get_pair-put_pair s mk dk mv dv ne returned =
      let first = b.put s mk mv in
      let second = b.put first.1 dk dv in
      elim (Result-cases first.0) [
        | inr (e, h) ↦ cc
        | inl h ↦ elim (Result-cases second.0) [
          | inr (e, h') ↦ cc
          | inl h' ↦
              let kept : (j : String) → mk ≢ j → dk ≢ j → b.get second.1 j ≡ b.get s j = λ j m d.
                law.get-put first.1 second.1 dk j dv (ap (λ r. (r, second.1)) h')
                ∙ if_neg (dk ≟ j) d (some dv) (b.get first.1 j)
                ∙ law.get-put s first.1 mk j mv (ap (λ r. (r, first.1)) h)
                ∙ if_neg (mk ≟ j) m (some mv) (b.get s j) in
              let meta : b.get second.1 mk ≡ some mv =
                law.get-put first.1 second.1 dk mk dv (ap (λ r. (r, second.1)) h')
                ∙ if_neg (dk ≟ mk) (λ e. ne (sym e)) (some dv) (b.get first.1 mk)
                ∙ law.get-put s first.1 mk mk mv (ap (λ r. (r, first.1)) h)
                ∙ if_pos (mk ≟ mk) refl (some mv) (b.get s mk) in
              let half : b.get second.1 dk ≡ some dv =
                law.get-put first.1 second.1 dk dk dv (ap (λ r. (r, second.1)) h')
                ∙ if_pos (dk ≟ dk) refl (some dv) (b.get first.1 dk) in
              let written : put_pair b s mk mv dk dv ≡ (ok tt, second.1) =
                rw (put_pair, h, h') refl in
              let found : get_pair b second.1 mk dk ≡ some (mv, dv) =
                rw (get_pair, meta, half) refl in
              rw (written, found) (refl, kept)
        ]
      ]

  -- Where `_put_pair` raises, keys but that of the metadata keep their objects, and either that one
  -- keeps its own too, or the roll-back has deleted it.
  pub put_pair_failed :
      (s : B) (mk dk : String) (mv dv : Bytes) (e : Error)
      → (put_pair b s mk mv dk dv).0 ≡ raise e
      → ((j : String) → mk ≢ j → b.get (put_pair b s mk mv dk dv).1 j ≡ b.get s j)
        × ((b.get (put_pair b s mk mv dk dv).1 mk ≡ b.get s mk)
            ⊎ (b.get (put_pair b s mk mv dk dv).1 mk ≡ none))
  unfolding put_pair
  put_pair_failed s mk dk mv dv e failed =
      let first = b.put s mk mv in
      let second = b.put first.1 dk dv in
      elim (Result-cases first.0) [
        | inr (e₁, h) ↦
            let state : put_pair b s mk mv dk dv ≡ (raise e₁, first.1) = rw (put_pair, h) refl in
            let kept : (j : String) → b.get first.1 j ≡ b.get s j =
              λ j. law.get-put_failed s first.1 mk j mv e₁ (ap (λ r. (r, first.1)) h) in
            rw state (λ j m. kept j, inl (kept mk))
        | inl h ↦ elim (Result-cases second.0) [
          | inl h' ↦ cc
          | inr (e₂, h') ↦
              let state : put_pair b s mk mv dk dv ≡ (raise e₂, (b.delete second.1 mk).0) =
                rw (put_pair, h, h') refl in
              rw state (
                λ j m.
                    law.get-delete second.1 mk j
                    ∙ if_neg (mk ≟ j) m none (b.get second.1 j)
                    ∙ law.get-put_failed first.1 second.1 dk j dv e₂ (ap (λ r. (r, second.1)) h')
                    ∙ law.get-put s first.1 mk j mv (ap (λ r. (r, first.1)) h)
                    ∙ if_neg (mk ≟ j) m (some mv) (b.get s j),
                inr (
                    law.get-delete second.1 mk mk ∙ if_pos (mk ≟ mk) refl none (b.get second.1 mk)),
              )
        ]
      ]

  -- The roll-back of `_put_pair`.
  pub put_pair_undone :
      (s : B) (mk dk : String) (mv dv : Bytes) (e : Error)
      → (b.put s mk mv).0 ≡ ok tt
      → (b.put (b.put s mk mv).1 dk dv).0 ≡ raise e
      → put_pair b s mk mv dk dv ≡ (raise e, (b.delete (b.put (b.put s mk mv).1 dk dv).1 mk).0)
  unfolding put_pair
  put_pair_undone s mk dk mv dv e first second = rw (put_pair, first, second) refl

  -- After `_delete_pair` neither half is found, other keys keep their objects, and the answer is
  -- true where the pair was there.
  pub delete_pair-get_pair :
      (s : B) (prefix x ext : String)
      → (b.get (delete_pair b s prefix x ext).0 (object_key prefix x meta_ext) ≡ none)
        × (b.get (delete_pair b s prefix x ext).0 (object_key prefix x ext) ≡ none)
        × ((j : String)
            → object_key prefix x meta_ext ≢ j
            → object_key prefix x ext ≢ j
            → b.get (delete_pair b s prefix x ext).0 j ≡ b.get s j)
        × ((m : Bytes)
            → b.get s (object_key prefix x meta_ext) ≡ some m
            → (delete_pair b s prefix x ext).1 ≡ true)
  unfolding delete_pair member
  delete_pair-get_pair s prefix x ext =
      let mk = object_key prefix x meta_ext in
      let dk = object_key prefix x ext in
      let after = law.get-delete_many s (mk ∷ dk ∷ []) in
      (
        after mk ∙ ground arith,
        after dk ∙ ground arith,
        λ j m d. after j ∙ ground (arith, m, d),
        λ m found. ground (arith, law.delete_many_some s (mk ∷ dk ∷ []) mk (inl refl) found),
      )
