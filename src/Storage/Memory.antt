-- ===== src/Storage/Memory.antt =====
-- `MemoryBackend`: two dictionaries. Its operations meet what the object store relies on.
use Prim.Native.Char.{code}
use text.Mathlib.Text.{starts_with}
use intellil.Common.{
  ◌<◌, string_key, String, Bool, true, false, Option, none, some, List, [], ◌∷◌, ◌≡◌, refl, sym, ap,
  ◌∙◌, arith, In, inl, inr, ◌≟◌, if_neg, Result, ok, keep, ltb, if◌then◌else◌, or_else,
}
use intellil.Common.Sort.{sort}
use intellil.Common.Sets.{member}
use intellil.Common.Dict.{Dict, keys, get, put, pop, has, get-put, get-pop}
use intellil.Storage.{Backend, IsStorage, default_delete_many}

pub record MemoryBackend (Bytes : Type 0) : Type 0 where
  pub objects : Dict String Bytes
  pub metadata : Dict String (Dict String String)

-- Python compares texts by the codes of their characters.
unfoldable pub le_text : String → String → Bool
le_text String.[] t = true
le_text (String.◌∷◌ c s) String.[] = false
le_text (String.◌∷◌ c s) (String.◌∷◌ d t) =
    let rest = le_text s t in
    if ltb (code c) (code d) then true else if ltb (code d) (code c) then false else rest

module _ {Bytes : Type 0} where
  abbrev pub empty : MemoryBackend Bytes
  empty = record { objects = []; metadata = [] }

  unfoldable pub put_object :
      MemoryBackend Bytes → String → Bytes → Option (Dict String String) → MemoryBackend Bytes
  put_object s k v metadata = record {
    objects = put s.objects k v;
    metadata = put s.metadata k (or_else metadata []);
  }

  unfoldable pub get_object : MemoryBackend Bytes → String → Option Bytes
  get_object s k = get s.objects k

  unfoldable pub delete_object : MemoryBackend Bytes → String → MemoryBackend Bytes × Bool
  delete_object s k =
      (record { objects = pop s.objects k; metadata = pop s.metadata k }, has s.objects k)

  unfoldable pub exists : MemoryBackend Bytes → String → Bool
  exists s k = has s.objects k

  unfoldable pub list_objects : MemoryBackend Bytes → String → List String
  list_objects s prefix = sort le_text (keep (λ k. starts_with k prefix) (keys s.objects))

  abbrev pub memory : Backend (MemoryBackend Bytes) Bytes
  memory = record {
    put = λ s k v. (ok tt, put_object s k v none);
    get = get_object;
    delete = delete_object;
    delete_many = default_delete_many delete_object;
    list_keys = list_objects;
  }

  get-delete_many :
      (s : MemoryBackend Bytes) (ks : List String) (j : String)
      → get_object (default_delete_many delete_object s ks).0 j
        ≡ (if member ks j then none else get_object s j)
  unfolding default_delete_many member get_object delete_object
  get-delete_many s [] j = refl
  get-delete_many s (k ∷ ks) j =
      get-delete_many (delete_object s k).0 ks j ∙ ground (arith, get-pop s.objects k j)

  delete_many_some :
      (s : MemoryBackend Bytes) (ks : List String) (k : String) {v : Bytes}
      → In k ks
      → get_object s k ≡ some v
      → 0 < (default_delete_many delete_object s ks).1
  unfolding default_delete_many delete_object get_object
  delete_many_some s [] k i h = absurd i
  delete_many_some s (q ∷ ks) k {v} i h = elim (q ≟ k) [
    | yes e ↦ ground (arith, ap (get s.objects) e)
    | no n ↦
        let later : In k ks = elim i [ inl e ↦ absurd (n (sym e)) | inr j ↦ j ] in
        let kept = get-pop s.objects q k ∙ if_neg (q ≟ k) n none (get s.objects k) ∙ h in
        ground (arith, delete_many_some (delete_object s q).0 ks k {v = v} later kept)
  ]

  -- The memory backend keeps what it is given: a read returns the last write of its key unless the
  -- key was deleted since, deletions answer whether there was an object, and no `put` fails.
  pub memory-IsStorage : IsStorage memory
  unfolding put_object get_object delete_object
  memory-IsStorage = record {
    get-put = λ s s' k j v e.
        ap (λ (r : Result (Unit {0}) × MemoryBackend Bytes). get r.1.objects j) (sym e)
        ∙ get-put s.objects k j v;
    get-put_failed = λ s s' k j v e h. cc;
    get-delete = λ s k j. get-pop s.objects k j;
    delete_answer = λ s k. refl;
    get-delete_many = get-delete_many;
    delete_many_some = delete_many_some;
  }
