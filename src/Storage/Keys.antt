-- ===== src/Storage/Keys.antt =====
-- The keys under which the store files the two halves of an object, `f"{prefix}{id}.meta.json"` and
-- `f"{prefix}{id}.data.npz"` or `.data.npy`.
use Prim.Native.String.{◌++◌}
use Prim.Native.Char.{code}
use text.Mathlib.TextLemmas.{nil-append, cons-append, append_cancel_left, append_cancel_right}
use intellil.Common.{ℕ, String, ◌≡◌, ◌≢◌, sym, ap, ◌∙◌, arith}

abbrev pub meta_ext : String
meta_ext = ".meta.json"

abbrev pub npz_ext : String
npz_ext = ".data.npz"

abbrev pub npy_ext : String
npy_ext = ".data.npy"

unfoldable pub object_key : String → String → String → String
object_key prefix x ext = (prefix ++ x) ++ ext

-- The code of the last character, or `d` if there is none.
last_code : ℕ → String → ℕ
last_code d String.[] = d
last_code d (String.◌∷◌ c s) = last_code (code c) s

last_code-append : (d : ℕ) (s t : String) → last_code d (s ++ t) ≡ last_code (last_code d s) t
unfolding last_code
last_code-append d String.[] t = rw nil-append
last_code-append d (String.◌∷◌ c s) t = rw cons-append (last_code-append (code c) s t)

-- Keys of one extension are equal only for equal ids.
pub object_key-injective :
    (prefix x y ext : String) → object_key prefix x ext ≡ object_key prefix y ext → x ≡ y
unfolding object_key
object_key-injective prefix x y ext e =
    append_cancel_left prefix x y (append_cancel_right (prefix ++ x) (prefix ++ y) ext e)

-- A metadata key is no data key.
pub meta-ne-npz : (prefix x y : String) → object_key prefix x meta_ext ≢ object_key prefix y npz_ext
unfolding object_key last_code
meta-ne-npz prefix x y e =
    let n =
      sym (last_code-append 0 (prefix ++ x) meta_ext)
      ∙ ap (last_code 0) e
      ∙ last_code-append 0 (prefix ++ y) npz_ext in
    omega (arith, n)

pub meta-ne-npy : (prefix x y : String) → object_key prefix x meta_ext ≢ object_key prefix y npy_ext
unfolding object_key last_code
meta-ne-npy prefix x y e =
    let n =
      sym (last_code-append 0 (prefix ++ x) meta_ext)
      ∙ ap (last_code 0) e
      ∙ last_code-append 0 (prefix ++ y) npy_ext in
    omega (arith, n)
