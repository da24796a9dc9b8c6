-- ===== src/Metadata/Bloom/Membership.antt =====
-- A Bloom filter has no false negatives, and never leaves its byte array.
use intellil.Common.{
  ℕ, zero, suc, ◌+◌, ◌*◌, ◌/◌, ◌≤◌, ◌<◌, max, String, Bool, true, false, List, [], ◌∷◌, ◌≡◌, refl,
  sym, arith, ok, ◌>>=◌, length, All, All-map, In, inl, inr, replicate, length-replicate,
  All-replicate,
}
use mathlib.Core.Path.{subst}
use intellil.Metadata.Bloom.{
  BloomFilter, init, all_set, indices_from, get_indices, add, might_contain, add_each,
}
use intellil.Metadata.Bloom.Bits.{
  BitAt, Bytes, set_bits-Grows, all_set-true, all_set-zeros, true-all_set, all_set-total,
}

-- The array is made of bytes, and has a bit for each index.
pub record IsValid (f : BloomFilter) : Type 0 where
  pub bytes : Bytes f.bits
  pub sized : 0 < f.size
  pub room : f.size ≤ 8 * length f.bits

module _ (sha256 md5 : String → ℕ) where
  indices_below :
      (size bound i n : ℕ) (key : String)
      → 0 < size
      → size ≤ bound
      → All (λ j. j < bound) (indices_from sha256 md5 size i n key)
  unfolding indices_from
  indices_below size bound i zero key pos le = tt
  indices_below size bound i (suc n) key pos le =
      (omega arith, indices_below size bound (suc i) n key pos le)

  in_array :
      (f : BloomFilter) (key : String)
      → IsValid f
      → All (λ j. j < 8 * length f.bits) (get_indices sha256 md5 f key)
  in_array f key v = indices_below f.size (8 * length f.bits) 0 f.num_hashes key v.sized v.room

  -- The constructor builds a valid filter, whatever the estimates, that contains nothing.
  pub init-IsValid :
      (size_estimate hashes_estimate : ℕ) (key : String)
      → IsValid (init size_estimate hashes_estimate)
        × (might_contain sha256 md5 (init size_estimate hashes_estimate) key ≡ ok false)
  unfolding init might_contain
  init-IsValid size_estimate hashes_estimate key =
      let size = max 64 size_estimate in
      let n = (size + 7) / 8 in
      (
        record {
          bytes = All-replicate (λ b. b < 256) n 0 (omega arith);
          sized = omega arith;
          room = rw length-replicate (omega arith);
        },
        contains_nothing size n (max 1 hashes_estimate) (omega arith) (omega arith) (omega arith),
      )
    where
      contains_nothing :
          (size n h : ℕ)
          → 0 < size
          → size ≤ 8 * n
          → 0 < h
          → all_set (replicate n 0) (indices_from sha256 md5 size 0 h key) ≡ ok false
      contains_nothing size n zero pos le some_hash = absurd (omega arith)
      contains_nothing size n (suc h) pos le some_hash =
          unfold indices_from in
          all_set-zeros n _ (indices_from sha256 md5 size 1 h key) (omega arith)

  -- On a valid filter `add` does not raise; afterwards the filter is valid, contains the new key,
  -- still contains every key that it contained, and has counted one more.
  pub add-keeps :
      (f : BloomFilter) (key : String)
      → IsValid f
      → (f' : BloomFilter) × (add sha256 md5 f key ≡ ok f')
        × IsValid f'
        × (might_contain sha256 md5 f' key ≡ ok true)
        × ((other : String)
            → might_contain sha256 md5 f other ≡ ok true
            → might_contain sha256 md5 f' other ≡ ok true)
        × (f'.count ≡ f.count + 1)
  unfolding add might_contain
  add-keeps f key v =
      let (bits, wrote, g, all) =
        set_bits-Grows f.bits (get_indices sha256 md5 f key) v.bytes (in_array f key v) in
      (
        record f { bits = bits; count = f.count + 1 },
        rw (wrote, ◌>>=◌),
        record { bytes = g.bytes; sized = v.sized; room = rw g.same_length v.room },
        all_set-true bits (get_indices sha256 md5 f key) all,
        λ other h. all_set-true bits (get_indices sha256 md5 f other) (
            All-map (BitAt f.bits) (BitAt bits) g.keeps (get_indices sha256 md5 f other)
              (true-all_set f.bits (get_indices sha256 md5 f other) h)),
        refl,
      )

  -- `might_contain` does not raise on a valid filter.
  pub might_contain_total :
      (f : BloomFilter) (key : String)
      → IsValid f
      → (b : Bool) × (might_contain sha256 md5 f key ≡ ok b)
  unfolding might_contain
  might_contain_total f key v =
      all_set-total f.bits (get_indices sha256 md5 f key) (in_array f key v)

  -- No false negatives: from a valid filter, any keys can be added in any order, and afterwards the
  -- filter answers true for each of them and for each key that it contained before.
  pub add_each-contains :
      (f : BloomFilter) (keys : List String)
      → IsValid f
      → (f' : BloomFilter) × (add_each sha256 md5 f keys ≡ ok f')
        × IsValid f'
        × ((key : String) → In key keys → might_contain sha256 md5 f' key ≡ ok true)
        × ((key : String)
            → might_contain sha256 md5 f key ≡ ok true
            → might_contain sha256 md5 f' key ≡ ok true)
        × (f'.count ≡ f.count + length keys)
  unfolding add_each
  add_each-contains f [] v = (f, refl, v, λ key i. absurd i, λ key h. h, omega arith)
  add_each-contains f (k ∷ keys) v =
      let (f₁, first, v₁, here, kept, one) = add-keeps f k v in
      let (f₂, rest, v₂, there, kept', more) = add_each-contains f₁ keys v₁ in
      (
        f₂,
        rw (first, ◌>>=◌) rest,
        v₂,
        λ key i. elim i [
          | inl e ↦ kept' key (subst (λ q. might_contain sha256 md5 f₁ q ≡ ok true) (sym e) here)
          | inr j ↦ there key j
        ],
        λ key h. kept' key (kept key h),
        omega arith,
      )
