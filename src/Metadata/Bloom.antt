-- ===== src/Metadata/Bloom.antt =====
-- `BloomFilter` of src/l3store/metadata/bloom_filter.py. The digests of SHA-256 and MD5, read as
-- numbers, are parameters, and so is the real-valued estimate that `_optimal_size` rounds down.
-- An access outside the byte array raises.
pub mod Bits
pub mod Membership
use intellil.Common.{
  ℕ, zero, suc, ◌+◌, ◌*◌, ◌/◌, ◌%◌, ◌^◌, max, String, Bool, true, false, Option, none, some, List,
  [], ◌∷◌, Result, ok, raise, index_error, ◌>>=◌, get_elem?, set, replicate, ◌==◌, if◌then◌else◌,
}
use Prim.Native.Nat.{bit_and, bit_or}

pub record BloomFilter : Type 0 where
  pub size : ℕ
  pub num_hashes : ℕ
  pub bits : List ℕ
  pub count : ℕ

abbrev pub optimal_size : ℕ → ℕ
optimal_size estimate = max 64 estimate

abbrev pub optimal_hashes : ℕ → ℕ
optimal_hashes estimate = max 1 estimate

-- `__init__`, from the two estimates
unfoldable pub init : ℕ → ℕ → BloomFilter
init size_estimate hashes_estimate =
    let size = optimal_size size_estimate in
    record {
      size = size;
      num_hashes = optimal_hashes hashes_estimate;
      bits = replicate ((size + 7) / 8) 0;
      count = 0;
    }

-- `bits[i // 8] |= 1 << (i % 8)`
unfoldable pub set_bit : List ℕ → ℕ → Result (List ℕ)
set_bit bits i = elim (get_elem? bits (i / 8)) [
  | none ↦ raise index_error
  | some byte ↦ ok (set bits (i / 8) (bit_or byte (2 ^ (i % 8))))
]

unfoldable pub set_bits : List ℕ → List ℕ → Result (List ℕ)
set_bits bits [] = ok bits
set_bits bits (i ∷ indices) = do bits' ← set_bit bits i; set_bits bits' indices

-- The loop of `might_contain`.
unfoldable pub all_set : List ℕ → List ℕ → Result Bool
all_set bits [] = ok true
all_set bits (i ∷ indices) =
    let rest = all_set bits indices in
    elim (get_elem? bits (i / 8)) [
      | none ↦ raise index_error
      | some byte ↦ if bit_and byte (2 ^ (i % 8)) == 0 then ok false else rest
    ]

module _ (sha256 md5 : String → ℕ) where
  -- The indices for the rounds `i`, `i + 1`, ... of `range(num_hashes)`, `n` of them.
  unfoldable pub indices_from : ℕ → ℕ → ℕ → String → List ℕ
  indices_from size i zero key = []
  indices_from size i (suc n) key =
      ((sha256 key + i * md5 key) % size) ∷ indices_from size (suc i) n key

  abbrev pub get_indices : BloomFilter → String → List ℕ
  get_indices f key = indices_from f.size 0 f.num_hashes key

  unfoldable pub add : BloomFilter → String → Result BloomFilter
  add f key = do
    bits ← set_bits f.bits (get_indices f key)
    ok (record f { bits = bits; count = f.count + 1 })

  unfoldable pub might_contain : BloomFilter → String → Result Bool
  might_contain f key = all_set f.bits (get_indices f key)

  -- `add` for each of the keys
  unfoldable pub add_each : BloomFilter → List String → Result BloomFilter
  add_each f [] = ok f
  add_each f (key ∷ keys) = do f' ← add f key; add_each f' keys
