-- ===== src/Tests/Bloom.antt =====
-- A filter of 64 bits, with sums of character codes in place of the digests.
use intellil.Common.{ℕ, ◌+◌, String, true, List, [], ◌∷◌, ◌≡◌, ok, In, length}
use Prim.Native.String.{len}
use intellil.Metadata.Bloom.{
  BloomFilter, init, set_bit, set_bits, all_set, indices_from, add, might_contain, add_each,
}
use intellil.Metadata.Bloom.Membership.{IsValid, init-IsValid, add_each-contains}

program : Unit {0}
unfolding init set_bit set_bits all_set indices_from add might_contain add_each
program = tt

abbrev digest : String → ℕ
digest s = len s + 61

abbrev step : String → ℕ
step s = len s + 3

abbrev fresh : BloomFilter
fresh = init 0 3

abbrev two_keys : List String
two_keys = "kv" ∷ "chunk" ∷ []

fresh-IsValid : IsValid fresh
fresh-IsValid = (init-IsValid digest step 0 3 "kv").0

add_each-contains_example :
    (f' : BloomFilter) × (add_each digest step fresh two_keys ≡ ok f')
    × IsValid f'
    × ((key : String) → In key two_keys → might_contain digest step f' key ≡ ok true)
    × ((key : String)
        → might_contain digest step fresh key ≡ ok true
        → might_contain digest step f' key ≡ ok true)
    × (f'.count ≡ fresh.count + length two_keys)
add_each-contains_example = add_each-contains digest step fresh two_keys fresh-IsValid
