-- ===== src/Metadata/Bloom/Bits.antt =====
-- Setting a bit of a byte array sets that bit, keeps those that were set, and stays within bytes.
use intellil.Common.{
  ℕ, zero, suc, ◌*◌, ◌/◌, ◌%◌, ◌^◌, ◌<◌, Bool, true, false, not, ◌&&◌, ◌||◌, some, List, [], ◌∷◌,
  ◌≡◌, refl, sym, ap, ◌∙◌, arith, ok, ◌>>=◌, get_elem?, set, length, All, ltb, ◌==◌,
  get_elem?-total, get_elem?-set, get_elem?-replicate, replicate, All-get_elem?, All-set,
  length-set, Option-cases, if_pos, if_neg, Bool-cases, inl, inr,
}
use Prim.Native.Nat.{bit_and, bit_or}
use native.Mathlib.Decide.{ℕ_discrete}
use mathlib.Core.Path.{subst}
use intellil.Metadata.Bloom.{set_bit, set_bits, all_set}

-- A test at every number under a bound, by evaluation.
passes : (ℕ → Bool) → ℕ → Bool
passes test zero = true
passes test (suc bound) = passes test bound && test bound

passes_at : (test : ℕ → Bool) (bound i : ℕ) → i < bound → passes test bound ≡ true → test i ≡ true
unfolding passes
passes_at test zero i below all = elim below [ ]
passes_at test (suc bound) i below all = ground (arith, passes_at test bound i)

-- What one write does to one byte, at the bit `j`, and at any other bit `k`.
abbrev byte_fact : ℕ → ℕ → ℕ → Bool
byte_fact b j k =
    ltb (bit_or b (2 ^ j)) 256
    && not (bit_and (bit_or b (2 ^ j)) (2 ^ j) == 0)
    && ((bit_and b (2 ^ k) == 0) || not (bit_and (bit_or b (2 ^ j)) (2 ^ k) == 0))

byte_table : passes (λ b. passes (λ j. passes (byte_fact b j) 8) 8) 256 ≡ true
unfolding passes
byte_table = refl

byte_laws : (b j k : ℕ) → b < 256 → j < 8 → k < 8 → byte_fact b j k ≡ true
byte_laws b j k hb hj hk =
    let row = passes_at (λ c. passes (λ i. passes (byte_fact c i) 8) 8) 256 b hb byte_table in
    passes_at (byte_fact b j) 8 k hk (passes_at (λ i. passes (byte_fact b i) 8) 8 j hj row)

-- The bit `i` is set.
abbrev pub BitAt : List ℕ → ℕ → Type 0
BitAt bits i =
    (b : ℕ) × (get_elem? bits (i / 8) ≡ some b) × ((bit_and b (2 ^ (i % 8)) == 0) ≡ false)

abbrev pub Bytes : List ℕ → Type 0
Bytes bits = All (λ b. b < 256) bits

-- What a write into a byte array leaves: bytes, as many, and no bit lost.
pub record Grows (bits bits' : List ℕ) : Type 0 where
  pub bytes : Bytes bits'
  pub same_length : length bits' ≡ length bits
  pub keeps : (k : ℕ) → BitAt bits k → BitAt bits' k

set_bit-Grows :
    (bits : List ℕ) (i : ℕ)
    → Bytes bits
    → i < 8 * length bits
    → (bits' : List ℕ) × (set_bit bits i ≡ ok bits') × Grows bits bits' × BitAt bits' i
unfolding set_bit
set_bit-Grows bits i all lt =
    let (b, at) = get_elem?-total bits (i / 8) (omega arith) in
    let small = All-get_elem? (λ b. b < 256) bits (i / 8) all at in
    let law = λ (k : ℕ). byte_laws b (i % 8) (k % 8) small (omega arith) (omega arith) in
    let b' = bit_or b (2 ^ (i % 8)) in
    (
      set bits (i / 8) b',
      ground arith,
      record {
        bytes = All-set (λ b. b < 256) bits (i / 8) b' all (ground (arith, law i));
        same_length = length-set bits (i / 8) b';
        keeps = λ k (c, found, is_set). elim (ℕ_discrete (i / 8) (k / 8)) [
          | yes e ↦
              let same : c ≡ b = cc (found, at, ap (get_elem? bits) e) in
              (
                b',
                get_elem?-set bits (i / 8) (k / 8) b' found
                    ∙ if_pos (ℕ_discrete (i / 8) (k / 8)) e (some b') (some c),
                ground (arith, law k, same, is_set),
              )
          | no n ↦ (
            c,
            get_elem?-set bits (i / 8) (k / 8) b' found
                ∙ if_neg (ℕ_discrete (i / 8) (k / 8)) n (some b') (some c),
            is_set,
          )
        ];
      },
      (
        b',
        get_elem?-set bits (i / 8) (i / 8) b' at
            ∙ if_pos (ℕ_discrete (i / 8) (i / 8)) refl (some b') (some b),
        ground (arith, law i),
      ),
    )

Grows-refl : (bits : List ℕ) → Bytes bits → Grows bits bits
Grows-refl bits h = record { bytes = h; same_length = refl; keeps = λ k b. b }

pub Grows-trans : {a b c : List ℕ} → Grows a b → Grows b c → Grows a c
Grows-trans g h = record {
  bytes = h.bytes;
  same_length = h.same_length ∙ g.same_length;
  keeps = λ k b. h.keeps k (g.keeps k b);
}

-- Indices inside the array can all be set, and are set afterwards.
pub set_bits-Grows :
    (bits indices : List ℕ)
    → Bytes bits
    → All (λ i. i < 8 * length bits) indices
    → (bits' : List ℕ) × (set_bits bits indices ≡ ok bits')
      × Grows bits bits'
      × All (BitAt bits') indices
unfolding set_bits
set_bits-Grows bits [] h all = (bits, refl, Grows-refl bits h, tt)
set_bits-Grows bits (i ∷ indices) h (lt, all) =
    let (b₁, wrote, g₁, here) = set_bit-Grows bits i h lt in
    let (b₂, rest, g₂, there) =
      set_bits-Grows b₁ indices g₁.bytes
        (subst (λ n. All (λ j. j < 8 * n) indices) (sym g₁.same_length) all) in
    (b₂, rw (wrote, ◌>>=◌) rest, Grows-trans g₁ g₂, (g₂.keeps i here, there))

-- The test answers true exactly when every index is set.
pub all_set-true :
    (bits indices : List ℕ) → All (BitAt bits) indices → all_set bits indices ≡ ok true
unfolding all_set
all_set-true bits [] h = refl
all_set-true bits (i ∷ indices) ((b, found, is_set), h) =
    ground (arith, all_set-true bits indices h)

pub true-all_set :
    (bits indices : List ℕ) → all_set bits indices ≡ ok true → All (BitAt bits) indices
unfolding all_set
true-all_set bits [] h = tt
true-all_set bits (i ∷ indices) h = elim (Option-cases (get_elem? bits (i / 8))) [
  | inl e ↦ cc (rw (e, all_set) at h)
  | inr (b, e) ↦ elim (Bool-cases (bit_and b (2 ^ (i % 8)) == 0)) [
    | inl z ↦ cc (rw (e, all_set, z) at h)
    | inr s ↦ ((b, e, s), true-all_set bits indices (rw (e, all_set, s) at h))
  ]
]

-- Inside the array the test does not raise.
pub all_set-total :
    (bits indices : List ℕ)
    → All (λ i. i < 8 * length bits) indices
    → (b : Bool) × (all_set bits indices ≡ ok b)
unfolding all_set
all_set-total bits [] h = (true, refl)
all_set-total bits (i ∷ indices) (lt, h) =
    let (b, found) = get_elem?-total bits (i / 8) (omega arith) in
    let (r, rest) = all_set-total bits indices h in
    elim (Bool-cases (bit_and b (2 ^ (i % 8)) == 0)) [
      | inl z ↦ (false, ground arith)
      | inr s ↦ (r, ground arith)
    ]

clear_table : passes (λ j. bit_and 0 (2 ^ j) == 0) 8 ≡ true
unfolding passes
clear_table = refl

cleared : (j : ℕ) → j < 8 → (bit_and 0 (2 ^ j) == 0) ≡ true
cleared j below = passes_at (λ i. bit_and 0 (2 ^ i) == 0) 8 j below clear_table

-- In an array of zeros the test fails at its first index.
pub all_set-zeros :
    (n i : ℕ) (indices : List ℕ) → i < 8 * n → all_set (replicate n 0) (i ∷ indices) ≡ ok false
unfolding all_set
all_set-zeros n i indices lt =
    ground
      (arith, get_elem?-replicate {A = ℕ} n (i / 8) 0 (omega arith), cleared (i % 8) (omega arith))
