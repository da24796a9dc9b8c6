-- ===== src/Policies/Latency/Profiles.antt =====
-- How a sample changes the profiles of the estimator in
-- src/l3store/policies/agent/tool_latency_estimator.py, and the tests of their keys.
use mathlib.Core.Path.{subst}
use intellil.Common.{
  ℕ, zero, suc, ◌-◌, ◌<◌, string_key, pair_key, option_key, ◌≟◌, holds, holds-yes, holds-no, if_pos,
  if_neg, String, Bool, true, false, not, ◌&&◌, Option, none, some, List, [], ◌∷◌, ◌++◌, ◌≡◌, ◌⊎◌,
  refl, sym, ap, ◌∙◌, arith, inl, inr, ok, length, length-append, or_else, Bool-cases, last,
  last-append, if◌then◌else◌, drop,
}
use intellil.Core.ObjectStore.{is_empty}
use intellil.Common.Float.{Float}
use intellil.Common.Dict.{get}
use intellil.Policies.Latency.{
  ToolLatencyKey, ToolLatencyStats, ToolLatencyEstimator, push_sample, percentile, updated,
  record_sample, normalize_optional_name, record_both,
}
use intellil.Policies.Latency.Samples.{IsRanking, record_sample_lem}

-- Whether the class is given, and is this one
abbrev pub has_class : (String → String) → Option String → String → Bool
has_class strip none c = false
has_class strip (some args) c = not (is_empty (strip args)) && holds (strip args ≟ c)

-- The samples and the statistics of a profile that has got the latencies `xs`: the samples are the last
-- of them, as many as fit; the statistics count all of them, and have the percentiles of the samples.
abbrev pub IsProfile :
    {F : Type 0} ⦃fl : Float F⦄
    → ℕ
    → List F
    → Option (List F)
    → Option (ToolLatencyStats F)
    → Type 0
IsProfile size xs samples stats =
    ((xs ≡ []) × (samples ≡ none) × (stats ≡ none))
    ⊎ ((s : ToolLatencyStats _) × (0 < length xs)
        × (samples ≡ some (last size xs))
        × (stats ≡ some s)
        × (s.count ≡ length xs)
        × (percentile (last size xs) 50 ≡ ok s.p50_latency_ms)
        × (percentile (last size xs) 95 ≡ ok s.p95_latency_ms))

module _ {F : Type 0} ⦃fl : Float F⦄ (ranks : IsRanking fl) where
  abbrev pub ProfileOf : ℕ → ToolLatencyEstimator F → ToolLatencyKey → List F → Type 0
  ProfileOf size e q xs = IsProfile size xs (get e.samples q) (get e.stats q)

  drop_nil : (n : ℕ) → drop {A = F} n [] ≡ []
  drop_nil zero = refl
  drop_nil (suc n) = refl

  samples_of :
      (size : ℕ) (xs : List F) (samples : Option (List F)) (stats : Option (ToolLatencyStats F))
      → IsProfile size xs samples stats
      → or_else samples [] ≡ last size xs
  samples_of size xs samples stats (inl (e, s, t)) = rw (e, s) (sym (drop_nil (0 - size)))
  samples_of size xs samples stats (inr (s, _, kept, _, _, _, _)) = rw kept refl

  count_of :
      (size : ℕ) (xs : List F) (samples : Option (List F)) (stats : Option (ToolLatencyStats F))
      (alpha : F) (key : ToolLatencyKey) (x p50 p95 : F)
      → IsProfile size xs samples stats
      → ((updated alpha key stats x p50 p95).count ≡ length (xs ++ x ∷ []))
        × ((updated alpha key stats x p50 p95).p50_latency_ms ≡ p50)
        × ((updated alpha key stats x p50 p95).p95_latency_ms ≡ p95)
  unfolding updated
  count_of size xs samples stats alpha key x p50 p95 (inl (e, s, t)) = rw (t, e) (refl, refl, refl)
  count_of size xs samples stats alpha key x p50 p95 (inr (s, _, _, there, count, _, _)) =
      rw there (omega (arith, count, length-append xs (x ∷ [])), refl, refl)

  -- One sample more for the profile of the key, and the same for the others.
  abbrev pub grown : ToolLatencyKey → ToolLatencyKey → F → List F → List F
  grown key q x xs = if holds (key ≟ q) then xs ++ x ∷ [] else xs

  record_sample-ProfileOf :
      (e : ToolLatencyEstimator F) (key q : ToolLatencyKey) (x : F) (xs : List F)
      → 0 < e.max_samples_per_profile
      → ProfileOf e.max_samples_per_profile e q xs
      → ProfileOf e.max_samples_per_profile (record_sample e key x).1 q (grown key q x xs)
  unfolding push_sample
  record_sample-ProfileOf e key q x xs room profile =
      let size = e.max_samples_per_profile in
      let (_, r) = record_sample_lem ranks e key x in
      elim (key ≟ q) [
        | no n ↦
            let samples = r.samples q ∙ if_neg (key ≟ q) n _ (get e.samples q) in
            let stats = r.stats q ∙ if_neg (key ≟ q) n _ (get e.stats q) in
            rw (holds-no (key ≟ q) n, samples, stats) profile
        | yes same ↦
            let profile' = subst (λ k. ProfileOf size e k xs) (sym same) profile in
            let pushed : push_sample size (or_else (get e.samples key) []) x
                ≡ last size (xs ++ x ∷ []) =
              ap (λ l. push_sample size l x) (samples_of size xs _ _ profile')
              ∙ last-append size xs x room in
            let samples =
              r.samples q ∙ if_pos (key ≟ q) same _ (get e.samples q) ∙ ap some pushed in
            let stats = r.stats q ∙ if_pos (key ≟ q) same _ (get e.stats q) in
            let (count, half, most) = count_of size xs _ _ e.ema_alpha key x r.p50 r.p95 profile' in
            rw (holds-yes (key ≟ q) same) (
              inr (
                updated e.ema_alpha key (get e.stats key) x r.p50 r.p95,
                omega (arith, length-append xs (x ∷ [])),
                samples,
                stats,
                count,
                ap (λ l. percentile l 50) (sym pushed) ∙ r.of_half ∙ ap ok (sym half),
                ap (λ l. percentile l 95) (sym pushed) ∙ r.of_most ∙ ap ok (sym most),
              ))
      ]

  -- What the two samples of a call leave.
  abbrev pub grown_both : String → Option String → ToolLatencyKey → F → List F → List F
  grown_both tool none q x xs = grown (tool, none) q x xs
  grown_both tool (some c) q x xs = grown (tool, some c) q x (grown (tool, none) q x xs)

  pub record_both-ProfileOf :
      (strip : String → String) (e : ToolLatencyEstimator F) (tool : String) (args : Option String)
      (q : ToolLatencyKey) (x : F) (xs : List F)
      → 0 < e.max_samples_per_profile
      → ProfileOf e.max_samples_per_profile e q xs
      → ProfileOf e.max_samples_per_profile
          (record_both strip e tool args x).1
          q
          (grown_both tool args q x xs)
        × ((record_both strip e tool args x).1.max_samples_per_profile ≡ e.max_samples_per_profile)
  unfolding record_both
  record_both-ProfileOf strip e tool none q x xs room profile = (
    record_sample-ProfileOf e (tool, none) q x xs room profile,
    (record_sample_lem ranks e (tool, none) x).1.same_size,
  )
  record_both-ProfileOf strip e tool (some c) q x xs room profile =
      let first = record_sample_lem ranks e (tool, none) x in
      let e' = (record_sample e (tool, none) x).1 in
      let same : e'.max_samples_per_profile ≡ e.max_samples_per_profile = first.1.same_size in
      let once = record_sample-ProfileOf e (tool, none) q x xs room profile in
      let twice =
        record_sample-ProfileOf e' (tool, some c) q x (grown (tool, none) q x xs)
          (omega (arith, room, same))
          (subst (λ n. ProfileOf n e' q (grown (tool, none) q x xs)) (sym same) once) in
      let state : record_both strip e tool (some c) x ≡ record_sample e' (tool, some c) x =
        rw (record_both, first.0) refl in
      rw state (
        subst
            (λ n.
              ProfileOf n (record_sample e' (tool, some c) x).1 q (grown_both tool (some c) q x xs))
            same twice,
        (record_sample_lem ranks e' (tool, some c) x).1.same_size ∙ same,
      )

abbrev pub same_key : ToolLatencyKey → ToolLatencyKey → Bool
same_key a b = holds (a ≟ b)

abbrev pub same_class : Option String → Option String → Bool
same_class a b = holds (a ≟ b)

-- Keys are compared by their parts.
pub key_test :
    (a b : String) (c d : Option String)
    → same_key (a, c) (b, d) ≡ (holds (a ≟ b) && same_class c d)
key_test a b c d = elim (a ≟ b) [
  | yes e ↦ elim (c ≟ d) [
    | yes e' ↦
        let both : same_key (a, c) (b, d) ≡ true =
          holds-yes (◌≟◌ {K = ToolLatencyKey} (a, c) (b, d)) (cc) in
        both ∙ sym (ap (λ t. t && same_class c d) (holds-yes (a ≟ b) e) ∙ holds-yes (c ≟ d) e')
    | no n ↦
        let apart : same_key (a, c) (b, d) ≡ false =
          holds-no (◌≟◌ {K = ToolLatencyKey} (a, c) (b, d))
            (λ h. n (ap (λ (p : ToolLatencyKey). p.1) h)) in
        apart ∙ sym (ap (λ t. t && same_class c d) (holds-yes (a ≟ b) e) ∙ holds-no (c ≟ d) n)
  ]
  | no n ↦
      let apart : same_key (a, c) (b, d) ≡ false =
        holds-no (◌≟◌ {K = ToolLatencyKey} (a, c) (b, d))
          (λ h. n (ap (λ (p : ToolLatencyKey). p.0) h)) in
      apart ∙ sym (ap (λ t. t && same_class c d) (holds-no (a ≟ b) n))
]

some_test : (a c : String) → same_class (some a) (some c) ≡ holds (a ≟ c)
some_test a c = elim (a ≟ c) [
  | yes e ↦
      let both : same_class (some a) (some c) ≡ true =
        holds-yes (◌≟◌ {K = Option String} (some a) (some c)) (ap some e) in
      both ∙ sym (holds-yes (a ≟ c) e)
  | no n ↦
      let apart : same_class (some a) (some c) ≡ false =
        holds-no (◌≟◌ {K = Option String} (some a) (some c)) (λ h. n (cc)) in
      apart ∙ sym (holds-no (a ≟ c) n)
]

pub none_test :
    (c : String) → (same_class none (some c) ≡ false) × (same_class (some c) none ≡ false)
none_test c = (
  holds-no (◌≟◌ {K = Option String} none (some c)) (λ e. cc),
  holds-no (◌≟◌ {K = Option String} (some c) none) (λ e. cc),
)

pub class_test :
    (strip : String → String) (args : Option String) (c : String)
    → has_class strip args c ≡ same_class (normalize_optional_name strip args) (some c)
unfolding normalize_optional_name
class_test strip none c = sym (none_test c).0
class_test strip (some a) c = elim (Bool-cases (is_empty (strip a))) [
  | inl e ↦ rw (normalize_optional_name, e) (sym (none_test c).0)
  | inr e ↦ rw (normalize_optional_name, e) (sym (some_test (strip a) c))
]
