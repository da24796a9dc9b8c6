-- ===== src/Policies/Latency/Validity.antt =====
-- The samples and the statistics of the estimator in
-- src/l3store/policies/agent/tool_latency_estimator.py stay in step.
use mathlib.Core.Path.{subst}
use intellil.Common.{
  ℕ, ◌<◌, min, string_key, pair_key, option_key, ◌≟◌, if_pos, if_neg, String, false, Option, none,
  some, List, [], ◌≡◌, refl, sym, ap, ◌∙◌, arith, inl, inr, ok, raise, value_error, length, or_else,
  Option-cases, Bool-cases, ◌↔◌, passed, not, ◌&&◌, ◌==◌,
}
use intellil.Core.ObjectStore.{is_empty}
use intellil.Common.Float.{Float}
use intellil.Common.Dict.{Dict, get}
use intellil.Policies.Latency.{
  ToolLatencyKey, ToolLatencyStats, ToolLatencyEstimator, init, push_sample, percentile, updated,
  record_sample, normalize_name, normalize_optional_name, record_both, record_latency,
}
use intellil.Policies.Latency.Samples.{IsRanking, record_sample_lem, length-push_sample}

-- A profile has as many samples as were counted, but no more than fit, and its
-- percentiles are those of these samples.
abbrev pub Matches : {F : Type 0} ⦃fl : Float F⦄ → ℕ → List F → ToolLatencyStats F → Type 0
Matches size xs s =
    (0 < s.count)
    × (length xs ≡ min size s.count)
    × (percentile xs 50 ≡ ok s.p50_latency_ms)
    × (percentile xs 95 ≡ ok s.p95_latency_ms)

-- Samples and statistics have the same keys, and match.
pub record IsValid {F : Type 0} ⦃fl : Float F⦄ (e : ToolLatencyEstimator F) : Type 0 where
  pub room : 0 < e.max_samples_per_profile
  pub profiles :
      (q : ToolLatencyKey) (xs : List F)
      → get e.samples q ≡ some xs
      → (s : ToolLatencyStats F) × (get e.stats q ≡ some s) × Matches e.max_samples_per_profile xs s
  pub known :
      (q : ToolLatencyKey) (s : ToolLatencyStats F)
      → get e.stats q ≡ some s
      → (xs : List F) × (get e.samples q ≡ some xs)

-- A new estimator has no profiles, and fits one sample at least.
pub init-IsValid :
    {F : Type 0} ⦃fl : Float F⦄ {e : ToolLatencyEstimator F} (default_latency alpha : F) (size : ℕ)
    → init default_latency alpha size ≡ ok e
    → IsValid e
unfolding init get
init-IsValid ⦃fl⦄ {e} default_latency alpha size made =
    let (_, made) = passed value_error (fl.lt default_latency (fl.of_nat 0)) _ made in
    let (_, made) =
      passed value_error (not (fl.lt (fl.of_nat 0) alpha && fl.le alpha (fl.of_nat 1))) _ made in
    let (large, made) = passed value_error (size == 0) _ made in
    let same_size : size ≡ e.max_samples_per_profile = cc in
    let no_samples : [] ≡ e.samples = cc in
    let no_stats : [] ≡ e.stats = cc in
    record {
      room = ground arith;
      profiles =
          λ q xs found. cc (found, ap (λ (d : Dict ToolLatencyKey (List _)). get d q) no_samples);
      known = λ q s found.
          cc (found, ap (λ (d : Dict ToolLatencyKey (ToolLatencyStats _)). get d q) no_stats);
    }

module _ {F : Type 0} ⦃fl : Float F⦄ (ranks : IsRanking fl) where
  -- The samples and the statistics of one key.
  abbrev Fits : ℕ → List F → Option (ToolLatencyStats F) → Type 0
  Fits size xs none = xs ≡ []
  Fits size xs (some s) = Matches size xs s

  updated-Matches :
      (size : ℕ) (alpha : F) (key : ToolLatencyKey) (xs : List F) (o : Option (ToolLatencyStats F))
      (x p50 p95 : F)
      → 0 < size
      → Fits size xs o
      → percentile (push_sample size xs x) 50 ≡ ok p50
      → percentile (push_sample size xs x) 95 ≡ ok p95
      → Matches size (push_sample size xs x) (updated alpha key o x p50 p95)
  unfolding updated
  updated-Matches size alpha key xs none x p50 p95 room fits half most =
      let e : length xs ≡ 0 = ap (λ (l : List F). length l) fits in
      (omega arith, omega (arith, length-push_sample size xs x), half, most)
  updated-Matches size alpha key xs (some s) x p50 p95 room (seen, long, _, _) half most =
      (omega arith, omega (arith, length-push_sample size xs x), half, most)

  fits :
      (e : ToolLatencyEstimator F) (q : ToolLatencyKey)
      → IsValid e
      → Fits e.max_samples_per_profile (or_else (get e.samples q) []) (get e.stats q)
  fits e q valid = elim (Option-cases (get e.stats q)) [
    | inl no_stats ↦ elim (Option-cases (get e.samples q)) [
      | inl no_samples ↦ rw (no_stats, no_samples) refl
      | inr (xs, found) ↦ let (s, there, more) = valid.profiles q xs found in absurd (cc)
    ]
    | inr (s, found) ↦
        let (xs, there) = valid.known q s found in
        let (s', same, good) = valid.profiles q xs there in
        let eq : s' ≡ s = cc in
        rw (found, there) (subst (Matches e.max_samples_per_profile xs) eq good)
  ]

  -- `_record` keeps the profiles matching.
  record_sample-IsValid :
      (e : ToolLatencyEstimator F) (key : ToolLatencyKey) (x : F)
      → IsValid e
      → IsValid (record_sample e key x).1
  record_sample-IsValid e key x valid =
      let size = e.max_samples_per_profile in
      let (returned, r) = record_sample_lem ranks e key x in
      let e' = (record_sample e key x).1 in
      let good =
        updated-Matches size e.ema_alpha key (or_else (get e.samples key) []) (get e.stats key) x
          r.p50 r.p95 valid.room (fits e key valid) r.of_half r.of_most in
      record {
        room = omega (arith, r.same_size, valid.room);
        profiles = λ q xs found. elim (key ≟ q) [
          | yes same ↦
              let grown = push_sample size (or_else (get e.samples key) []) x in
              let now : xs ≡ grown =
                cc (found, r.samples q, if_pos (key ≟ q) same (some grown) (get e.samples q)) in
              (
                updated e.ema_alpha key (get e.stats key) x r.p50 r.p95,
                r.stats q ∙ if_pos (key ≟ q) same _ (get e.stats q),
                rw (r.same_size, now) good,
              )
          | no n ↦
              let (s, there, rest) =
                valid.profiles q xs
                  (sym (r.samples q ∙ if_neg (key ≟ q) n _ (get e.samples q)) ∙ found) in
              (s, r.stats q ∙ if_neg (key ≟ q) n _ (get e.stats q) ∙ there, rw r.same_size rest)
        ];
        known = λ q s found. elim (key ≟ q) [
          | yes same ↦ (_, r.samples q ∙ if_pos (key ≟ q) same _ (get e.samples q))
          | no n ↦
              let (xs, there) =
                valid.known q s (sym (r.stats q ∙ if_neg (key ≟ q) n _ (get e.stats q)) ∙ found) in
              (xs, r.samples q ∙ if_neg (key ≟ q) n _ (get e.samples q) ∙ there)
        ];
      }

  record_both-IsValid :
      (strip : String → String) (e : ToolLatencyEstimator F) (tool : String) (args : Option String)
      (x : F)
      → IsValid e
      → ((record_both strip e tool args x).0 ≡ ok tt) × IsValid (record_both strip e tool args x).1
  unfolding record_both
  record_both-IsValid strip e tool none x valid =
      ((record_sample_lem ranks e (tool, none) x).0, record_sample-IsValid e (tool, none) x valid)
  record_both-IsValid strip e tool (some args) x valid =
      let first = record_sample_lem ranks e (tool, none) x in
      let e' = (record_sample e (tool, none) x).1 in
      let state : record_both strip e tool (some args) x ≡ record_sample e' (tool, some args) x =
        rw (record_both, first.0) refl in
      rw state (
        (record_sample_lem ranks e' (tool, some args) x).0,
        record_sample-IsValid e' (tool, some args) x (record_sample-IsValid e (tool, none) x valid),
      )

  -- `record_latency` returns exactly when the name of the tool is not empty and the latency is not
  -- negative; whatever it does, the estimator stays valid: samples and statistics have the same keys,
  -- and a profile has as many samples as were counted, but no more than fit, with their percentiles.
  pub record_latency-IsValid :
      (strip : String → String) (e : ToolLatencyEstimator F) (name : String) (x : F)
      (args : Option String)
      → IsValid e
      → IsValid (record_latency strip e name x args).1
        × (((record_latency strip e name x args).0 ≡ ok tt)
            ↔ (is_empty (strip name) ≡ false) × (fl.lt x (fl.of_nat 0) ≡ false))
  unfolding record_latency normalize_name
  record_latency-IsValid strip e name x args valid = elim (Bool-cases (is_empty (strip name))) [
    | inl no_name ↦
        let state : record_latency strip e name x args ≡ (raise value_error, e) =
          rw (record_latency, no_name) refl in
        rw state (valid, (λ r. absurd (cc), λ h. absurd (cc (h.0, no_name))))
    | inr named ↦ elim (Bool-cases (fl.lt x (fl.of_nat 0))) [
      | inl negative ↦
          let state : record_latency strip e name x args ≡ (raise value_error, e) =
            rw (record_latency, named, negative) refl in
          rw state (valid, (λ r. absurd (cc), λ h. absurd (cc (h.1, negative))))
      | inr fine ↦
          let both =
            record_both-IsValid strip e (strip name) (normalize_optional_name strip args) x valid in
          let state : record_latency strip e name x args
              ≡ record_both strip e (strip name) (normalize_optional_name strip args) x =
            rw (record_latency, named, fine) refl in
          rw state (both.1, (λ r. (named, fine), λ h. both.0))
    ]
  ]
