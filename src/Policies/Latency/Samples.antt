-- ===== src/Policies/Latency/Samples.antt =====
-- The profiles of the estimator in src/l3store/policies/agent/tool_latency_estimator.py: their
-- samples, their counts and their percentiles.
use intellil.Common.{
  ℕ, ◌+◌, ◌-◌, ◌≤◌, ◌<◌, min, string_key, pair_key, option_key, ◌≟◌, ite, some, List, [], ◌∷◌, ◌++◌,
  ◌≡◌, refl, arith, ok, length, length-append, length-drop, get_elem?-total, or_else,
}
use intellil.Common.Sort.{sort, length-sort}
use intellil.Common.Float.{Float}
use intellil.Common.Dict.{get, put, get-put}
use intellil.Policies.Latency.{
  ToolLatencyKey, ToolLatencyEstimator, push_sample, item, interpolate, percentile, updated,
  record_sample,
}

-- What is asked of the floats: a share of at most all of `n` rounds down to at most `n`.
pub record IsRanking {F : Type 0} (fl : Float F) : Type 0 where
  pub rank_le :
      (percent n : ℕ)
      → percent ≤ 100
      → fl.floor (fl.mul (fl.div (fl.of_nat percent) (fl.of_nat 100)) (fl.of_nat n)) ≤ n

pub length-push_sample :
    {F : Type 0} (size : ℕ) (samples : List F) (x : F)
    → length (push_sample size samples x) ≡ min size (length samples + 1)
unfolding push_sample
length-push_sample size samples x = omega (
  arith,
  length-append samples (x ∷ []),
  length-drop (length (samples ++ x ∷ []) - size) (samples ++ x ∷ []),
)

item_total :
    {F : Type 0} (values : List F) (i : ℕ) → i < length values → (v : F) × (item values i ≡ ok v)
unfolding item
item_total values i low =
    let (v, found) = get_elem?-total values i low in (v, rw (item, found) refl)

module _ {F : Type 0} ⦃fl : Float F⦄ (ranks : IsRanking fl) where
  interpolate_total :
      (ordered : List F) (percent : ℕ)
      → percent ≤ 100
      → 0 < length ordered
      → (v : F) × (interpolate ordered percent ≡ ok v)
  unfolding interpolate
  interpolate_total ordered percent small pos =
      let top = length ordered - 1 in
      let lower = fl.floor (fl.mul (fl.div (fl.of_nat percent) (fl.of_nat 100)) (fl.of_nat top)) in
      let weight =
        fl.sub (fl.mul (fl.div (fl.of_nat percent) (fl.of_nat 100)) (fl.of_nat top))
          (fl.of_nat lower) in
      let low = ranks.rank_le percent top small in
      let (a, at_lower) = item_total ordered lower (omega (arith, low)) in
      let (b, at_upper) = item_total ordered (min (lower + 1) top) (omega (arith, low)) in
      (
        fl.add (fl.mul a (fl.sub (fl.of_nat 1) weight)) (fl.mul b weight),
        rw (interpolate, at_lower, at_upper) refl,
      )

  -- `_percentile` never raises.
  percentile_total :
      (values : List F) (percent : ℕ) → percent ≤ 100 → (v : F) × (percentile values percent ≡ ok v)
  unfolding percentile
  percentile_total [] percent small = (_, refl)
  percentile_total (x ∷ []) percent small = (x, refl)
  percentile_total (x ∷ y ∷ values) percent small =
      interpolate_total (sort fl.le (x ∷ y ∷ values)) percent small
        (omega (arith, length-sort fl.le (x ∷ y ∷ values)))

  -- What `_record` leaves: a longer profile under the key, and the rest as it was.
  pub record Recorded (e : ToolLatencyEstimator F) (key : ToolLatencyKey) (x : F)
      (e' : ToolLatencyEstimator F) : Type 0 where
    pub p50 : F
    pub p95 : F
    pub of_half :
        percentile (push_sample e.max_samples_per_profile (or_else (get e.samples key) []) x) 50
        ≡ ok p50
    pub of_most :
        percentile (push_sample e.max_samples_per_profile (or_else (get e.samples key) []) x) 95
        ≡ ok p95
    pub written :
        e'.samples
        ≡ put e.samples key
            (push_sample e.max_samples_per_profile (or_else (get e.samples key) []) x)
    pub samples :
        (q : ToolLatencyKey)
        → get e'.samples q
          ≡ ite
              (key ≟ q)
              (some (push_sample e.max_samples_per_profile (or_else (get e.samples key) []) x))
              (get e.samples q)
    pub stats :
        (q : ToolLatencyKey)
        → get e'.stats q
          ≡ ite
              (key ≟ q)
              (some (updated e.ema_alpha key (get e.stats key) x p50 p95))
              (get e.stats q)
    pub same_size : e'.max_samples_per_profile ≡ e.max_samples_per_profile
    pub same_alpha : e'.ema_alpha ≡ e.ema_alpha
    pub same_default : e'.default_latency_ms ≡ e.default_latency_ms

  pub record_sample_lem :
      (e : ToolLatencyEstimator F) (key : ToolLatencyKey) (x : F)
      → ((record_sample e key x).0 ≡ ok tt) × Recorded e key x (record_sample e key x).1
  unfolding record_sample
  record_sample_lem e key x =
      let current = push_sample e.max_samples_per_profile (or_else (get e.samples key) []) x in
      let (p50, half) = percentile_total current 50 (omega arith) in
      let (p95, most) = percentile_total current 95 (omega arith) in
      let stats = put e.stats key (updated e.ema_alpha key (get e.stats key) x p50 p95) in
      let e' : ToolLatencyEstimator F = record e {
        samples = put e.samples key current;
        stats = stats;
      } in
      let state : record_sample e key x ≡ (ok tt, e') = rw (record_sample, half, most) refl in
      rw state (
        refl,
        record {
          p50 = p50;
          p95 = p95;
          of_half = half;
          of_most = most;
          written = refl;
          samples = λ q. get-put e.samples key q current;
          stats = λ q. get-put e.stats key q _;
          same_size = refl;
          same_alpha = refl;
          same_default = refl;
        },
      )
