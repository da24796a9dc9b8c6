-- ===== src/Policies/Latency.antt =====
-- `ToolLatencyEstimator` of src/l3store/policies/agent/tool_latency_estimator.py. `strip` is Python's
-- `str.strip`, `digits` is `str` of a number. A state stands beside what a method raises.
pub mod Samples
pub mod Validity
pub mod Profiles
pub mod Histories
pub mod Snapshots
use intellil.Common.{
  ℕ, zero, suc, ◌+◌, ◌-◌, min, leb, ltb, ◌==◌, string_key, pair_key, option_key, ◌≟◌, holds, String,
  Bool, true, false, not, ◌&&◌, Option, none, some, List, [], ◌∷◌, ◌++◌, map, Result, ok, raise,
  value_error, index_error, ◌>>=◌, ◌>>◌, raise_if, length, get_elem?, drop, if◌then◌else◌, or_else,
}
use Prim.Native.String.{◌++◌ as str_append}
use intellil.Common.Sort.{sort}
use intellil.Common.Float.{Float, fmin, fmax}
use intellil.Common.Dict.{Dict, keys, get, put}
use intellil.Core.ObjectStore.{is_empty}
use intellil.Storage.Memory.{le_text}

abbrev pub ToolLatencyKey : Type 0
ToolLatencyKey = String × Option String

pub record ToolLatencyStats (F : Type 0) : Type 0 where
  pub tool_name : String
  pub tool_args_class : Option String
  pub count : ℕ
  pub mean_latency_ms : F
  pub ema_latency_ms : F
  pub last_latency_ms : F
  pub min_latency_ms : F
  pub max_latency_ms : F
  pub p50_latency_ms : F
  pub p95_latency_ms : F

pub record ToolLatencyEstimator (F : Type 0) : Type 0 where
  pub default_latency_ms : F
  pub ema_alpha : F
  pub max_samples_per_profile : ℕ
  pub stats : Dict ToolLatencyKey (ToolLatencyStats F)
  pub samples : Dict ToolLatencyKey (List F)

-- `samples.append(x)` and the deletion of the oldest where there are too many
unfoldable pub push_sample : {F : Type 0} → ℕ → List F → F → List F
push_sample size samples x = let longer = samples ++ x ∷ [] in drop (length longer - size) longer

-- `values[i]`
unfoldable pub item : {F : Type 0} → List F → ℕ → Result F
item values i = elim (get_elem? values i) [ none ↦ raise index_error | some x ↦ ok x ]

-- The key of the sort of `all_stats` and `snapshot`, compared
unfoldable pub le_class : Option String → Option String → Bool
le_class none c = true
le_class (some a) none = false
le_class (some a) (some b) = le_text a b

unfoldable pub le_key : ToolLatencyKey → ToolLatencyKey → Bool
le_key (a, c) (b, d) = if holds (a ≟ b) then le_class c d else le_text a b

module _ {F : Type 0} ⦃fl : Float F⦄ where
  -- `__init__`
  unfoldable pub init : F → F → ℕ → Result (ToolLatencyEstimator F)
  init default_latency alpha size = do
    raise_if (fl.lt default_latency (fl.of_nat 0)) value_error
    raise_if (not (fl.lt (fl.of_nat 0) alpha && fl.le alpha (fl.of_nat 1))) value_error
    raise_if (size == 0) value_error
    ok (record {
      default_latency_ms = default_latency;
      ema_alpha = alpha;
      max_samples_per_profile = size;
      stats = [];
      samples = [];
    })

  -- `_percentile` of more than one value, in their order
  unfoldable pub interpolate : List F → ℕ → Result F
  interpolate ordered percent =
      let top = length ordered - 1 in
      let rank = fl.mul (fl.div (fl.of_nat percent) (fl.of_nat 100)) (fl.of_nat top) in
      let lower = fl.floor rank in
      let weight = fl.sub rank (fl.of_nat lower) in
      do
        a ← item ordered lower
        b ← item ordered (min (lower + 1) top)
        ok (fl.add (fl.mul a (fl.sub (fl.of_nat 1) weight)) (fl.mul b weight))

  unfoldable pub percentile : List F → ℕ → Result F
  percentile [] percent = ok (fl.of_nat 0)
  percentile (x ∷ []) percent = ok x
  percentile (x ∷ y ∷ values) percent = interpolate (sort fl.le (x ∷ y ∷ values)) percent

  -- The statistics of a key after one more sample.
  unfoldable pub updated :
      F → ToolLatencyKey → Option (ToolLatencyStats F) → F → F → F → ToolLatencyStats F
  updated alpha (tool, args) none x p50 p95 = record {
    tool_name = tool;
    tool_args_class = args;
    count = 1;
    mean_latency_ms = x;
    ema_latency_ms = x;
    last_latency_ms = x;
    min_latency_ms = x;
    max_latency_ms = x;
    p50_latency_ms = p50;
    p95_latency_ms = p95;
  }
  updated alpha (tool, args) (some s) x p50 p95 = record {
    tool_name = tool;
    tool_args_class = args;
    count = s.count + 1;
    mean_latency_ms =
        fl.div (fl.add (fl.mul s.mean_latency_ms (fl.of_nat s.count)) x) (fl.of_nat (s.count + 1));
    ema_latency_ms = fl.add (fl.mul alpha x) (fl.mul (fl.sub (fl.of_nat 1) alpha) s.ema_latency_ms);
    last_latency_ms = x;
    min_latency_ms = fmin s.min_latency_ms x;
    max_latency_ms = fmax s.max_latency_ms x;
    p50_latency_ms = p50;
    p95_latency_ms = p95;
  }

  -- `_record`; the samples are changed before the percentiles are taken.
  unfoldable pub record_sample :
      ToolLatencyEstimator F → ToolLatencyKey → F → Result (Unit {0}) × ToolLatencyEstimator F
  record_sample e key x =
      let current = push_sample e.max_samples_per_profile (or_else (get e.samples key) []) x in
      let e' = record e { samples = put e.samples key current } in
      elim (percentile current 50) [
        | raise err ↦ (raise err, e')
        | ok p50 ↦ elim (percentile current 95) [
          | raise err ↦ (raise err, e')
          | ok p95 ↦ (
            ok tt,
            record e' {
              stats = put e.stats key (updated e.ema_alpha key (get e.stats key) x p50 p95);
            },
          )
        ]
      ]

module _ (strip : String → String) where
  unfoldable pub normalize_name : String → Result String
  normalize_name value = do raise_if (is_empty (strip value)) value_error; ok (strip value)

  unfoldable pub normalize_optional_name : Option String → Option String
  normalize_optional_name none = none
  normalize_optional_name (some value) = if is_empty (strip value) then none else some (strip value)

module _ {F : Type 0} ⦃fl : Float F⦄ (strip : String → String) where
  -- The two calls of `_record` in `record_latency`
  unfoldable pub record_both :
      ToolLatencyEstimator F
      → String
      → Option String
      → F
      → Result (Unit {0}) × ToolLatencyEstimator F
  record_both e tool none x = record_sample e (tool, none) x
  record_both e tool (some args) x =
      let (r, e') = record_sample e (tool, none) x in
      elim r [ raise err ↦ (raise err, e') | ok _ ↦ record_sample e' (tool, some args) x ]

  unfoldable pub record_latency :
      ToolLatencyEstimator F
      → String
      → F
      → Option String
      → Result (Unit {0}) × ToolLatencyEstimator F
  record_latency e name x args_class =
      elim (do
        tool ← normalize_name strip name
        raise_if (fl.lt x (fl.of_nat 0)) value_error
        ok tool) [
          | raise err ↦ (raise err, e)
          | ok tool ↦ record_both e tool (normalize_optional_name strip args_class) x
        ]

  unfoldable pub record_interval :
      ToolLatencyEstimator F
      → String
      → F
      → F
      → Option String
      → Result (Unit {0}) × ToolLatencyEstimator F
  record_interval e name started ended args_class =
      if fl.lt ended started
      then (raise value_error, e)
      else record_latency e name (fl.mul (fl.sub ended started) (fl.of_nat 1000)) args_class

  -- The prediction of the tool as a whole
  unfoldable pub predict_tool : ToolLatencyEstimator F → String → F
  predict_tool e tool = elim (get e.stats (tool, none)) [
    | none ↦ e.default_latency_ms
    | some s ↦ s.ema_latency_ms
  ]

  unfoldable pub predict_normal : ToolLatencyEstimator F → String → Option String → F
  predict_normal e tool none = predict_tool e tool
  predict_normal e tool (some args) = elim (get e.stats (tool, some args)) [
    | none ↦ predict_tool e tool
    | some s ↦ s.ema_latency_ms
  ]

  unfoldable pub predict_latency : ToolLatencyEstimator F → String → Option String → Result F
  predict_latency e name args_class = do
    tool ← normalize_name strip name
    ok (predict_normal e tool (normalize_optional_name strip args_class))

  unfoldable pub get_stats :
      ToolLatencyEstimator F → String → Option String → Result (Option (ToolLatencyStats F))
  get_stats e name args_class = do
    tool ← normalize_name strip name
    ok (get e.stats (tool, normalize_optional_name strip args_class))

unfoldable pub reset : {F : Type 0} → ToolLatencyEstimator F → ToolLatencyEstimator F
reset e = record e { stats = []; samples = [] }

-- `self._stats[key] for key in …`
unfoldable pub stats_of :
    {F : Type 0} → ToolLatencyEstimator F → List ToolLatencyKey → List (ToolLatencyStats F)
stats_of e [] = []
stats_of e (key ∷ rest) = elim (get e.stats key) [
  | none ↦ stats_of e rest
  | some s ↦ s ∷ stats_of e rest
]

unfoldable pub all_stats : {F : Type 0} → ToolLatencyEstimator F → List (ToolLatencyStats F)
all_stats e = stats_of e (sort le_key (keys e.stats))
