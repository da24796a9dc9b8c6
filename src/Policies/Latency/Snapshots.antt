-- ===== src/Policies/Latency/Snapshots.antt =====
-- `snapshot`, `from_snapshot` and `classify_args` of `ToolLatencyEstimator` in
-- src/l3store/policies/agent/tool_latency_estimator.py. A snapshot is the dictionary that the code
-- makes: what `from_snapshot` reads by `get` may be missing.
use Prim.Native.String.{◌++◌}
use intellil.Common.{
  ℕ, leb, string_key, pair_key, option_key, String, Option, none, some, List, [], ◌∷◌, map, Result,
  ok, raise, ◌>>=◌, if◌then◌else◌, or_else, length,
}
use intellil.Common.Sort.{sort}
use intellil.Common.Float.{Float}
use intellil.Common.Dict.{keys, get}
use intellil.Storage.Memory.{le_text}
use intellil.Policies.Latency.{
  ToolLatencyEstimator, ToolLatencyKey, init, record_sample, normalize_name,
  normalize_optional_name, le_key,
}

pub record Profile (F : Type 0) : Type 0 where
  pub tool_name : String
  pub tool_args_class : Option String
  pub samples_ms : Option (List F)

pub record Snapshot (F : Type 0) : Type 0 where
  pub default_latency_ms : Option F
  pub ema_alpha : Option F
  pub max_samples_per_profile : Option ℕ
  pub profiles : Option (List (Profile F))

module _ {F : Type 0} where
  abbrev pub profile_of : ToolLatencyEstimator F → ToolLatencyKey → Profile F
  profile_of e (tool, args) = record {
    tool_name = tool;
    tool_args_class = args;
    samples_ms = some (or_else (get e.samples (tool, args)) []);
  }

  unfoldable pub snapshot : ToolLatencyEstimator F → Snapshot F
  snapshot e = record {
    default_latency_ms = some e.default_latency_ms;
    ema_alpha = some e.ema_alpha;
    max_samples_per_profile = some e.max_samples_per_profile;
    profiles = some (map (profile_of e) (sort le_key (keys e.samples)));
  }

module _ {F : Type 0} ⦃fl : Float F⦄ (strip : String → String) where
  -- The inner loop of `from_snapshot`. The names are normalised in each round.
  unfoldable pub record_samples :
      ToolLatencyEstimator F → String → Option String → List F → Result (ToolLatencyEstimator F)
  record_samples e name args [] = ok e
  record_samples e name args (x ∷ xs) = elim (normalize_name strip name) [
    | raise err ↦ raise err
    | ok tool ↦
        let (r, e') = record_sample e (tool, normalize_optional_name strip args) x in
        elim r [ raise err ↦ raise err | ok _ ↦ record_samples e' name args xs ]
  ]

  unfoldable pub record_profiles :
      ToolLatencyEstimator F → List (Profile F) → Result (ToolLatencyEstimator F)
  record_profiles e [] = ok e
  record_profiles e (p ∷ ps) =
      elim (record_samples e p.tool_name p.tool_args_class (or_else p.samples_ms [])) [
        | raise err ↦ raise err
        | ok e' ↦ record_profiles e' ps
      ]

  unfoldable pub from_snapshot : Snapshot F → Result (ToolLatencyEstimator F)
  from_snapshot s = do
    e ←
        init (or_else s.default_latency_ms (fl.of_nat 1000))
          (or_else s.ema_alpha (fl.div (fl.of_nat 3) (fl.of_nat 10)))
          (or_else s.max_samples_per_profile 512)
    record_profiles e (or_else s.profiles [])

-- What `classify_args` asks of its argument: its type's name, `str(key)` of its keys, its length.
pub data ToolArgs : Type 0 where
  missing : ToolArgs
  dict : List String → ToolArgs
  sequence : String → ℕ → ToolArgs
  text : String → ToolArgs
  other : String → ToolArgs

-- `",".join(names)`
unfoldable pub join : List String → String
join [] = ""
join (s ∷ []) = s
join (s ∷ t ∷ rest) = (s ++ ",") ++ join (t ∷ rest)

-- `_size_bucket`, of `len(str(value))`
unfoldable pub size_bucket : ℕ → String
size_bucket size = if leb size 64 then "small" else if leb size 512 then "medium" else "large"

-- `digits` is `str` of a number, and `size` is `len(str(tool_args))`.
unfoldable pub classify_args : (ℕ → String) → ToolArgs → ℕ → Option String
classify_args digits missing size = none
classify_args digits (dict names) size = some (
    (((("dict:" ++ digits (length names)) ++ ":") ++ join (sort le_text names)) ++ ":")
    ++ size_bucket size)
classify_args digits (sequence kind n) size =
    some ((((kind ++ ":") ++ digits n) ++ ":") ++ size_bucket size)
classify_args digits (text kind) size = some ((kind ++ ":") ++ size_bucket size)
classify_args digits (other kind) size = some kind
