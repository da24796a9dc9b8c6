-- ===== src/Tests/Latency.antt =====
-- An estimator that fits two samples, with natural numbers of milliseconds.
use intellil.Common.{
  List, ◌∷◌, refl, string_key, option_key, pair_key, ℕ, zero, suc, ◌*◌, ◌≤◌, ◌/◌, none, some, [],
  arith,
}
use intellil.Common.Dict.{get}
use intellil.Policies.Latency.{ToolLatencyEstimator, init}
use intellil.Policies.Latency.Histories.{Call, latencies, record_all, record_all-IsProfile}
use intellil.Policies.Latency.Profiles.{IsProfile}
use intellil.Policies.Latency.Samples.{IsRanking}
use intellil.Tests.Fixtures.{counts}

share_le : (q n : ℕ) → q ≤ 1 → q * n ≤ n
share_le zero n h = omega arith
share_le (suc zero) n h = omega arith
share_le (suc (suc q)) n h = absurd (omega arith)

pub counts-IsRanking : IsRanking counts
counts-IsRanking = record { rank_le = λ percent n small. share_le (percent / 100) n (omega arith) }

abbrev pub fresh : ToolLatencyEstimator ℕ
fresh = record {
  default_latency_ms = 1000;
  ema_alpha = 1;
  max_samples_per_profile = 2;
  stats = [];
  samples = [];
}

-- Two calls that are taken, and between them one whose name is empty
abbrev calls : List (Call ℕ)
calls = ("search", 30, some "dict") ∷ ("", 5, none) ∷ ("search", 50, none) ∷ []

record_all-IsProfile_example :
    IsProfile 2
      (latencies (λ s. s) ("search", none) calls)
      (get (record_all (λ s. s) fresh calls).samples ("search", none))
      (get (record_all (λ s. s) fresh calls).stats ("search", none))
unfolding init
record_all-IsProfile_example =
    record_all-IsProfile counts-IsRanking (λ s. s) 1000 1 2 calls ("search", none) refl
