-- ===== src/Policies/Latency/Histories.antt =====
-- What the estimator of src/l3store/policies/agent/tool_latency_estimator.py has kept after any calls
-- of `record_latency`.
use mathlib.Core.Path.{subst}
use intellil.Common.{
  ℕ, ◌<◌, string_key, pair_key, option_key, ◌≟◌, holds, holds-yes, String, Bool, true, false, not,
  ◌&&◌, Option, none, some, List, [], ◌∷◌, ◌++◌, ◌≡◌, refl, sym, ap, ◌∙◌, arith, inl, inr, ok,
  raise, value_error, Bool-cases, passed, ◌==◌, append-nil, append_assoc, if◌then◌else◌,
}
use intellil.Core.ObjectStore.{is_empty}
use intellil.Common.Float.{Float}
use intellil.Common.Dict.{Dict, get}
use intellil.Policies.Latency.{
  ToolLatencyKey, ToolLatencyStats, ToolLatencyEstimator, init, normalize_name,
  normalize_optional_name, record_both, record_latency,
}
use intellil.Policies.Latency.Samples.{IsRanking}
use intellil.Policies.Latency.Profiles.{
  has_class, IsProfile, ProfileOf, grown, grown_both, record_both-ProfileOf, same_class, key_test,
  none_test, class_test,
}

-- A call: the name of the tool, the latency, and the class of the arguments
abbrev pub Call : Type 0 → Type 0
Call F = String × F × Option String

module _ {F : Type 0} ⦃fl : Float F⦄ (strip : String → String) where
  -- Calls one after the other, whether they raise or not
  unfoldable pub record_all : ToolLatencyEstimator F → List (Call F) → ToolLatencyEstimator F
  record_all e [] = e
  record_all e ((name, x, args) ∷ calls) = record_all (record_latency strip e name x args).1 calls

  -- Whether a sample of the call goes to the profile: the name is not empty and the latency not negative,
  -- and the profile is that of the tool, or that of the tool and the class of the arguments.
  unfoldable pub counts_for : ToolLatencyKey → Call F → Bool
  counts_for (tool, none) (name, x, args) =
      not (is_empty (strip name)) && not (fl.lt x (fl.of_nat 0)) && holds (strip name ≟ tool)
  counts_for (tool, some c) (name, x, args) =
      not (is_empty (strip name))
      && not (fl.lt x (fl.of_nat 0))
      && holds (strip name ≟ tool)
      && has_class strip args c

  -- The latencies of the profile, in the order of the calls
  unfoldable pub latencies : ToolLatencyKey → List (Call F) → List F
  latencies q [] = []
  latencies q (call ∷ calls) =
      let rest = latencies q calls in if counts_for q call then call.1 ∷ rest else rest

module _ {F : Type 0} ⦃fl : Float F⦄ (ranks : IsRanking fl) (strip : String → String) where
  -- One sample by the test of its tool and its class
  one :
      (tool t : String) (class d : Option String) (x : F) (xs : List F)
      → grown ranks (tool, class) (t, d) x xs
        ≡ (if holds (tool ≟ t) && same_class class d then xs ++ x ∷ [] else xs)
  one tool t class d x xs = ap (λ b. if b then xs ++ x ∷ [] else xs) (key_test tool t class d)

  no_class : same_class none none ≡ true
  no_class = holds-yes (◌≟◌ {K = Option String} none none) refl

  tool_only :
      (tool t : String) (x : F) (xs : List F)
      → grown ranks (tool, none) (t, none) x xs ≡ (if holds (tool ≟ t) then xs ++ x ∷ [] else xs)
  tool_only tool t x xs = elim (Bool-cases (holds (tool ≟ t))) [
    | inl e ↦ one tool t none none x xs ∙ rw (e, no_class) refl
    | inr e ↦ one tool t none none x xs ∙ rw e refl
  ]

  other_class :
      (tool t c : String) (x : F) (xs : List F)
      → (grown ranks (tool, some c) (t, none) x xs ≡ xs)
        × (grown ranks (tool, none) (t, some c) x xs ≡ xs)
  other_class tool t c x xs = elim (Bool-cases (holds (tool ≟ t))) [
    | inl e ↦ (
      one tool t (some c) none x xs ∙ rw (e, (none_test c).1) refl,
      one tool t none (some c) x xs ∙ rw (e, (none_test c).0) refl,
    )
    | inr e ↦ (one tool t (some c) none x xs ∙ rw e refl, one tool t none (some c) x xs ∙ rw e refl)
  ]

  -- The samples of a call go to the profile of the tool, and to that of its class.
  both_tool :
      (tool t : String) (class : Option String) (x : F) (xs : List F)
      → grown_both ranks tool class (t, none) x xs ≡ (if holds (tool ≟ t) then xs ++ x ∷ [] else xs)
  both_tool tool t none x xs = tool_only tool t x xs
  both_tool tool t (some c) x xs = (other_class tool t c x _).0 ∙ tool_only tool t x xs

  both_class :
      (tool t : String) (class : Option String) (c : String) (x : F) (xs : List F)
      → grown_both ranks tool class (t, some c) x xs
        ≡ (if holds (tool ≟ t) && same_class class (some c) then xs ++ x ∷ [] else xs)
  both_class tool t none c x xs = one tool t none (some c) x xs
  both_class tool t (some d) c x xs =
      ap (λ l. grown ranks (tool, some d) (t, some c) x l) (other_class tool t c x xs).1
      ∙ one tool t (some d) (some c) x xs

  -- The samples of a call that is taken go to the profiles that it counts for.
  grown_both-counts :
      (name : String) (x : F) (args : Option String) (q : ToolLatencyKey) (xs : List F)
      → is_empty (strip name) ≡ false
      → fl.lt x (fl.of_nat 0) ≡ false
      → grown_both ranks (strip name) (normalize_optional_name strip args) q x xs
        ≡ (if counts_for strip q (name, x, args) then xs ++ x ∷ [] else xs)
  unfolding counts_for
  grown_both-counts name x args (t, none) xs full positive =
      rw (full, positive) (both_tool (strip name) t (normalize_optional_name strip args) x xs)
  grown_both-counts name x args (t, some c) xs full positive =
      rw (full, positive, class_test strip args c)
        (both_class (strip name) t (normalize_optional_name strip args) c x xs)

  refused_counts :
      (name : String) (x : F) (args : Option String) (q : ToolLatencyKey)
      → (not (is_empty (strip name)) && not (fl.lt x (fl.of_nat 0))) ≡ false
      → counts_for strip q (name, x, args) ≡ false
  unfolding counts_for
  refused_counts name x args (t, none) out = ground (arith, out)
  refused_counts name x args (t, some c) out = ground (arith, out)

  record_latency-ProfileOf :
      (e : ToolLatencyEstimator F) (name : String) (x : F) (args : Option String)
      (q : ToolLatencyKey) (xs : List F)
      → 0 < e.max_samples_per_profile
      → ProfileOf ranks e.max_samples_per_profile e q xs
      → ProfileOf ranks e.max_samples_per_profile
          (record_latency strip e name x args).1
          q
          (if counts_for strip q (name, x, args) then xs ++ x ∷ [] else xs)
        × ((record_latency strip e name x args).1.max_samples_per_profile
            ≡ e.max_samples_per_profile)
  unfolding record_latency normalize_name
  record_latency-ProfileOf e name x args q xs room profile =
      elim (Bool-cases (is_empty (strip name))) [
        | inl no_name ↦
            let state : record_latency strip e name x args ≡ (raise value_error, e) =
              rw (record_latency, no_name) refl in
            rw (state, refused_counts name x args q (rw no_name refl)) (profile, refl)
        | inr named ↦ elim (Bool-cases (fl.lt x (fl.of_nat 0))) [
          | inl negative ↦
              let state : record_latency strip e name x args ≡ (raise value_error, e) =
                rw (record_latency, named, negative) refl in
              rw (state, refused_counts name x args q (rw (named, negative) refl)) (profile, refl)
          | inr fine ↦
              let class = normalize_optional_name strip args in
              let state : record_latency strip e name x args
                  ≡ record_both strip e (strip name) class x =
                rw (record_latency, named, fine) refl in
              rw (state, sym (grown_both-counts name x args q xs named fine))
                (record_both-ProfileOf ranks strip e (strip name) class q x xs room profile)
        ]
      ]

  record_all-ProfileOf :
      (e : ToolLatencyEstimator F) (calls : List (Call F)) (q : ToolLatencyKey) (xs : List F)
      → 0 < e.max_samples_per_profile
      → ProfileOf ranks e.max_samples_per_profile e q xs
      → ProfileOf ranks e.max_samples_per_profile
          (record_all strip e calls)
          q
          (xs ++ latencies strip q calls)
  unfolding record_all latencies
  record_all-ProfileOf e [] q xs room profile = rw (append-nil xs) profile
  record_all-ProfileOf e ((name, x, args) ∷ calls) q xs room profile =
      let e' = (record_latency strip e name x args).1 in
      let (once, same) = record_latency-ProfileOf e name x args q xs room profile in
      let ys = if counts_for strip q (name, x, args) then xs ++ x ∷ [] else xs in
      let rest =
        record_all-ProfileOf e' calls q ys (omega (arith, room, same))
          (subst (λ n. ProfileOf ranks n e' q ys) (sym same) once) in
      subst (λ zs. ProfileOf ranks e.max_samples_per_profile (record_all strip e' calls) q zs)
        (joined (counts_for strip q (name, x, args)))
        (subst
          (λ n. ProfileOf ranks n (record_all strip e' calls) q (ys ++ latencies strip q calls))
          same rest)
    where
      joined :
          (b : Bool)
          → (if b then xs ++ x ∷ [] else xs) ++ latencies strip q calls
            ≡ xs ++ (if b then x ∷ latencies strip q calls else latencies strip q calls)
      joined true = append_assoc xs (x ∷ []) (latencies strip q calls)
      joined false = refl

  -- Of an estimator that the constructor has built, after any calls of `record_latency`, those that
  -- raise included, a profile that got no latencies does not exist. A profile that got some has the
  -- last of them as its samples, as many as fit, counts all of them, and has the percentiles of its
  -- samples. The latencies of a profile are those of the calls for its tool, and for its class if it
  -- has one, whose name is not empty and whose latency is not negative, in the order of the calls.
  pub record_all-IsProfile :
      {e : ToolLatencyEstimator F} (default_latency alpha : F) (size : ℕ) (calls : List (Call F))
      (q : ToolLatencyKey)
      → init default_latency alpha size ≡ ok e
      → IsProfile size
          (latencies strip q calls)
          (get (record_all strip e calls).samples q)
          (get (record_all strip e calls).stats q)
  unfolding init get
  record_all-IsProfile {e} default_latency alpha size calls q made =
      let (_, made) = passed value_error (fl.lt default_latency (fl.of_nat 0)) _ made in
      let (_, made) =
        passed value_error (not (fl.lt (fl.of_nat 0) alpha && fl.le alpha (fl.of_nat 1))) _ made in
      let (large, made) = passed value_error (size == 0) _ made in
      let same_size : e.max_samples_per_profile ≡ size = cc in
      let no_samples : e.samples ≡ [] = cc in
      let no_stats : e.stats ≡ [] = cc in
      subst
        (λ n.
          IsProfile n (latencies strip q calls) (get (record_all strip e calls).samples q)
            (get (record_all strip e calls).stats q))
        same_size
        (record_all-ProfileOf e calls q [] (ground arith) (
          inl (
            refl,
            ap (λ (d : Dict ToolLatencyKey (List F)). get d q) no_samples,
            ap (λ (d : Dict ToolLatencyKey (ToolLatencyStats F)). get d q) no_stats,
          )))
