-- ===== src/Agent/ToolCache/Upkeep/Invalidation.antt =====
-- What `invalidate_tool_artifacts` of src/l3store/agent/tool_cache.py leaves in the index.
use intellil.Common.{
  holds-true, holds-false, Bool-cases, sym, holds, map, false, List, ℕ, suc, ◌+◌, nat_key,
  string_key, ◌≟◌, String, Bool, Option, none, some, [], ◌∷◌, ◌≡◌, refl, ap, ◌∙◌, arith, ok, keep,
  if◌then◌else◌, inl, inr, ◌⊎◌,
}
use intellil.Common.Float.{Float}
use intellil.Common.Dict.{Dict, get, pop, has, get-pop}
use intellil.Core.Enums.{ArtifactScope}
use intellil.Core.ObjectStore.{is_empty}
use intellil.Agent.ToolCache.{
  scope_key, ArtifactStore, Texts, ToolCacheKey, ToolArtifactCache, tool_cache_key,
  normalize_tool_name,
}
use intellil.Agent.ToolCache.Upkeep.{
  selected, delete_entries, invalidate, invalidate_tool_artifacts,
}

-- A lookup in the entries that pass a test of their keys.
get-keep :
    (p : ToolCacheKey → Bool) (d : Dict ToolCacheKey String) (k : ToolCacheKey)
    → get (keep (λ e. p e.0) d) k ≡ (if p k then get d k else none)
unfolding get
get-keep p [] k = ground arith
get-keep p ((j, x) ∷ d) k = elim (j ≟ k) [
  | yes e ↦ ground (arith, get-keep p d k, ap p e)
  | no n ↦ ground (arith, get-keep p d k)
]

-- A key is picked where it is of the tool and of the scope that are asked for.
abbrev pub Picked : Option String → Option ArtifactScope → ToolCacheKey → Type 0
Picked none none key = Unit
Picked (some t) none key = key.0 ≡ t
Picked none (some s) key = key.2 ≡ s
Picked (some t) (some s) key = (key.0 ≡ t) × (key.2 ≡ s)

unfoldable pub picked_dec :
    (tool : Option String) (scope : Option ArtifactScope) (key : ToolCacheKey)
    → Dec (Picked tool scope key)
picked_dec none none key = yes tt
picked_dec (some t) none key = key.0 ≟ t
picked_dec none (some s) key = key.2 ≟ s
picked_dec (some t) (some s) key = elim (key.0 ≟ t) [
  | no n ↦ no (λ h. n h.0)
  | yes e ↦ elim (key.2 ≟ s) [ no n ↦ no (λ h. n h.1) | yes e' ↦ yes (e, e') ]
]

selected-picked :
    (tool : Option String) (scope : Option ArtifactScope) (key : ToolCacheKey)
    → selected tool scope key ≡ holds (picked_dec tool scope key)
unfolding selected picked_dec
selected-picked none none key = refl
selected-picked (some t) none key = ground arith
selected-picked none (some s) key = refl
selected-picked (some t) (some s) key = ground arith

-- The ids of the entries that are picked
abbrev pub picked_ids :
    Option String → Option ArtifactScope → Dict ToolCacheKey String → List String
picked_ids tool scope index =
    map (λ (e : ToolCacheKey × String). e.1)
      (keep (λ (e : ToolCacheKey × String). holds (picked_dec tool scope e.0)) index)

keep-selected :
    (tool : Option String) (scope : Option ArtifactScope) (d : Dict ToolCacheKey String)
    → keep (λ e. selected tool scope e.0) d
      ≡ keep (λ (e : ToolCacheKey × String). holds (picked_dec tool scope e.0)) d
keep-selected tool scope [] = refl
keep-selected tool scope ((k, x) ∷ d) =
    rw (selected-picked tool scope k, keep-selected tool scope d) refl

module _ {S F Json : Type 0} (os : ArtifactStore S F Json) where
  -- The store after the ids have been deleted one after the other, and how many of them it had
  pub delete_ids : S → List String → S × ℕ
  delete_ids s [] = (s, 0)
  delete_ids s (x ∷ ids) =
      let (s', existed) = os.delete s x in
      let (s'', n) = delete_ids s' ids in (s'', if existed then suc n else n)

module _ {S F Json : Type 0} ⦃fl : Float F⦄ (os : ArtifactStore S F Json) (texts : Texts Json) where
  -- The loop takes the keys of its entries out of the index, deletes their ids, and counts those that
  -- the store had.
  delete_entries_lem :
      (c : ToolArtifactCache S) (n : ℕ) (entries : Dict ToolCacheKey String) (k : ToolCacheKey)
      → let r = delete_entries os texts c n entries in
        let deleted = delete_ids os c.store (map (λ (e : ToolCacheKey × String). e.1) entries) in
        (get r.0.index k ≡ (if has entries k then none else get c.index k))
        × (r.0.invalidated ≡ c.invalidated)
        × (r.0.store ≡ deleted.0)
        × (r.1 ≡ n + deleted.1)
  unfolding delete_entries delete_ids get
  delete_entries_lem c n [] k = (refl, refl, refl, omega arith)
  delete_entries_lem c n ((j, x) ∷ entries) k =
      let (s, existed) = os.delete c.store x in
      let (rest, same, store, count) =
        delete_entries_lem (record c { index = pop c.index j; store = s })
          (if existed then suc n else n) entries k in
      (rest ∙ ground (arith, get-pop c.index j k), same, store, ground (arith, count))

  -- What `invalidate_tool_artifacts` does to a cache, and the number that it returns
  pub record IsInvalidated (c : ToolArtifactCache S) (tool : Option String)
      (scope : Option ArtifactScope) (c' : ToolArtifactCache S) (n : ℕ) : Type 0 where
    pub gone :
        (k : ToolCacheKey)
        → (Picked tool scope k × (get c'.index k ≡ none))
          ⊎ (¬ Picked tool scope k × (get c'.index k ≡ get c.index k))
    pub deleted : c'.store ≡ (delete_ids os c.store (picked_ids tool scope c.index)).0
    pub number : n ≡ (delete_ids os c.store (picked_ids tool scope c.index)).1
    pub counted : c'.invalidated ≡ c.invalidated + n

  gone_or_kept :
      (c : ToolArtifactCache S) (tool : Option String) (scope : Option ArtifactScope)
      (k : ToolCacheKey) (found : Option String)
      → found ≡ (
          if has (keep (λ (e : ToolCacheKey × String). selected tool scope e.0) c.index) k
          then none
          else get c.index k)
      → (Picked tool scope k × (found ≡ none)) ⊎ (¬ Picked tool scope k × (found ≡ get c.index k))
  gone_or_kept c tool scope k found e =
      let kept = get-keep (λ (q : ToolCacheKey). selected tool scope q) c.index k in
      elim (Bool-cases (selected tool scope k)) [
        | inl yes_picked ↦ inl (
          holds-true (picked_dec tool scope k) (sym (selected-picked tool scope k) ∙ yes_picked),
          ground (arith, e, kept, yes_picked),
        )
        | inr not_picked ↦ inr (
          holds-false (picked_dec tool scope k) (sym (selected-picked tool scope k) ∙ not_picked),
          ground (arith, e, kept, not_picked),
        )
      ]

  -- The entries that `invalidate_tool_artifacts` picks go, and no others.
  invalidate_lem :
      (c : ToolArtifactCache S) (tool : Option String) (scope : Option ArtifactScope)
      → IsInvalidated c tool scope
          (invalidate os texts c tool scope).0
          (invalidate os texts c tool scope).1
  unfolding invalidate
  invalidate_lem c tool scope =
      let entries = keep (λ e. selected tool scope e.0) c.index in
      let lem = delete_entries_lem c 0 entries in
      let (_, same, store, count) = lem ("", "", ArtifactScope.public) in
      let ids : map (λ (e : ToolCacheKey × String). e.1) entries ≡ picked_ids tool scope c.index =
        ap (map (λ (e : ToolCacheKey × String). e.1)) (keep-selected tool scope c.index) in
      record {
        gone = λ k. gone_or_kept c tool scope k _ ((lem k).0);
        deleted = store ∙ ap (λ l. (delete_ids os c.store l).0) ids;
        number = ground (arith, count, ap (λ l. (delete_ids os c.store l).1) ids);
        counted = ground (arith, same);
      }

  -- The name that is asked for, stripped, where there is one; it is not empty.
  abbrev pub Names : Option String → Option String → Type 0
  Names none tool = tool ≡ none
  Names (some name) tool = (is_empty (texts.strip name) ≡ false) × (tool ≡ some (texts.strip name))

  invalidate-named :
      (c : ToolArtifactCache S) (name tool : Option String) (scope : Option ArtifactScope)
      → Names name tool
      → invalidate_tool_artifacts os texts c name scope
        ≡ (ok (invalidate os texts c tool scope).1, (invalidate os texts c tool scope).0)
  unfolding invalidate_tool_artifacts normalize_tool_name
  invalidate-named c none tool scope named = rw (named, invalidate_tool_artifacts) refl
  invalidate-named c (some name) tool scope (full, named) =
      rw (named, invalidate_tool_artifacts, normalize_tool_name, full) refl

  -- Where the name of the tool, if one is given, is not empty, `invalidate_tool_artifacts` returns a
  -- number. The index loses the entries of that tool and of the scope, if one is given, and no
  -- others; the store has the ids of these entries deleted, one after the other, and the number is
  -- how many of them it had, which is added to the count of invalidated artifacts.
  pub invalidate_tool_artifacts-IsInvalidated :
      (c : ToolArtifactCache S) (name tool : Option String) (scope : Option ArtifactScope)
      → Names name tool
      → (n : ℕ) × ((invalidate_tool_artifacts os texts c name scope).0 ≡ ok n)
        × IsInvalidated c tool scope (invalidate_tool_artifacts os texts c name scope).1 n
  invalidate_tool_artifacts-IsInvalidated c name tool scope named =
      rw (invalidate-named c name tool scope named)
        ((invalidate os texts c tool scope).1, refl, invalidate_lem c tool scope)
