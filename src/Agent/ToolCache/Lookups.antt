-- ===== src/Agent/ToolCache/Lookups.antt =====
-- What `get_tool_artifact` of src/l3store/agent/tool_cache.py answers, and how it counts.
use intellil.Common.{
  ◌+◌, nat_key, string_key, ◌≟◌, holds, String, true, false, Option, none, some, ◌≡◌, refl, sym,
  arith, Result, ok, raise, Bool-cases, Option-cases, inl, inr, Error, ◌⊎◌,
}
use mathlib.Core.Path.{subst}
use intellil.Common.Float.{Float}
use intellil.Common.Dict.{get, pop}
use intellil.Core.Enums.{ArtifactScope}
use intellil.Core.Types.{ToolCallArtifact, is_expired}
use intellil.Agent.ToolCache.{
  ArtifactStore, Texts, ToolCacheKey, ToolArtifactCache, tool_cache_key, scope_key,
  normalize_tool_name, miss, other_version, serve, look_up, get_tool_artifact,
}

module _ {S F Json : Type 0} ⦃fl : Float F⦄ (os : ArtifactStore S F Json) (texts : Texts Json)
    (c : ToolArtifactCache S) where
  -- The artifact is the one that the index has under the key; it is of the scope, of the version if
  -- one is asked for, and has not expired.
  pub record IsServed (key : ToolCacheKey) (version : Option String) (now : F)
      (a : ToolCallArtifact F Json) : Type 0 where
    pub indexed : (x : String) × (get c.index key ≡ some x) × (os.get c.store x ≡ ok (some a))
    pub of_scope : a.permission_scope ≡ key.2
    pub of_version : (v : String) → version ≡ some v → a.source_version ≡ v
    pub unexpired : is_expired a now ≡ false

  -- A hit serves an artifact and is counted; a miss is counted; an error changes nothing.
  unfoldable pub Answers :
      ToolCacheKey
      → Option String
      → F
      → Result (Option (ToolCallArtifact F Json)) × ToolArtifactCache S
      → Type 0
  Answers key version now (ok (some a), c') =
      IsServed key version now a
      × (c'.hits ≡ c.hits + 1)
      × (c'.misses ≡ c.misses)
      × (c'.index ≡ c.index)
  Answers key version now (ok none, c') = (c'.hits ≡ c.hits) × (c'.misses ≡ c.misses + 1)
  Answers key version now (raise e, c') = c' ≡ c

  versions :
      (version : Option String) (held : String)
      → other_version os texts version held ≡ false
      → (v : String) → version ≡ some v
      → held ≡ v
  versions none held same v e = cc
  versions (some wanted) held same v e = elim (held ≟ wanted) [
    | yes p ↦ cc
    | no n ↦ absurd (ground arith)
  ]

  serve-Answers :
      (key : ToolCacheKey) (x : String) (a : ToolCallArtifact F Json) (version : Option String)
      (now : F)
      → get c.index key ≡ some x
      → os.get c.store x ≡ ok (some a)
      → let r = serve os texts c key x a version now in Answers key version now (ok r.0, r.1)
  unfolding serve Answers
  serve-Answers key x a version now known held =
      elim (Bool-cases (other_version os texts version a.source_version)) [
        | inl other ↦ rw (other) (refl, refl)
        | inr same ↦ elim (a.permission_scope ≟ key.2) [
          | no n ↦
              let other : holds (a.permission_scope ≟ key.2) ≡ false = ground arith in
              rw (same, other) (refl, refl)
          | yes p ↦
              let scoped : holds (a.permission_scope ≟ key.2) ≡ true = ground arith in
              elim (Bool-cases (is_expired a now)) [
                | inl over ↦ rw (same, scoped, over) (refl, refl)
                | inr fresh ↦
                    rw (same, scoped, fresh)
                      (
                        record {
                          indexed = (x, known, held);
                          of_scope = p;
                          of_version = versions version a.source_version same;
                          unexpired = fresh;
                        },
                        refl,
                        refl,
                        refl,
                      )
              ]
        ]
      ]

  load-cases :
      (r : Result (Option (ToolCallArtifact F Json)))
      → (((a : ToolCallArtifact F Json) × (r ≡ ok (some a))) ⊎ (r ≡ ok none))
        ⊎ ((e : Error) × (r ≡ raise e))
  load-cases (ok (some a)) = inl (inl (a, refl))
  load-cases (ok none) = inl (inr refl)
  load-cases (raise e) = inr (e, refl)

  look_up-Answers :
      (key : ToolCacheKey) (version : Option String) (now : F)
      → Answers key version now (look_up os texts c key version now)
  unfolding look_up Answers
  look_up-Answers key version now = elim (Option-cases (get c.index key)) [
    | inl e ↦
        let state : look_up os texts c key version now ≡ (ok none, miss os texts c) =
          rw (look_up, e) refl in
        subst (Answers key version now) (sym state) (refl, refl)
    | inr (x, e) ↦ elim (load-cases (os.get c.store x)) [
      | inl (inl (a, held)) ↦
          let r = serve os texts c key x a version now in
          let state : look_up os texts c key version now ≡ (ok r.0, r.1) =
            rw (look_up, e, held) refl in
          subst (Answers key version now) (sym state) (serve-Answers key x a version now e held)
      | inl (inr gone) ↦
          let state : look_up os texts c key version now
              ≡ (ok none, miss os texts (record c { index = pop c.index key })) =
            rw (look_up, e, gone) refl in
          subst (Answers key version now) (sym state) (refl, refl)
      | inr (err, failed) ↦
          let state : look_up os texts c key version now ≡ (raise err, c) =
            rw (look_up, e, failed) refl in
          subst (Answers key version now) (sym state) refl
    ]
  ]

  -- `get_tool_artifact` returns an artifact only if the index has it under the tool, the hash of the
  -- arguments and the scope, and it is of the scope and of the version that were asked for, and has
  -- not expired; it counts one hit, or else one miss; where it raises, nothing has changed.
  pub get_tool_artifact-Answers :
      (name tool : String) (args : Json) (scope : ArtifactScope) (version : Option String) (now : F)
      → normalize_tool_name os texts name ≡ ok tool
      → Answers
          (tool, texts.hash_args args, scope)
          version
          now
          (get_tool_artifact os texts c name args scope version now)
  unfolding get_tool_artifact
  get_tool_artifact-Answers name tool args scope version now named =
      let key : ToolCacheKey = (tool, texts.hash_args args, scope) in
      let state : get_tool_artifact os texts c name args scope version now
          ≡ look_up os texts c key version now =
        rw (get_tool_artifact, named) refl in
      subst (Answers key version now) (sym state) (look_up-Answers key version now)
