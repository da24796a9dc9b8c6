-- ===== src/Agent/ToolCache/Upkeep.antt =====
-- `invalidate_tool_artifacts`, `purge_expired`, `rebuild_index` and `stats` of `ToolArtifactCache` in
-- src/l3store/agent/tool_cache.py. The loops over the index run over a copy of its entries, so each
-- key is there when its round comes.
pub mod Invalidation
use intellil.Common.{
  ℕ, zero, suc, ◌+◌, nat_key, string_key, ◌≟◌, ◌==◌, holds, String, Bool, true, false, not, ◌&&◌,
  Option, none, some, List, [], ◌∷◌, Result, ok, raise, ◌>>=◌, length, keep, if◌then◌else◌,
}
use intellil.Common.Float.{Float}
use intellil.Common.Dict.{Dict, get, put, pop}
use intellil.Core.Enums.{ArtifactScope}
use intellil.Core.Types.{ToolCallArtifact, is_expired}
use intellil.Agent.ToolCache.{
  ArtifactStore, Texts, ToolCacheKey, ToolArtifactCache, tool_cache_key, scope_key,
  normalize_tool_name,
}

-- `normalized_tool is None or key[0] == normalized_tool`, and the same for the scope
unfoldable pub selected : Option String → Option ArtifactScope → ToolCacheKey → Bool
selected tool scope key =
    elim tool [ none ↦ true | some t ↦ holds (key.0 ≟ t) ]
    && elim scope [ none ↦ true | some s ↦ holds (key.2 ≟ s) ]

module _ {S F Json : Type 0} ⦃fl : Float F⦄ (os : ArtifactStore S F Json) (texts : Texts Json) where
  -- The loop of `invalidate_tool_artifacts`, with what it has deleted so far.
  unfoldable pub delete_entries :
      ToolArtifactCache S → ℕ → List (ToolCacheKey × String) → ToolArtifactCache S × ℕ
  delete_entries c deleted [] = (c, deleted)
  delete_entries c deleted ((key, x) ∷ entries) =
      let (s, existed) = os.delete c.store x in
      delete_entries (record c { index = pop c.index key; store = s })
        (if existed then suc deleted else deleted) entries

  unfoldable pub invalidate :
      ToolArtifactCache S → Option String → Option ArtifactScope → ToolArtifactCache S × ℕ
  invalidate c tool scope =
      let entries = keep (λ e. selected tool scope e.0) c.index in
      let (c', deleted) = delete_entries c 0 entries in
      (record c' { invalidated = c'.invalidated + deleted }, deleted)

  unfoldable pub invalidate_tool_artifacts :
      ToolArtifactCache S → Option String → Option ArtifactScope → Result ℕ × ToolArtifactCache S
  invalidate_tool_artifacts c none scope =
      let (c', deleted) = invalidate c none scope in (ok deleted, c')
  invalidate_tool_artifacts c (some name) scope = elim (normalize_tool_name os texts name) [
    | raise e ↦ (raise e, c)
    | ok tool ↦ let (c', deleted) = invalidate c (some tool) scope in (ok deleted, c')
  ]

  -- The loop of `purge_expired`, with what it has purged so far.
  unfoldable pub purge_entries :
      ToolArtifactCache S → F → ℕ → List (ToolCacheKey × String) → Result ℕ × ToolArtifactCache S
  purge_entries c now purged [] = (ok purged, record c { purged = c.purged + purged })
  purge_entries c now purged ((key, x) ∷ entries) = elim (os.get c.store x) [
    | raise e ↦ (raise e, c)
    | ok none ↦ purge_entries (record c { index = pop c.index key }) now purged entries
    | ok (some a) ↦ elim (is_expired a now) [
      | false ↦ purge_entries c now purged entries
      | true ↦
          let (s, existed) = os.delete c.store x in
          purge_entries (record c { index = pop c.index key; store = s }) now
            (if existed then suc purged else purged) entries
    ]
  ]

  unfoldable pub purge_expired : ToolArtifactCache S → F → Result ℕ × ToolArtifactCache S
  purge_expired c now = purge_entries c now 0 c.index

  abbrev pub key_of : ToolCallArtifact F Json → ToolCacheKey
  key_of a = (a.tool_name, a.tool_args_hash, a.permission_scope)

  -- The loop of `rebuild_index`, with what it has indexed so far.
  unfoldable pub rebuild_from :
      ToolArtifactCache S → F → ℕ → List String → Result ℕ × ToolArtifactCache S
  rebuild_from c now indexed [] = (ok indexed, record c { reindexed = c.reindexed + indexed })
  rebuild_from c now indexed (x ∷ ids) = elim (os.get c.store x) [
    | raise e ↦ (raise e, c)
    | ok none ↦ rebuild_from c now indexed ids
    | ok (some a) ↦ elim (is_expired a now) [
      | true ↦
          rebuild_from (record c { store = (os.delete c.store x).0; purged = c.purged + 1 }) now
            indexed ids
      | false ↦
          let indexed_too = record c { index = put c.index (key_of a) a.tool_call_id } in
          elim (get c.index (key_of a)) [
            | none ↦ rebuild_from indexed_too now (suc indexed) ids
            | some current ↦ elim (os.get c.store current) [
              | raise e ↦ (raise e, c)
              | ok none ↦ rebuild_from indexed_too now indexed ids
              | ok (some b) ↦ elim (fl.lt b.expires_at a.expires_at) [
                | true ↦ rebuild_from indexed_too now indexed ids
                | false ↦ rebuild_from c now indexed ids
              ]
            ]
          ]
    ]
  ]

  unfoldable pub rebuild_index : ToolArtifactCache S → F → Result ℕ × ToolArtifactCache S
  rebuild_index c now = rebuild_from (record c { index = [] }) now 0 (os.list_ids c.store)
