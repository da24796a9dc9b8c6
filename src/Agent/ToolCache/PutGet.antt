-- ===== src/Agent/ToolCache/PutGet.antt =====
-- An artifact that src/l3store/agent/tool_cache.py has put is the one that it gets.
use intellil.Common.{
  ◌+◌, nat_key, string_key, ◌≟◌, holds, String, true, false, ◌&&◌, Option, none, some, ◌≡◌, ◌≢◌,
  refl, ap, ◌∙◌, arith, ok,
}
use intellil.Common.Float.{Float}
use intellil.Common.Dict.{get, put, get-put_self}
use intellil.Core.Enums.{ArtifactScope}
use intellil.Core.Types.{ObjectMeta, ToolCallArtifact, validate_artifact, is_expired}
use intellil.Core.ObjectStore.{is_empty}
use intellil.Agent.ToolCache.{
  ArtifactStore, Texts, ToolCacheKey, ToolArtifactCache, tool_cache_key, scope_key,
  normalize_tool_name, other_version, new_artifact, checked_artifact, drop_previous,
  put_tool_artifact, serve, look_up, get_tool_artifact,
}

-- What the cache relies on: in a sound store, an artifact that fits and is put is found under its id,
-- with all but its metadata as it was, and stays while others are deleted.
pub record IsArtifactStore {S F Json : Type 0} (os : ArtifactStore S F Json) (Sound : S → Type 0)
    (Fits : ToolCallArtifact F Json → Type 0) : Type 0 where
  pub put-Sound : (s : S) (a : ToolCallArtifact F Json) → Sound s → Sound (os.put s a).1
  pub get-put :
      (s : S) (a : ToolCallArtifact F Json) (x : String)
      → Sound s
      → Fits a
      → (os.put s a).0 ≡ ok x
      → (m : ObjectMeta F) × (os.get (os.put s a).1 x ≡ ok (some (record a { meta = m })))
  pub get-delete_ne :
      (s : S) (x y : String) (a : ToolCallArtifact F Json)
      → Sound s
      → x ≢ y
      → os.get s y ≡ ok (some a)
      → os.get (os.delete s x).0 y ≡ ok (some a)

module _ {S F Json : Type 0} ⦃fl : Float F⦄ (os : ArtifactStore S F Json) (texts : Texts Json)
    {Sound : S → Type 0} {Fits : ToolCallArtifact F Json → Type 0}
    (law : IsArtifactStore os Sound Fits) (c : ToolArtifactCache S) where
  drop_previous-keeps :
      (s : S) (previous : Option String) (x : String) (a : ToolCallArtifact F Json)
      → Sound s
      → os.get s x ≡ ok (some a)
      → os.get (drop_previous os texts s previous x) x ≡ ok (some a)
  unfolding drop_previous
  drop_previous-keeps s none x a sound held = held
  drop_previous-keeps s (some previous) x a sound held = elim (previous ≟ x) [
    | yes e ↦ ground (arith, held)
    | no n ↦ ground (arith, law.get-delete_ne s previous x a sound n held)
  ]

  -- In a sound store, and for an artifact that fits, a put with a name that is not empty, a time to live that is positive and an expiry after it, and
  -- a version where one is required, returns what the store returns, if it stores the artifact; and
  -- until the artifact expires, a get with the same arguments and scope, and the same version or
  -- none, returns it, with the metadata of the read.
  pub put_tool_artifact_lem :
      (meta : ObjectMeta F) (name tool : String) (args output : Json) (ttl : F)
      (scope : ArtifactScope) (version : String) (created now : F) (asked : Option String)
      (x : String)
      → Sound c.store
      → Fits (new_artifact os texts meta tool args output ttl scope version created)
      → normalize_tool_name os texts name ≡ ok tool
      → fl.le ttl (fl.of_nat 0) ≡ false
      → (c.require_source_version && is_empty version) ≡ false
      → fl.le (fl.add created ttl) created ≡ false
      → (os.put c.store (new_artifact os texts meta tool args output ttl scope version created)).0
        ≡ ok x
      → other_version os texts asked version ≡ false
      → fl.le (fl.add created ttl) now ≡ false
      → let (r, c') =
          put_tool_artifact os texts c meta name args output ttl scope version created in
        (r ≡ ok x)
        × (m : ObjectMeta F) × ((get_tool_artifact os texts c' name args scope asked now).0
            ≡ ok (
                some
                  (record (new_artifact os texts meta tool args output ttl scope version created) {
                    meta = m;
                  })))
  unfolding put_tool_artifact checked_artifact validate_artifact new_artifact get_tool_artifact
      look_up serve is_expired
  put_tool_artifact_lem meta name tool args output ttl scope version created now asked x sound fits
        named positive versioned later written same fresh =
      let a = new_artifact os texts meta tool args output ttl scope version created in
      let key : ToolCacheKey = (tool, texts.hash_args args, scope) in
      let s = (os.put c.store a).1 in
      let (m, held) = law.get-put c.store a x sound fits written in
      let b : ToolCallArtifact F Json = record a { meta = m } in
      let c' : ToolArtifactCache S = record c {
        store = drop_previous os texts s (get c.index key) x;
        index = put c.index key x;
        puts = c.puts + 1;
      } in
      let checked : checked_artifact os texts c.require_source_version meta name args output ttl
            scope version created
          ≡ ok a =
        rw (checked_artifact, named, positive, versioned, validate_artifact, later) refl in
      let state : put_tool_artifact os texts c meta name args output ttl scope version created
          ≡ (ok x, c') =
        rw (put_tool_artifact, checked, written) refl in
      let kept = drop_previous-keeps s (get c.index key) x b (law.put-Sound c.store a sound) held in
      let found = get-put_self c.index key x in
      let scoped : holds (scope ≟ scope) ≡ true = ground arith in
      let step : get_tool_artifact os texts c' name args scope asked now
          ≡ look_up os texts c' key asked now =
        rw (get_tool_artifact, named) refl in
      let r = serve os texts c' key x b asked now in
      let loaded : look_up os texts c' key asked now ≡ (ok r.0, r.1) =
        rw (look_up, found, kept) refl in
      let hit : r.0 ≡ some b = rw (serve, same, scoped, is_expired, fresh) refl in
      rw state (refl, m, ap (λ q. q.0) step ∙ ap (λ q. q.0) loaded ∙ ap ok hit)
