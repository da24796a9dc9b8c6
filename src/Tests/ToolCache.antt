-- ===== src/Tests/ToolCache.antt =====
-- A cache over a dictionary of artifacts, and one over an object store in memory.
use intellil.Common.{
  List, ℕ, nat_key, string_key, String, false, none, some, [], ◌∷◌, ◌≡◌, refl, ok,
}
use intellil.Common.Dict.{Dict, keys, get, put, pop, has}
use intellil.Core.Enums.{user, private, tool_call_artifact}
use intellil.Core.Types.{ObjectMeta, ToolCallArtifact}
use intellil.Agent.ToolCache.{
  ArtifactStore, Texts, ToolArtifactCache, tool_cache_key, normalize_tool_name, new_artifact,
  put_tool_artifact, get_tool_artifact,
}
use intellil.Agent.ToolCache.Lookups.{Answers, get_tool_artifact-Answers}
use intellil.Agent.ToolCache.Stored.{artifact_store, get_tool_artifact-put_tool_artifact-stored}
use intellil.Core.ObjectStore.{UnifiedObjectStore}
use intellil.Storage.Memory.{MemoryBackend, memory, memory-IsStorage}
use intellil.Agent.ToolCache.Upkeep.{invalidate_tool_artifacts}
use intellil.Agent.ToolCache.Upkeep.Invalidation.{
  IsInvalidated, invalidate_tool_artifacts-IsInvalidated,
}
use intellil.Tests.Fixtures.{counts, Blob, libraries, serializer, config}
use intellil.Tests.ObjectStore.{meta_of, call, new_store, fresh-IsValid}

abbrev Artifacts : Type 0
Artifacts = Dict String (ToolCallArtifact ℕ String)

abbrev dictionary : ArtifactStore Artifacts ℕ String
dictionary = record {
  put = λ s a. (ok a.tool_call_id, put s a.tool_call_id a);
  get = λ s x. ok (get s x);
  delete = λ s x. (pop s x, has s x);
  list_ids = λ s. keys s;
}

abbrev texts : Texts String
texts = record {
  strip = λ s. s;
  hash_args = λ j. "hash";
  tool_call_id = λ name args scope version. "a";
}

abbrev cache : ToolArtifactCache Artifacts
cache = record {
  store = ("a", call) ∷ [];
  require_source_version = false;
  index = (("search", "hash", private), "a") ∷ (("fetch", "hash", user), "b") ∷ [];
  puts = 2;
  hits = 0;
  misses = 0;
  expired = 0;
  invalidated = 0;
  reindexed = 0;
  purged = 0;
}

get_tool_artifact-Answers_example :
    Answers dictionary texts cache
      ("search", "hash", private)
      none
      12
      (get_tool_artifact dictionary texts cache "search" "{}" private none 12)
unfolding normalize_tool_name intellil.Core.ObjectStore.is_empty
get_tool_artifact-Answers_example =
    get_tool_artifact-Answers dictionary texts cache "search" "search" "{}" private none 12 refl

invalidate_tool_artifacts-IsInvalidated_example :
    (n : ℕ) × ((invalidate_tool_artifacts dictionary texts cache (some "search") none).0 ≡ ok n)
    × IsInvalidated dictionary texts cache
        (some "search")
        none
        (invalidate_tool_artifacts dictionary texts cache (some "search") none).1
        n
unfolding intellil.Core.ObjectStore.is_empty
invalidate_tool_artifacts-IsInvalidated_example =
    invalidate_tool_artifacts-IsInvalidated dictionary texts cache (some "search") (some "search")
      none (refl, refl)

abbrev store_cache : ToolArtifactCache (UnifiedObjectStore (MemoryBackend Blob) (List ℕ))
store_cache = record {
  store = new_store;
  require_source_version = false;
  index = [];
  puts = 0;
  hits = 0;
  misses = 0;
  expired = 0;
  invalidated = 0;
  reindexed = 0;
  purged = 0;
}

abbrev objects : ArtifactStore (UnifiedObjectStore (MemoryBackend Blob) (List ℕ)) ℕ String
objects = artifact_store libraries memory serializer config 21

abbrev new_call : ToolCallArtifact ℕ String
new_call =
    new_artifact objects texts (meta_of tool_call_artifact) "search" "{}" "[]" 5 private "" 20

get_tool_artifact-put_tool_artifact-stored_example :
    let (r, c') =
      put_tool_artifact objects texts store_cache
        (meta_of tool_call_artifact)
        "search"
        "{}"
        "[]"
        5
        private
        ""
        20 in
    (r ≡ ok "a")
    × (m : ObjectMeta ℕ) × ((get_tool_artifact objects texts c' "search" "{}" private none 22).0
        ≡ ok (some (record new_call { meta = m })))
unfolding new_artifact intellil.Core.ObjectStore.is_empty
get_tool_artifact-put_tool_artifact-stored_example =
    get_tool_artifact-put_tool_artifact-stored libraries memory serializer config 21
      memory-IsStorage texts store_cache (meta_of tool_call_artifact) "search" "{}" "[]" 5 private
      "" 20 22 none fresh-IsValid refl refl refl refl refl refl refl refl
