-- ===== src/Agent/ToolCache.antt =====
-- `ToolArtifactCache` of src/l3store/agent/tool_cache.py: an index of tool artifacts by tool, hash of
-- the arguments and scope, over the object store. `hash_args` and the digest of an id are json's and
-- hashlib's, `strip` is Python's. A put is given the `meta` that pydantic makes by default.
pub mod Lookups
pub mod Upkeep
pub mod PutGet
pub mod Stored
use intellil.Common.{
  ℕ, zero, suc, ◌+◌, nat_key, string_key, Key, ◌≟◌, holds, String, Bool, true, false, not, ◌&&◌,
  ◌||◌, Option, none, some, List, [], ◌∷◌, ◌≡◌, refl, sym, ap, ◌∙◌, Result, ok, raise, value_error,
  ◌>>=◌, ◌>>◌, raise_if, length, keep, if◌then◌else◌,
}
use intellil.Common.Float.{Float}
use intellil.Common.Dict.{Dict, get, put, pop}
use intellil.Core.Enums.{ArtifactScope, public, session, user, workflow, private}
use intellil.Core.Types.{ObjectMeta, ToolCallArtifact, validate_artifact, is_expired}
use intellil.Core.ObjectStore.{is_empty}

-- The methods of the object store that the cache calls.
pub record ArtifactStore (S F Json : Type 0) : Type 0 where
  pub put : S → ToolCallArtifact F Json → Result String × S
  pub get : S → String → Result (Option (ToolCallArtifact F Json))
  pub delete : S → String → S × Bool
  pub list_ids : S → List String

pub record Texts (Json : Type 0) : Type 0 where
  pub strip : String → String
  pub hash_args : Json → String
  pub tool_call_id : String → String → ArtifactScope → String → String

scope_code : ArtifactScope → ℕ
scope_code public = 0
scope_code session = 1
scope_code user = 2
scope_code workflow = 3
scope_code private = 4

code_scope : ℕ → ArtifactScope
code_scope zero = public
code_scope (suc zero) = session
code_scope (suc (suc zero)) = user
code_scope (suc (suc (suc zero))) = workflow
code_scope _ = private

code_scope_lem : (s : ArtifactScope) → code_scope (scope_code s) ≡ s
unfolding code_scope scope_code
code_scope_lem public = refl
code_scope_lem session = refl
code_scope_lem user = refl
code_scope_lem workflow = refl
code_scope_lem private = refl

unfoldable pub scope_dec : Discrete ArtifactScope
unfolding scope_code code_scope code_scope_lem
scope_dec s t = elim (scope_code s ≟ scope_code t) [
  | yes e ↦ yes (sym (code_scope_lem s) ∙ ap code_scope e ∙ code_scope_lem t)
  | no n ↦ no (λ e. n (ap scope_code e))
]

instance abbrev pub scope_key : Key ArtifactScope
scope_key = record { dec = scope_dec }

abbrev pub ToolCacheKey : Type 0
ToolCacheKey = String × String × ArtifactScope

unfoldable pub tool_cache_dec : Discrete ToolCacheKey
tool_cache_dec (a, b, s) (c, d, t) = elim (a ≟ c) [
  | no n ↦ no (λ e. n (ap (λ (k : ToolCacheKey). k.0) e))
  | yes p ↦ elim (b ≟ d) [
    | no n ↦ no (λ e. n (ap (λ (k : ToolCacheKey). k.1) e))
    | yes q ↦ elim (s ≟ t) [
      | no n ↦ no (λ e. n (ap (λ (k : ToolCacheKey). k.2) e))
      | yes r ↦ yes (cc)
    ]
  ]
]

instance abbrev pub tool_cache_key : Key ToolCacheKey
tool_cache_key = record { dec = tool_cache_dec }

pub record ToolArtifactCache (S : Type 0) : Type 0 where
  pub store : S
  pub require_source_version : Bool
  pub index : Dict ToolCacheKey String
  pub puts : ℕ
  pub hits : ℕ
  pub misses : ℕ
  pub expired : ℕ
  pub invalidated : ℕ
  pub reindexed : ℕ
  pub purged : ℕ

module _ {S F Json : Type 0} ⦃fl : Float F⦄ (os : ArtifactStore S F Json) (texts : Texts Json) where
  -- `_normalize_tool_name`
  unfoldable pub normalize_tool_name : String → Result String
  normalize_tool_name name = do
    raise_if (is_empty (texts.strip name)) value_error
    ok (texts.strip name)

  -- The artifact that `put_tool_artifact` builds, before its validators run.
  unfoldable pub new_artifact :
      ObjectMeta F → String → Json → Json → F → ArtifactScope → String → F → ToolCallArtifact F Json
  new_artifact meta name args output ttl scope version created = record {
    meta = meta;
    tool_call_id = texts.tool_call_id name (texts.hash_args args) scope version;
    tool_name = name;
    tool_args_hash = texts.hash_args args;
    tool_output_hash = texts.hash_args output;
    tool_output_payload = output;
    ttl = ttl;
    source_version = version;
    permission_scope = scope;
    created_at = created;
    expires_at = fl.add created ttl;
  }

  -- The guards of `put_tool_artifact`, and what it is to store.
  unfoldable pub checked_artifact :
      Bool
      → ObjectMeta F
      → String
      → Json
      → Json
      → F
      → ArtifactScope
      → String
      → F
      → Result (ToolCallArtifact F Json)
  checked_artifact required meta name args output ttl scope version now = do
    tool ← normalize_tool_name name
    raise_if (fl.le ttl (fl.of_nat 0)) value_error
    raise_if (required && is_empty version) value_error
    validate_artifact (new_artifact meta tool args output ttl scope version now)

  -- The previous artifact under the key goes where its id is another one.
  unfoldable pub drop_previous : S → Option String → String → S
  drop_previous s none x = s
  drop_previous s (some previous) x = if holds (previous ≟ x) then s else (os.delete s previous).0

  unfoldable pub put_tool_artifact :
      ToolArtifactCache S
      → ObjectMeta F
      → String
      → Json
      → Json
      → F
      → ArtifactScope
      → String
      → F
      → Result String × ToolArtifactCache S
  put_tool_artifact c meta name args output ttl scope version now =
      elim (checked_artifact c.require_source_version meta name args output ttl scope version now) [
        | raise e ↦ (raise e, c)
        | ok a ↦
            let key : ToolCacheKey = (a.tool_name, a.tool_args_hash, scope) in
            let previous = get c.index key in
            let (r, s) = os.put c.store a in
            elim r [
              | raise e ↦ (raise e, record c { store = s })
              | ok x ↦ (
                ok x,
                record c {
                  store = drop_previous s previous x;
                  index = put c.index key x;
                  puts = c.puts + 1;
                },
              )
            ]
      ]

  abbrev pub miss : ToolArtifactCache S → ToolArtifactCache S
  miss c = record c { misses = c.misses + 1 }

  -- `source_version is not None and artifact.source_version != source_version`
  abbrev pub other_version : Option String → String → Bool
  other_version none v = false
  other_version (some wanted) v = not (holds (v ≟ wanted))

  -- The tests of `get_tool_artifact` on the artifact that it has loaded.
  unfoldable pub serve :
      ToolArtifactCache S
      → ToolCacheKey
      → String
      → ToolCallArtifact F Json
      → Option String
      → F
      → Option (ToolCallArtifact F Json) × ToolArtifactCache S
  serve c key x a version now =
      if other_version version a.source_version
      then (none, miss c)
      else if not (holds (a.permission_scope ≟ key.2))
      then (none, miss c)
      else if is_expired a now
      then (
        none,
        miss (record c {
          index = pop c.index key;
          store = (os.delete c.store x).0;
          expired = c.expired + 1;
        }),
      )
      else (some a, record c { hits = c.hits + 1 })

  unfoldable pub look_up :
      ToolArtifactCache S
      → ToolCacheKey
      → Option String
      → F
      → Result (Option (ToolCallArtifact F Json)) × ToolArtifactCache S
  look_up c key version now = elim (get c.index key) [
    | none ↦ (ok none, miss c)
    | some x ↦ elim (os.get c.store x) [
      | raise e ↦ (raise e, c)
      | ok none ↦ (ok none, miss (record c { index = pop c.index key }))
      | ok (some a) ↦ let (r, c') = serve c key x a version now in (ok r, c')
    ]
  ]

  unfoldable pub get_tool_artifact :
      ToolArtifactCache S
      → String
      → Json
      → ArtifactScope
      → Option String
      → F
      → Result (Option (ToolCallArtifact F Json)) × ToolArtifactCache S
  get_tool_artifact c name args scope version now = elim (normalize_tool_name name) [
    | raise e ↦ (raise e, c)
    | ok tool ↦ look_up c (tool, texts.hash_args args, scope) version now
  ]
