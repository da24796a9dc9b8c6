-- ===== src/Policies/Registry.antt =====
-- The registry of eviction policies, src/l3store/policies/registry.py, which is a variable of its module.
use intellil.Common.{string_key, String, none, some, List, [], Result, ok, raise, value_error}
use intellil.Common.Dict.{Dict, get, put, keys}

-- The classes that are registered by the module itself
pub data PolicyClass : Type 0 where
  lru_eviction prefix_reuse_eviction workflow_aware_eviction : PolicyClass

module _ {Cls : Type 0} where
  abbrev pub register_eviction_policy : Dict String Cls → String → Cls → Dict String Cls
  register_eviction_policy policies name cls = put policies name cls

  unfoldable pub get_eviction_policy : Dict String Cls → String → Result Cls
  get_eviction_policy policies name = elim (get policies name) [
    | none ↦ raise value_error
    | some cls ↦ ok cls
  ]

  abbrev pub list_eviction_policies : Dict String Cls → List String
  list_eviction_policies policies = keys policies

-- The registry once the module is loaded
unfoldable pub built_in : Dict String PolicyClass
built_in =
    register_eviction_policy
      (register_eviction_policy (register_eviction_policy [] "lru" lru_eviction) "prefix_reuse"
        prefix_reuse_eviction)
      "workflow_aware" workflow_aware_eviction
