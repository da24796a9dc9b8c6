-- ===== src/Tests/Api.antt =====
-- The gRPC client and service over a memory backend.
use intellil.Common.{String, ℕ, some, [], ◌∷◌, ◌≡◌, refl, ok, raise, value_error, string_dec}
use intellil.Core.Enums.{kv_cache}
use intellil.Core.Types.{KvCacheBlock, touch}
use intellil.Core.ObjectStore.{put_pair}
use intellil.Core.ObjectStore.Objects.{prepared_kv_block}
use intellil.Storage.Memory.{memory, memory-IsStorage}
use intellil.Api.{NumpyIo, all_int32, type_of, find_type, type_text}
use intellil.Api.Client.{client_put_kv, client_get_kv, served_kv, client_get_kv-client_put_kv}
use intellil.Common.Dict.{Dict, get}
use intellil.Core.ObjectStore.Prefetch.{Loaded, tool_artifact}
use intellil.Api.Batches.{PrefetchDecisionProto, answer_decisions, payload_of, as_rag}
use intellil.Tests.Fixtures.{counts, libraries, Vector, serializer, config}
use intellil.Tests.ObjectStore.{call, meta_of, block, new_store, fresh-IsValid}

abbrev numpy : NumpyIo Vector Vector
numpy = record { save = λ v. v; load = λ v. ok v }

-- A block of an agent, with a parent
abbrev sent_block : KvCacheBlock ℕ
sent_block = record block {
  meta = record (meta_of kv_cache) { agent_id = some "planner" };
  parent_block_id = some "b";
}

unknown_type : type_of "table" ≡ raise value_error
unfolding string_dec find_type type_of type_text
unknown_type = refl

client_get_kv-client_put_kv_example :
    ((client_put_kv libraries memory serializer config numpy new_store sent_block
        (3 ∷ [])
        (4 ∷ [])).0
      ≡ ok "a")
    × (client_get_kv libraries memory serializer config numpy
          (client_put_kv libraries memory serializer config numpy new_store sent_block
            (3 ∷ [])
            (4 ∷ [])).1
          "a"
          20
        ≡ ok (
            some (
              served_kv libraries memory serializer config numpy sent_block (3 ∷ []) (4 ∷ []) 20,
              3 ∷ [],
              4 ∷ [],
            )))
unfolding put_pair all_int32 touch prepared_kv_block
client_get_kv-client_put_kv_example =
    client_get_kv-client_put_kv libraries memory serializer config numpy memory-IsStorage new_store
      sent_block (3 ∷ []) (4 ∷ []) 20 fresh-IsValid refl refl refl refl refl refl refl

abbrev asked : String → PrefetchDecisionProto ℕ
asked type = record { object_id = "a"; priority = 1; prefetch_type = type }

abbrev an_artifact : Dict String (Loaded ℕ String Vector)
an_artifact = ("a", tool_artifact call) ∷ []

-- An artifact that was loaded is left out of the response, and as a chunk it does not unpack.
artifact_dropped :
    answer_decisions libraries memory serializer config numpy an_artifact
      (asked "tool_artifact" ∷ [])
    ≡ ok []
unfolding get string_dec answer_decisions payload_of
artifact_dropped = refl

artifact_as_chunk :
    answer_decisions libraries memory serializer config numpy an_artifact (asked "rag" ∷ [])
    ≡ raise value_error
unfolding get string_dec answer_decisions payload_of as_rag
artifact_as_chunk = refl
