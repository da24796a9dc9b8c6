-- ===== src/Tests/Fixtures.antt =====
-- Concrete libraries, a codec that keeps its values, and backends, for the runs of the other modules.
use intellil.Common.{
  ℕ, ◌+◌, ◌-◌, ◌*◌, ◌/◌, ltb, leb, ◌==◌, not, keep, string_key, ◌≟◌, ite, holds, String, Bool, true,
  false, none, some, List, [], ◌∷◌, ◌≡◌, sym, ap, arith, Result, ok, raise, value_error,
  storage_error, Error, length, map, take, Bool-cases, inl, inr,
}
use Prim.Native.String.{len}
use intellil.Common.Float.{Float, IsOrdered}
use intellil.Core.Types.{
  AgentWorkflow, AgentStep, ToolCallArtifact, PlanCacheEntry, WorkflowTrace, KvCacheBlock,
  RagObject, SemanticCacheEntry,
}
use intellil.Metadata.Hnsw.{HnswLib}
use intellil.Metadata.Store.{Libraries}
use intellil.Storage.{Backend, IsStorage}
use intellil.Storage.Memory.{MemoryBackend, put_object, get_object, memory, memory-IsStorage}
use intellil.Core.ObjectStore.Objects.{Serializer, ObjectsConfig}

-- Natural numbers in place of floats.
instance abbrev pub counts : Float ℕ
counts = record {
  of_nat = λ n. n;
  add = λ a c. a + c;
  sub = λ a c. a - c;
  mul = λ a c. a * c;
  div = λ a c. a / c;
  neg = λ a. a;
  floor = λ a. a;
  le = leb;
  lt = ltb;
}

pub counts-IsOrdered : IsOrdered counts
counts-IsOrdered = record {
  total = λ a c. elim (Bool-cases (leb a c)) [ inl h ↦ inl h | inr h ↦ inr (ground arith) ];
  trans = λ a c e p q. ground arith;
  strict = λ a c. ground arith;
}

abbrev pub Vector : Type 0
Vector = List ℕ

-- An index is the list of its labels; each is at distance 0.
abbrev pub hnswlib : HnswLib ℕ (List ℕ) (List ℕ)
hnswlib = record {
  shape = λ v. length v ∷ [];
  empty_index = λ dim n. [];
  add_items = λ index v i replace. i ∷ index;
  mark_deleted = λ index i. keep (λ j. not (i == j)) index;
  knn_query = λ index v k. map (λ i. (i, 0)) (take k index);
}

abbrev pub libraries : Libraries ℕ (List ℕ) (List ℕ)
libraries = record { sha256 = λ s. len s + 61; md5 = λ s. len s + 3; hnswlib = hnswlib }

-- What is written, as a value.
pub data Blob : Type 0 where
  kv : KvCacheBlock ℕ → Blob
  tensors : List ℕ × List ℕ → Blob
  rag : RagObject ℕ → Blob
  vector : List ℕ → Blob
  semantic : SemanticCacheEntry ℕ → Blob
  workflow : AgentWorkflow ℕ → Blob
  step : AgentStep ℕ → Blob
  artifact : ToolCallArtifact ℕ String → Blob
  plan : PlanCacheEntry ℕ → Blob
  trace : WorkflowTrace ℕ String → Blob

abbrev pub serializer : Serializer ℕ String (List ℕ) Blob
serializer = record {
  kv_block_meta = record { dump = kv; load = elim [ kv t ↦ ok t | _ ↦ raise value_error ] };
  kv_tensors = record { dump = tensors; load = elim [ tensors t ↦ ok t | _ ↦ raise value_error ] };
  rag_meta = record { dump = rag; load = elim [ rag t ↦ ok t | _ ↦ raise value_error ] };
  embedding = record { dump = vector; load = elim [ vector t ↦ ok t | _ ↦ raise value_error ] };
  semantic_entry = record {
    dump = semantic;
    load = elim [ semantic t ↦ ok t | _ ↦ raise value_error ];
  };
  agent_workflow = record {
    dump = workflow;
    load = elim [ workflow t ↦ ok t | _ ↦ raise value_error ];
  };
  agent_step = record { dump = step; load = elim [ step t ↦ ok t | _ ↦ raise value_error ] };
  tool_artifact = record {
    dump = artifact;
    load = elim [ artifact t ↦ ok t | _ ↦ raise value_error ];
  };
  plan_cache_entry = record { dump = plan; load = elim [ plan t ↦ ok t | _ ↦ raise value_error ] };
  workflow_trace = record { dump = trace; load = elim [ trace t ↦ ok t | _ ↦ raise value_error ] };
  nbytes = λ v. 4 * length v;
  compute_token_hash = λ ts. "hash";
}

abbrev pub config : ObjectsConfig
config = record {
  kv_prefix = "kv/";
  rag_prefix = "rag/";
  sem_prefix = "sem/";
  workflows_prefix = "agent/workflows/";
  steps_prefix = "agent/steps/";
  tools_prefix = "agent/tools/";
  plans_prefix = "agent/plans/";
  traces_prefix = "agent/traces/";
}

-- A memory backend that refuses to write one key.
abbrev put_unless :
    Bool → MemoryBackend Blob → String → Blob → Result (Unit {0}) × MemoryBackend Blob
put_unless true s k v = (raise storage_error, s)
put_unless false s k v = (ok tt, put_object s k v none)

abbrev pub refusing : String → Backend (MemoryBackend Blob) Blob
refusing bad = record memory { put = λ s k v. put_unless (holds (k ≟ bad)) s k v }

get-put_unless :
    (refused : Bool) (s s' : MemoryBackend Blob) (k j : String) (v : Blob)
    → put_unless refused s k v ≡ (ok tt, s')
    → get_object s' j ≡ ite (k ≟ j) (some v) (get_object s j)
get-put_unless true s s' k j v e = absurd (ground arith)
get-put_unless false s s' k j v e = memory-IsStorage.get-put s s' k j v e

get-put_unless_failed :
    (refused : Bool) (s s' : MemoryBackend Blob) (k j : String) (v : Blob) (err : Error)
    → put_unless refused s k v ≡ (raise err, s')
    → get_object s' j ≡ get_object s j
get-put_unless_failed true s s' k j v err e =
    ap (λ (r : Result (Unit {0}) × MemoryBackend Blob). get_object r.1 j) (sym e)
get-put_unless_failed false s s' k j v err e = absurd (ground arith)

pub refusing-IsStorage : (bad : String) → IsStorage (refusing bad)
refusing-IsStorage bad = record {
  get-put = λ s s' k j v e. get-put_unless (holds (k ≟ bad)) s s' k j v e;
  get-put_failed = λ s s' k j v err e. get-put_unless_failed (holds (k ≟ bad)) s s' k j v err e;
  get-delete = memory-IsStorage.get-delete;
  delete_answer = memory-IsStorage.delete_answer;
  get-delete_many = memory-IsStorage.get-delete_many;
  delete_many_some = memory-IsStorage.delete_many_some;
}
