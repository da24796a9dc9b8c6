-- ===== src/Lib.antt =====
-- IntelliL3 (src/l3store) is a store for the objects of LLM inference: blocks of a key-value cache,
-- RAG chunks, entries of a semantic cache, and the workflows, steps, tool artifacts, plans and traces
-- of agents. The object store writes each object to a storage backend as one or two keys and tells
-- the metadata store about it. The metadata store guards reads by a Bloom filter, finds blocks by
-- token prefixes and prompts by the nearest vectors. The step graph predicts which steps of a workflow
-- run next. The tool cache finds tool artifacts by tool, arguments and scope; the plan cache and the
-- semantic cache find plans and responses by the nearest vectors. The policies read these parts: they
-- choose what leaves a tier (eviction), what stays while an agent waits for a tool (retention, by
-- the latencies that the estimator has seen), and what is fetched ahead (prefetch, by the predicted
-- steps, the session's last requests or similar prompts).
--
-- Files and code:
--   Common.antt, Common/            Python's dict, set, sorted and exceptions, and floats as an interface
--   Metadata/StepGraph.antt         AgentStepGraph, src/l3store/metadata/agent_step_graph.py
--   Metadata/StepGraph/             its links, its validity and its predictions
--   Metadata/PrefixTree.antt        PrefixTree, src/l3store/metadata/prefix_tree.py
--   Metadata/PrefixTree/            paths of a tree, searches, and the index of tokens
--   Metadata/Bloom.antt             BloomFilter, src/l3store/metadata/bloom_filter.py
--   Metadata/Bloom/                 bits in bytes, and membership
--   Metadata/Hnsw.antt              HNSWIndex, src/l3store/metadata/hnsw_index.py
--   Metadata/Hnsw/                  the labels of the entries, and the results of a search
--   Metadata/Store.antt             MetadataStore, src/l3store/metadata/metadata_store.py
--   Metadata/Store/Existence.antt   what it answers about existence
--   Storage.antt                    StorageBackend, src/l3store/storage/backend.py
--   Storage/Memory.antt             MemoryBackend, src/l3store/storage/memory_backend.py
--   Storage/Keys.antt               the keys under which the object store files objects
--   Core/Enums.antt, Core/Types.antt   the models of src/l3store/core/types.py
--   Core/ObjectStore.antt           the helpers of UnifiedObjectStore, src/l3store/core/object_store.py
--   Core/ObjectStore/               its methods by type of object (Objects, Agent, Prefetch), and
--                                   what a read returns after a put, a deletion or a restart
--   Agent/ToolCache.antt            ToolArtifactCache, src/l3store/agent/tool_cache.py
--   Agent/ToolCache/                its lookups, puts, the upkeep of its index, and the cache over the
--                                   object store
--   Agent/PlanCache.antt            PlanCacheManager, src/l3store/agent/plan_cache.py
--   Agent/Plans.antt                its state, and the comparison of a plan with a request
--   Agent/PlanCache/                its answers, and what it finds after a restart
--   SemanticCache.antt              SemanticCacheManager and SimilaritySearch, src/l3store/semantic_cache/
--   SemanticCache/Answers.antt      its hits and its misses
--   Policies/Lru.antt               LRUEviction, src/l3store/policies/eviction/lru.py
--   Policies/Registry.antt          the registry of policies, src/l3store/policies/registry.py
--   Policies/Scores.antt            what PrefixReuseEviction and WorkflowAwareEviction share
--   Policies/PrefixReuse.antt       PrefixReuseEviction, src/l3store/policies/eviction/prefix_reuse.py
--   Policies/WorkflowAware.antt     WorkflowAwareEviction, src/l3store/policies/eviction/workflow_aware.py
--   Policies/WorkflowAware/         its victims
--   Policies/Latency.antt           ToolLatencyEstimator, src/l3store/policies/agent/tool_latency_estimator.py
--   Policies/Latency/               its profiles, what they keep of the calls, and its snapshots
--   Policies/Retention.antt         AgentTTLPolicy, src/l3store/policies/retention/agent_ttl.py
--   Policies/RetentionState.antt    its state and its decisions
--   Policies/Retention/             its decisions, and when a prefetch is due
--   Policies/Prefetch.antt          what the prefetch policies share, src/l3store/policies/prefetch/base.py
--   Policies/Prefetch/Ranking.antt  the best decisions of many
--   Policies/Prefetch/Session.antt  SessionPrefetchPolicy and SemanticPrefetchPolicy, session_prefetch.py
--                                   and semantic_prefetch.py beside base.py
--   Policies/Prefetch/Session/      the histories of the sessions, and what they predict
--   Policies/Prefetch/Agent.antt    AgentPrefetchPolicy, src/l3store/policies/prefetch/agent_prefetch.py
--   Policies/Prefetch/Agent/        its predictions and its counters
--   Policies/Adaptive.antt          AdaptivePrefetchPolicy, src/l3store/policies/prefetch/adaptive.py
--   Embeddings.antt                 CachedEmbeddingService, src/l3store/embeddings/cache.py
--   Embeddings/Answers.antt         its answers against those of the service
--   Api.antt                        the protobuf messages and src/l3store/api/converters.py
--   Api/Service.antt                L3ServiceImpl, src/l3store/api/grpc_server.py
--   Api/Client.antt                 L3Client, src/l3store/api/grpc_client.py, and what it reads back
--   Api/Batches.antt                their prefetch and their search
--   Api/RoundTrip.antt              what the converters keep
--   Tests.antt, Tests/              the theorems and the model at concrete inputs
--
-- State is a record, passed in and out. A method that can raise returns a Result; where the state has
-- changed before it raises, the state stands beside the Result. No function needs fuel: every loop of
-- the code is over a list, a tree or the tokens. The indices of the Bloom filter are taken
-- modulo its size, as in the code. A top_k or k that is not positive is 0, and counters, turns and
-- token ids are natural numbers.
--
-- Parameters: SHA-256, MD5, hnswlib, numpy's shapes, the floating-point estimates of the Bloom filter,
-- the arithmetic of floats (below 2 ^ 53 whole numbers are exact, where a theorem says so), the conversion
-- to float32, the codecs of pydantic and numpy (src/l3store/storage/serialization.py, and np.save and
-- np.load in converters.py), the clock, str.strip and the texts of numbers, the embedding of a text, the
-- generator of responses, and the storage backend, of which only a write is taken to raise. An object
-- that several parts share, such as the object store or the step graph, is a field of the part that
-- changes it, or an argument of the call that reads it.
--
-- Not modelled: of the gRPC interface the statistics and the start of the server; the generated protobuf
-- code, the S3 client, the reading of the configuration, log lines, threads, benchmarks, examples and
-- scripts; the snapshots of the policies and caches but for the latency estimator's, since they only
-- format their state as dictionaries; and the embedding model, a third-party transformer.
pub mod Common
pub mod Agent
pub mod Api
pub mod Core
pub mod Embeddings
pub mod Metadata
pub mod Policies
pub mod SemanticCache
pub mod Storage
pub mod Tests
