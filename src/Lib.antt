-- ===== src/Lib.antt =====
-- The vLLM production stack router (src/vllm_router): the program that takes OpenAI-style requests
-- and sends each to one of the serving engines behind it; and the command-line client of the decision
-- service beside it (skills/jev-decide).
--
-- The parts and their files
-- - Base: shared helpers. Base/Keys has the equality of dictionary keys, Base/Dict the Python
--   dictionary and set as lists, Base/Json the request body, Base/Floats the interface of Python's
--   floats, Base/Sort `sorted(.., key=..)`, Base/Text the search for a text in another.
-- - HashTrie: src/vllm_router/prefix/hashtrie.py. HashTrie/Chunks cuts a request into chunks, and
--   HashTrie/Trie has the nodes and what an insertion makes of them; HashTrie.insert and
--   HashTrie.longest_prefix_match are the two operations. HashTrie/Match, HashTrie/History and
--   HashTrie/Longest compare the search with the history of insertions.
-- - Discovery: src/vllm_router/service_discovery.py. The data classes are in Discovery itself;
--   Discovery/Static is the list of engines from the command line, with Discovery/Static/Health on
--   its health check; Discovery/Kubernetes is the discovery by pods, with Discovery/Kubernetes/Pods
--   and Discovery/Kubernetes/Known on what a sequence of events leaves; Discovery/Services is the
--   discovery by services, with Discovery/Services/Entries; Discovery/Labels is the label that marks a
--   pod or a service as asleep, Discovery/Models the list of the models of an engine.
-- - Stats: src/vllm_router/stats/request_stats.py. Stats/Window is the sliding window
--   (MovingAverageMonitor), Stats/Monitor the state and the handlers of RequestStatsMonitor with
--   get_request_stats; Stats/Life and Stats/Report compare the counters with the requests themselves.
--   Stats/Engines is the scrape of src/vllm_router/stats/engine_stats.py, Stats/Scrape what it reads of
--   a page.
-- - Routing: src/vllm_router/routers/routing_logic.py, one module per router: Routing/Qps
--   (_qps_routing), Routing/RoundRobin, Routing/Ring (_update_hash_ring), Routing/Session,
--   Routing/PrefixAware, Routing/Disaggregated and Routing/KvAware, with Routing/KvAware/Address on
--   the table of instances. Routing/Registry is the table of singletons with
--   initialize_routing_logic and reconfigure_routing_logic.
-- - Requests: route_general_request of src/vllm_router/services/request_service/request.py;
--   Requests/Serving says which engine may serve a model, Requests/Outcome where a request ends;
--   Requests/Progress is process_request. The other
--   routes of that file are Requests/Prefill (route_disaggregated_prefill_request), Requests/Sleep
--   (route_sleep_wakeup_request) and Requests/Transcriptions (route_general_transcriptions).
-- - Cache: the semantic cache of src/vllm_router/experimental/semantic_cache with the integration of
--   src/vllm_router/experimental/semantic_cache_integration.py. Cache is the store of entries,
--   Cache/Lookup the search, Cache/Chat the texts of a conversation and the two calls around a
--   request, and Cache/History and the modules below Cache/Chat say what is answered from it.
-- - Features: src/vllm_router/experimental/feature_gates.py.
-- - Config: the static lists of src/vllm_router/parsers/yaml_utils.py and their reading in
--   src/vllm_router/utils.py; Config/Lists has the round trip. Config/Arguments is validate_args
--   of src/vllm_router/parsers/parser.py. Config/Watcher is the thread of
--   src/vllm_router/dynamic_config.py that reads the configuration again and again, with
--   Config/Watcher/Settings on the values, Config/Watcher/Sync and Config/Watcher/Turn on a turn.
-- - Batches: src/vllm_router/services/batch_service/local_processor.py over the rows of its table.
--   Batches/Worker interleaves the background task with the calls, Batches/Worker/Invariant and
--   Batches/Worker/Drain are on what that keeps and where it ends, and Batches/Routes has the HTTP
--   routes of src/vllm_router/routers/batches_router.py.
-- - Decide: skills/jev-decide/scripts/decide.py. Decide/Validate has validate and endpoint,
--   Decide/Body has read_file and build_body, Decide/Retry is the loop around a request, Decide/Audit
--   the log of events with Decide/Audit/Links and Decide/Audit/Chain on its hashes. Decide/Client has the requests of main,
--   and Decide/Client/Events the events and main itself.
--
-- How they interact
-- Discovery makes the list of endpoints. A router chooses the url of one of them, from its own state,
-- the trie (PrefixAware) or the hash ring and the request statistics (Session). The request service
-- tells the monitor when a request is sent, gets its first token and ends, and the statistics that
-- come out of that are what the next choice reads. The watcher of the configuration replaces the
-- discovery and the router in their registries; the chat route asks the semantic cache before the
-- request service, and stores the answer after it.
--
-- How code is modelled
-- State is passed explicitly: an operation takes the object's state and gives the new one with the
-- result. A call that raises returns none, or the Boolean false beside the state it has left behind.
-- A dictionary is an association list that keeps the order of insertion, as Python's does; a set is a
-- list whose members alone are read. Strings that are only compared are strings; the prompt that is
-- cut and hashed is a list of code points. The handlers of requests share one loop, and what one does
-- between two awaits is one step. The watchers of Discovery/Kubernetes and Discovery/Services are threads
-- beside that loop. For the pods, during_event is the state that a request sees in the midst of an
-- event, with the engine on offer and its models not yet noted; an event of a service is one step.
-- Floats are the interface Base/Floats.Floats; a theorem that needs an order takes
-- Base/Floats.IsOrdered, the laws that < has on finite floats. xxhash (a function on chunks), the hash
-- of a tuple of urls, the clock, random.choice (an index below the length of the list) and
-- uhashring.HashRing (Routing/Ring.HashRing with the laws IsRing, filled by a sample ring in
-- Routing/Ring/Sample) are parameters, and so are the query for the oldest pending batch, the answers
-- of the upstream server, and the encoding of a JSON text in UTF-8, which fails on a lone surrogate, with
-- the digest of the bytes. Parameters too are the tokenizer and the
-- answers of the LMCache controller (KvAware), the answers of the Kubernetes API to a label, the
-- embedding of a text and the index of FAISS (Cache), the loader of callbacks and the reading of the
-- configuration file (Config/Watcher), and urlsplit, urlunsplit, json.loads, the files and the
-- settings of the environment (Decide): Decide/Client.Environment lists them, and they raise what
-- their types say and nothing else. The batches are shared by tasks that give
-- way at every await, so that a call with a read and a later write is two steps of Batches/Worker, and
-- several such calls write in any order. The table is in a file, so that a process starts on the rows
-- that an earlier one has left.
--
-- Bounds and fuel
-- The only loop on fuel is range in HashTrie/Chunks, with the length of the request as fuel: each turn
-- moves by the chunk size, which is at least 1, so that the fuel is enough; HashTrie/Chunks proves that
-- nothing of the request is left out. A chunk size of 0 raises in range and is none.
--
-- Not modelled
-- The HTTP server and client and the Kubernetes API; the LMCache controller and its thread behind
-- KvawareRouter; the parser of Prometheus text and the metrics endpoint; logging; PII detection; the file
-- service and the storage of its files; the list of options of the router's command line; the module
-- src/vllm_router/experimental/semantic_cache.py, which the package of the same name hides; the
-- argparse description of the decision client, whose result is a record; and everything else outside
-- src/vllm_router and skills/jev-decide (operator, helm charts, benchmarks, debugging scripts, docs,
-- examples). These are input and output around the logic that is modelled, or call libraries only.
pub mod Base
pub mod HashTrie
pub mod Discovery
pub mod Stats
pub mod Routing
pub mod Requests
pub mod Features
pub mod Config
pub mod Batches
pub mod Decide
pub mod Cache
