-- ===== src/Lib.antt =====
-- Verification library of seerflow, a log analysis and alerting service (Python, under src/seerflow).
--
-- The program ingests log events, correlates them per entity, raises alerts, and enriches and
-- delivers these. Each part modelled keeps bounded state in memory and is driven by calls that one
-- coroutine makes at a time, so a call is one step from a state to a state; a call that awaits between
-- its reads and its writes, such as the flush of a digest or the handshake of a WebSocket, is two. Clocks
-- are arguments.
--
-- Base: numbers, lists, dictionaries in insertion order, eviction of the oldest entries, and the
--   bounded least-recently-used map (`lru_put`) that the bounded components are compared with.
-- Models: src/seerflow/models/event.py, alert.py, _types.py, query.py, entity.py.
-- Correlation: src/seerflow/correlation. Window is EntityWindowBuffer (window.py), Watermark is
--   Watermark (watermark.py), KillChain is KillChainTracker (kill_chain.py), Risk is RiskRegister
--   (risk.py). `add_event`, `query`, `prune`, `record_alert`, `add_risk` and the rest keep the names
--   of the methods; a loop of a method is a function of its own.
--   Engine is CorrelationEngine (engine.py), which queries the window buffer.
-- Alerting: src/seerflow/alerting. Router is NotificationRouter (router.py), Dispatcher is
--   AlertDispatcher (dispatcher.py), which drives the router, and Retry is post_with_retry (_http.py).
-- Receivers: src/seerflow/receivers. Manager is ReceiverManager (manager.py). Queues is the
--   asyncio.Queue that it and the dispatcher put to without waiting.
-- Config: src/seerflow/config.py and _config_validation.py. Detection is the detection settings and
--   their validation, `validate_detection_config`.
-- Ueba: src/seerflow/ueba. Store is BaselineStore (store.py), Baseline is EntityBaseline (baseline.py)
--   and Engine is UEBAEngine (engine.py).
-- Detection: src/seerflow/detection. Cusum is CUSUMDetector (cusum.py), Markov is MarkovDetector
--   (markov.py), Threshold is DSpotThreshold (threshold.py). Floats is the interface of the
--   floating-point numbers and Samples an instance of it that the tests compute with.
-- Api: src/seerflow/api. Latency is StageLatencyTracker (latency.py), Connections is
--   ConnectionManager and its filters (ws.py), Timeline is AnomalyTimelineRing (anomaly_timeline.py).
-- ThreatIntel: src/seerflow/threat_intel. Circuit is AuthCircuitBreaker (circuit.py), Bloom is
--   _BloomFilter (_bloom.py), Matcher is IoCMatcher (matcher.py).
-- Llm: src/seerflow/llm. TtlCache is the store of ExplanationCache, RuleSuggestionCache and HuntCache
--   (the three cache.py).
--
-- Loops are structural recursion on the list that they consume, or on the number of turns left; only
-- the consumer loop of the dispatcher is on fuel, one more than the alerts queued. Floating-point
-- numbers are parameters, with the order laws that the code relies on where it does, and so are
-- regular expressions, the uuid library, hashes and what else stands outside the repository. An error
-- path is `none`, or the error as a value.
--
-- Not modelled: input and output (network, files, SQL, HTTP), the third-party template miner and
-- machine-learning detectors, locks (a call is one step), log messages and the text of descriptions.
pub mod Base
pub mod Queues
pub mod Models
pub mod Correlation
pub mod ThreatIntel
pub mod Llm
pub mod Config
pub mod Api
pub mod Ueba
pub mod Alerting
pub mod Receivers
pub mod Detection
