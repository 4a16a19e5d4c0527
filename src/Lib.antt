-- ===== src/Lib.antt =====
-- A model of shield-agent, a security proxy between AI agents and the servers and providers they
-- call, and the theorems that make its parts correct.
--
-- A request comes in through a transport (internal/transport/proxy, internal/process), is read as
-- a JSON-RPC message (internal/jsonrpc), and runs through a chain of middlewares
-- (internal/middleware): authentication, tokens, the guard. Each may refuse it. Outgoing calls are
-- checked by a policy in the egress proxy (internal/egress) and recorded in a log that is chained by
-- hashes (internal/compliance, internal/storage). A request is also logged with its response.
--
-- The files:
--   Prelude, and the files below it: Go's strings as lists of bytes, maps as functions, pairs of a
--     value and an error, signed integers. Prelude/Scanner is bufio.Scanner with its limit on lines.
--   Jsonrpc: the messages of internal/jsonrpc/message.go.
--   Chain: the chain of internal/middleware/middleware.go. A middleware is a pair of functions on
--     one state that all middlewares share. Chain/Stops: where a request is stopped.
--   Pipeline: internal/process/pipeline.go over the messages of internal/jsonrpc/parser.go, with
--     PipelineIn and PipelineOut as pipeline_in and pipeline_out. Pipeline/Answered: what is written.
--   Guard: internal/middleware/guard.go. Guard/RateLimiter is rateLimiter, Guard/BruteForce is
--     bruteForceTracker, Guard/IpAccess is CheckIPAccess, Guard/Request is ProcessRequest,
--     Guard/Config is NewGuardMiddleware.
--   Auth: Auth/Base58 is base58Decode and Auth/KeyStore the stores and ResolveDIDKey of
--     internal/auth/auth.go; Auth/Stores is composite_store.go and db_store.go there,
--     Auth/KeyTable the agent keys of internal/storage/db.go; Auth/HttpAuth is
--     internal/middleware/httpauth/httpauth.go, with the chains and loggers of internal/middleware/a2a
--     and httpapi; Auth/Middleware is internal/middleware/auth.go, whose AuthResult is
--     in AuthResult.
--   Token: internal/token/store.go, and Token/Middleware internal/middleware/token.go.
--   Audit: Audit/Row and Audit/Store are internal/storage/egress.go, Audit/Chain is
--     internal/compliance/hashchain.go. Audit/Chain/Append lets one writer hash and insert the rows
--     it is given; Audit/Chain/Purged and Audit/Chain/Repurged join the verifier and PurgeEgress.
--     Audit/Writer is internal/compliance/log_writer.go, as steps of its callers and its goroutine,
--     and Audit/Writer/Stored says what these steps leave in the database;
--     Audit/LogMiddleware egress_log_mw.go there and Audit/Digest digest.go.
--   Parser: the framing by Content-Length of internal/jsonrpc/parser.go.
--   Proxy: internal/transport/proxy. Proxy/Router is router.go and Proxy/Detect detect.go;
--     Proxy/Messages is common.go, Proxy/Cors cors.go, Proxy/Sse sse.go and session.go,
--     Proxy/Streamable streamable.go and Proxy/Dispatch protocol.go, over the requests, answers and
--     effects of Proxy/Http. Proxy/Accepted: what the streamable transport sends.
--   Config: internal/config/config.go and internal/reputation/config.go, with Load and Validate.
--   Registry: internal/middleware/registry.go. Registry/Reload is the chain of runProxy in
--     cmd/shield-agent/proxy.go, at the start and on SIGHUP.
--   Webui: internal/webui/api.go, with its tables in Webui/Tables and Webui/Tokens; Webui/Handlers and
--     Webui/Sessions: who may use it. Webui/Toggled and Webui/Restarted join it with the next start.
--   Storage: internal/storage/db.go, with the migrations in Storage/Schema. Storage/Overrides joins
--     the configuration table and Config/Load.
--   Egress: the chain of internal/egress/middleware.go; Egress/Policy is internal/compliance/policy.go,
--     Egress/Provider internal/egress/provider_detect.go, over the hosts below a domain of
--     Egress/Domain. Egress/Headers and Egress/Proxy are internal/egress/proxy.go: Http is handleHTTP,
--     Mitm is handleMITM, Connect is handleConnect and ServeHTTP.
--   Compliance: the policy and the audit log as middlewares on one state; Compliance/Enforced has the
--     proxy run them. Compliance/Bodies is middleware.go, pii_scrub.go and content_tag.go of
--     internal/compliance.
--   MessageLog: internal/middleware/log.go.
--   Reputation: calculator.go and cache.go of internal/reputation; Reputation/Stats has
--     the queries of calculator.go, Reputation/Provider is provider.go and store.go.
--   Telemetry: internal/telemetry/collector.go; Telemetry/Batches compares it with a queue.
--   The Examples file of a part applies its theorems at concrete inputs.
--
-- A text is its bytes; ToLower and EqualFold fold the ASCII letters only. A call that holds a
-- mutex is one step. Times are nanoseconds since some instant, and the calls of
-- time.Now within one request give one time; now.Sub(t) >= d is t + d <= now. Counters do not
-- overflow. Packages outside the repository (encoding/json, crypto, net, encoding/hex, base64,
-- yaml) are parameters, and so are floating-point numbers. SQL statements are read as their effect
-- on lists of rows in the order of their ids; failures of the database are modelled in
-- Token/Middleware and Reputation/Provider, where the source handles them. Loops are structural recursion; of those
-- with fuel, spill of Auth/Base58 is given the carry, which each round divides by 256, and the loop of
-- Parser any number above the length of its stream.
--
-- Not modelled: logging, network and process I/O, and the components that no file names (the
-- scrubbing of URLs, certificates, the statistics and the log view of the dashboard, and the command
-- line). What the network answers is an argument of the handlers of the transports and of the egress
-- proxy.
pub mod Prelude
pub mod Jsonrpc
pub mod AuthResult
pub mod Chain
pub mod Pipeline
pub mod Proxy
pub mod Audit
pub mod Guard
pub mod Token
pub mod Auth
pub mod Egress
pub mod Telemetry
pub mod Compliance
pub mod MessageLog
pub mod Reputation
pub mod Config
pub mod Registry
pub mod Parser
pub mod Storage
pub mod Webui
