-- ===== src/Lib.antt =====
-- The neutron query relayer: it watches the interchain queries that are registered on Neutron,
-- fetches proofs for them from a target chain, and submits these to Neutron.
--
-- The parts, and how they interact. The subscriber (internal/subscriber) keeps the active queries
-- and sends those that are due to the relayer (internal/relay/relayer.go), which dispatches them by
-- type. A KV query goes to the KV processor (internal/kvprocessor), which asks the proof querier
-- (internal/tmquerier) for values with proofs. For a TX query the relayer builds a query string,
-- searches for transactions by the TX querier (internal/txquerier), and gives each one to the TX
-- processor (internal/txprocessor). Both processors take headers from the trusted header fetcher
-- (internal/trusted_headers) and submit by the submitter and its sender (internal/submit). The
-- storage (internal/storage/leveldb.go) keeps heights, statuses and cached transactions; the checker
-- (internal/txsubmitchecker) turns submitted transactions into committed or failed ones, and the web
-- server (internal/http) shows and resubmits the failed ones.
--
-- The files. Prelude (with the files of Prelude), Errors, Exec, Fails, Loop and Retry are shared:
-- byte strings, Go's errors as values, actions on a state that may return an error (what was done
-- before the error stays done), which errors of an action are critical, and loops on fuel. Strconv
-- and Hex model what the sources use of Go's strconv and encoding/hex.
--   * Relay, Interfaces: the structs and interfaces of internal/relay (Transaction, MessageKV,
--     Storage, TXProcessor and so on); an interface is a record of actions on the process's state.
--   * Registry: internal/registry/registry.go; `new` is New, and a Go map is the list of its keys.
--   * Storage: internal/storage/leveldb.go, one definition per method and helper. Storage/Interface
--     has the database, its laws and the codecs, Storage/Keys the keys, Storage/Spec the abstract
--     store, Storage/Refinement and Storage/Contract the refinement, Storage/Memory a database that
--     meets the laws.
--   * TxFilter: queryFromTxFilter and getOpSign of internal/relay/relayer.go.
--   * Relayer: the rest of internal/relay/relayer.go; `run` is Run over the queries that its channel
--     yields, and `process_stream` is processMessageTX from its loop on.
--   * TxProcessor, TxSubmitChecker: the files of those names; a delayed check is a task that is
--     spawned, and what ends its wait is an argument.
--   * RestParams, RestBodies, RestApi: the generated client of
--     internal/subscriber/querier/client/query, its parameters, the bodies of its answers, and its
--     operations with their readers; RestFetch is how internal/subscriber/utils.go
--     calls them.
--   * RestQuery, QueryMap, Queries, Subscriber: internal/subscriber, with the conversions of
--     internal/subscriber/querier/client/query/utils.go. Queries has what fetches and filters,
--     Subscriber the events; the incoming events are a list in their order of arrival.
--   * TxQuerier: internal/txquerier/txquerier.go; `search_transactions` is the producer, with what it
--     puts on its two channels for a result.
--   * TrustedHeaders: internal/trusted_headers/fetcher.go.
--   * KvProcessor: internal/kvprocessor/kvprocessor.go and internal/tmquerier/querier.go.
--   * TxSender, Submitter: internal/submit/tx_sender.go and submitter_impl.go.
--   * Webserver: the handlers of internal/http/webserver.go and monitoring.go, and the two calls of
--     internal/http/client.go.
--   * App: loadConnParams of internal/app/app.go. Chains: loadChains, with internal/relay/config.go.
--   * Config: internal/config/config.go. RawClients: internal/raw, with the clients of
--     internal/subscriber/utils.go.
--   * Startup: the parts as their constructors make them; Startup/Build has internal/app/deps.go, the
--     other constructors of internal/app/app.go, and startRelayer of
--     cmd/neutron_query_relayer/cmd/start.go up to its goroutines.
--   * Process: startRelayer from its goroutines on. A state has a phase for each of the four
--     goroutines, the shared context, the queue of tasks and whether the storage is open; Arrival is
--     what comes from outside, Move what the process does by itself. The relation leaves the order
--     open, and what a part returns.
--   * Webserver/Routes: the router and the end of the server. Commands: the commands of
--     cmd/neutron_query_relayer/cmd; Strconv/Signed has the Atoi that one of them uses.
--   * Examples, Storage/Examples: tests, and the theorems at inputs.
--
-- Conventions. A uint64 is a natural number, and where the sources add or subtract on it the wrap
-- is written out. An int64 height, an `int` count of a page and a time are natural numbers without
-- a bound, since the sources get them from a chain or a clock. Text is a list of bytes; the
-- messages of errors leave out the arguments that the sources interpolate. An index out of range
-- and a nil pointer, which panic in Go, are errors of their own texts, which the parts pass on. The
-- order in which Go visits a map is the order of its list. Logging, metrics, locks and contexts are
-- left out of the parts, but for the wake of a delayed check and the sends of a search, of which an
-- argument says whether they take the end of the context; Process has the shared context. The
-- retries of a call are an argument (Retry), since their library is other code.
--
-- Code of other repositories is a parameter: the fields of the records Env, Relayer, TxProcessor,
-- TxSubmitChecker, TrustedHeaderFetcher, KvProcessor, ChainClient, SubmitterImpl, Server,
-- IcqClient, Clients, ChainLibrary, ClientLibrary, Libraries, CommandLine, ClientRequest, Formats,
-- Consumer and Transport, and Mux. What is assumed of it is named where it is used:
-- Storage.Interface.Laws for LevelDB, Scans and ReadsBack of Storage.Pending, Relayer.Checkpoint's
-- Handling, the two Uncritical, Advances of Queries.Paging and of TrustedHeaders.Paging,
-- TxQuerier.Complete.Serves, Relayer.Coverage.Uncancelled, Retry.Retries, RestApi.Answered.Reads, Chains.Loaded.Promises,
-- Webserver.Routes.Dispatches and Commands.Resubmission.Reaches.
--
-- Fuel. Only loops over the pages of other servers run on fuel (Loop): the search for transactions,
-- the list of registered queries, and the search for a consensus state. `none` says that the fuel
-- ran out; the results below say how much is enough.
--
-- Not modelled: the metrics but for one gauge, the registration of codecs
-- (internal/raw/encoding.go), the parsing of flags and the reading of the environment, which only
-- call other code; of the generated REST client what the relayer does not call (setters, tests of a
-- status, validation and marshalling), and null items in its lists; a negative capacity of the
-- queue, with which Go's make panics. The delayed checks and the search for transactions, which run
-- beside the four goroutines, are no part of Process, since the process does not wait for them.
pub mod Prelude
pub mod Errors
pub mod Exec
pub mod Loop
pub mod Retry
pub mod Fails
pub mod Strconv
pub mod Registry
pub mod Relay
pub mod RestQuery
pub mod QueryMap
pub mod Queries
pub mod Subscriber
pub mod RestParams
pub mod RestBodies
pub mod RestApi
pub mod RestFetch
pub mod Storage
pub mod TxFilter
pub mod Interfaces
pub mod Hex
pub mod TxQuerier
pub mod TrustedHeaders
pub mod TxSender
pub mod TxProcessor
pub mod KvProcessor
pub mod Submitter
pub mod TxSubmitChecker
pub mod Webserver
pub mod App
pub mod Process
pub mod Config
pub mod Chains
pub mod RawClients
pub mod Startup
pub mod Commands
pub mod Examples
pub mod Relayer
