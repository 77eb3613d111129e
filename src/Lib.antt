-- ===== src/Lib.antt =====
-- Verification library of go-bb-browser: bb-daemon, which drives the tabs of a Chrome for its JSON-RPC
-- clients, and the client library that spreads calls over several daemons.
--
-- The program. internal/daemon serves JSON-RPC on POST /v1. It names the page targets of Chrome by
-- short ids (internal/state/tab_registry.go), collects what the tabs report in rings
-- (internal/state/ringbuf.go, obs_store.go), closes the tabs that it opened when they are idle
-- (internal/state/tab_idle.go), and logs every call in a file from which a restart learns the tabs
-- that it manages (internal/store). pkg/daemonclient has the client of one daemon and the pool of
-- several, in which a tab id carries the daemon's key.
--
-- Prelude: strings as bytes, maps as association lists with one entry for a key, sorting, the JSON
--   that encoding/json reads and writes, native numbers. A uint64 wraps modulo 2^64.
-- Protocol: pkg/protocol/jsonrpc.go, the methods' names and sets; Params and Message below.
-- State.Ring, State.ObsStore, State.Target, State.TabRegistry, State.TabIdle: internal/state. A method
--   holds its mutex for its whole body and is one function from the state to its results and the new
--   state; a record of the model has the struct's fields, and a function the method's name. History,
--   Inv, Assign, Sync, Expiry hold the proofs. A series of calls is a list of operations that is run
--   from the new state, so a theorem on all series is one on all interleavings of whole methods.
-- Store: internal/store. Record is LogRecord and its body, Replay the reading of the log, State the
--   operations, Fold and Recovery the proofs. A log is its lines and what stands behind the last
--   newline. The disk enters by what it answers to a write, the opening of a new log and the snapshot,
--   the length of a marshalled record by a function; the clock is an argument.
-- Pool: pkg/daemonclient. TabId is FormatTabID and SplitTabID, State the constructor, Walk the counters
--   and order(), Tabs the tab map, Codec the JSON of params and results, Client Client.Call
--   and the walk through the backends, TabCalls and Calls Pool.Call with its callees. Inv states what a
--   call keeps, Observed, Keeps, KeepsWalks and Build prove it, Order and Affinity hold the results. The daemons are a world with a function that
--   answers one request; nothing is assumed of it. A panic of order() is an outcome.
--
-- Browser: internal/browser/network_routes.go. Wildcard is the matcher of patterns, Routes the choice of a
--   rule and what a paused request becomes, Routes.Match what a pattern matches, RouteState the rules and
--   workers of the tabs, where a sync is told whether it finds the tab's context, RouteRuns and Listening
--   what a series of calls and of ends of the workers' loops leaves of them. The answer to url.Parse is a
--   parameter.
--   Errors is errors.go, what becomes of an error of chromedp, with isCDPSessionLost of
--   internal/daemon/browser_reconnect.go.
--   Observer is the observer of a tab (observer.go), its leases of Chrome's domains, its queue and writer.
--   Chrome is the state of three domains, of which a call that fails has changed some. Runs are series of
--   what happens to it, Journal the calls that the recorder gets meanwhile, Live and Counts the proofs.
-- Protocol.Params and Protocol.Message: the parameters of every method as encoding/json reads them, the
--   requests, results and error objects (pkg/protocol/jsonrpc.go).
-- Daemon: internal/daemon. Watchdog is the state of the browser connection (browser_reconnect.go, health.go),
--   Probes a series of probes of it, Restart the tracker after a restart (tab_idle.go), on State.TabRegistry
--   and State.TabIdle, Auth the API tokens and who is let in (auth.go), Auth.Bearer the form
--   of a header that bears a token. The answers of package net to an address are parameters.
-- Daemon.TabLock: lockTab of rpc_connections.go. The entries are a heap, and their addresses the pointers.
--   A body under tabMuOps is one step, a receive or a send of the channel another; Threads interleaves
--   the steps of any number of threads, of which each takes a lock, gives up waiting, gives it back, or
--   forgets a tab. Inv is the invariant of all reachable states.
-- Daemon.Rpc: POST /v1 (v1.go, rpc_observation.go, rpc_connections.go, obs_sink.go, audit_ctx.go), on all of
--   the above. Rpc has the state of the daemon and the browser's interface, Close what tab_idle.go does
--   to a target that goes, Answer what rpcOK and rpcErr do, Tabs, Page, Observe the handlers, Payload
--   their strings, V1 the dispatch. A handler is a chain of steps that fail with an error object, as the
--   source returns after rpcErr. Every call of the browser, and the wait for the lock of a tab, is a
--   function from the daemon's state to its result and a new state, so that what other requests do
--   meanwhile is part of it; a theorem says what it assumes of that. Keeps takes a relation between states
--   through all handlers once, from a law for each step; Numbers and Logged are instances of it. Audit
--   runs the channel of the log by itself, with its writer and its closing.
--
-- Loops are structural, or recurse on the number of rounds that the source's bound gives; the one
-- fuel is the 20 digits of strconv.Itoa, which hold every 64-bit number. find_free tries the suffixes
-- of 4 digits up to all of them, as many rounds as there are such lengths.
--
-- Not modelled: Chrome, chromedp and the session with its maps of tabs and observers (the rest of
-- internal/browser); the listeners, the start
-- and the shutdown of the server; the command line, configuration, logging. Of an answer the JSON text
-- is left out: the log's summary is taken from the value. A store that is closed is not modelled, so that a
-- sequence number is always given. The handlers and Daemon.TabLock meet in the state only: what a wait
-- for a lock lets others do is the parameter lock_tab. Calls of one pool that overlap in time are not
-- interleaved: each call runs alone, while the theorems on order() hold for any load. JSON text is taken
-- as parsed; where an object repeats a key of a struct, the last one counts. Strings are valid UTF-8.
-- strings.ToLower changes ASCII letters only.
pub mod Prelude
pub mod Protocol
pub mod State
pub mod Store
pub mod Pool
pub mod Browser
pub mod Daemon
