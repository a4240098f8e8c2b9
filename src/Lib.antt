-- ===== src/Lib.antt =====
-- nas_conn_plus: a daemon that scans the listening TCP ports of a NAS, upgrades plain HTTP services to
-- HTTPS on a port next to theirs, and mirrors IPv4-only ports to IPv6.
--
-- Every poll, the application scans the ports (internal/scanner/scanner.go) and hands the result to the
-- proxy service (internal/proxy/service.go, `Reconcile`). The service probes for HTTP
-- (internal/scanner/prober.go), computes which listeners are wanted under the settings
-- (internal/config/config.go), binds those that are new (internal/proxy/listener.go), and maintains or
-- removes the others.
--
--   Base       shared helpers: integers and texts as in Go, association lists, results
--   Config     internal/config/config.go: the record of settings; Config/Policy the exclude and allow tests,
--              Config/Paths the paths, Config/Load `LoadConfig` from the decoded JSON on, Config/File the same
--              from the path on, with a store of files
--   Metrics    internal/metrics/metrics.go: the counters, and the text of the handler
--   Scanner    scanner.go and prober.go: Scanner/Prober `ProbeHTTP` with its cache, called once at a time,
--              Scanner/Flight the same called by many goroutines, Scanner/Table the parsers of procfs, `ss`
--              and `lsof`, Scanner/Owners the walk over /proc, Scanner/System `Scan` on a machine, with the
--              owners that are kept from scan to scan, Scanner/Report `DiagnosticReport`
--   Files      the disk: its files, and the faults of each operation on them
--   Cert       internal/cert/cert.go and localca.go: the manager and `GetCertificate`; Cert/Files which files
--              are chosen and loaded, Cert/LocalCa the local CA and its leaf, Cert/Trust the trust store of
--              the system, Cert/Refresh `Refresh`, Cert/Asked what the manager tells of its state
--   Proxy      service.go and listener.go: the state; Proxy/Listen `tryListen`, `stopListener` and
--              `Shutdown`, Proxy/Wants and Proxy/Reconcile the two halves of `Reconcile`, Proxy/Limit
--              `limitListener`, Proxy/Http `NewService` and the handler of an HTTPS listener, Proxy/Relay
--              `acceptRelayLoop` and its connections, Proxy/Buffers the buffer pool, Proxy/Servers the settings
--              of the transport and of the servers, and the wrappers that pass calls on; Proxy/Life the abstract
--              life of a listener, Proxy/Sockets which sockets are open and served
--   Ipc        internal/ipc: Ipc/Format and Ipc/Render the status table (client.go), Ipc/Server the server of
--              the status query (server.go), Ipc/Query `handle` and `QueryStatus`
--   App        internal/app/app.go: start up, `runReconcile` and the main loop of `Run` over all of the above;
--              App/Modes the whole of `Run` with its flags and modes, App/Arguments the command `status`,
--              App/Debug the debug server, App/Diagnosis the options of the report, App/Notes what is logged at
--              the start, App/Reported the answer to the status query, App/Running, App/Serving and App/Leaving
--              what holds in every run
--   Logger     internal/logger/logger.go: the lines of the log
--   Terminal   internal/tui/tui.go: the badges of the report
--
-- An operation of the source is a function of the same name in snake case on an explicit state. Go's `int`
-- is ℤ: ports and settings stay far from its bounds. A map is an association list with one entry for
-- each key, a set of ports the list of its members; the source ranges over maps in no fixed order, and
-- the theorems hold for every order of the entries. The network and the clock are parameters (`Host`,
-- `Machine`, `Exchange`), functions of the number of the call, so that two calls need not agree. So are
-- `json.Unmarshal`, X.509 and PEM (`Reader`, `Crypto`), the tools of the system (`System`), and the faults of
-- the file system (`Disk`), a write that stops half-way included. The events of a `Service` are what it does to sockets and what it logs of it,
-- newest first. All recursion is structural; no fuel is used but in
-- the printing of decimals, where the number itself is enough.
--
-- `Reconcile` runs in one goroutine under a lock and is a function; `limitListener`, which goroutines
-- share, the connections of a relay, and the calls of `ProbeHTTP` for one port are step relations, in which any
-- goroutine may take the next step. A loop that waits for `Accept` or for the timer
-- is a function of the list of the answers that it gets.
--
-- Not modelled: the HTTP proxy and the byte copying behind a listener (net/http, httputil, tcpproxy), the
-- ACME client (autocert), encoding/json, the drawing of tables and the colours (lipgloss), the flag package, the
-- delivery of signals, and the commands `ss` and `lsof`: they are libraries and tools that the code calls, and
-- stand as parameters where a definition uses them. `ReadFrom` of the counting response writer is modelled for a
-- wrapped writer that has it; for another it does not return. The bound on the goroutines of `ProbePorts` and the
-- functions that only the tests call are left out.
pub mod Base
pub mod Files
pub mod Config
pub mod Metrics
pub mod Scanner
pub mod Proxy
pub mod Cert
pub mod Ipc
pub mod App
pub mod Logger
pub mod Terminal
