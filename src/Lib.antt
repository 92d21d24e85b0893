-- ===== src/Lib.antt =====
-- A verification library of the xray web console, the panel that edits the config of an xray
-- server: its client list, the store of disabled clients, and the HTTP endpoints that change them.
--
-- The parts, and the modules that model them:
--   * internal/xray/config.go: Xray/Model (the structs), Xray/Codec (UnmarshalJSON, MarshalJSON),
--     Json/Extra (collectExtra, mergeExtra), Xray/Disk (Read, Write, backupIfExists). Json is a
--     tree of JSON values, Json/Map a Go map with its keys in order, Json/Decode what
--     encoding/json does for each kind of target.
--   * internal/xray/clients.go: Xray/Clients (PrimaryInbound, AddClient, FindClient, RemoveClient).
--   * internal/store/disabled.go: Store (List, FindByID, Add, Remove, write), Store/Format.
--   * internal/service/service.go: Service (Validate, Status, Start, Stop, Restart).
--   * internal/http: Panel/Types (the server and its replies), Panel/Mutate (mutateConfig),
--     Panel/Clients (the client endpoints), Panel/Actions (the service endpoints and the probe),
--     Panel/Reality (the Reality patch), Panel/Policy (mergeOnlineFlag, policyHasOnlineFlag),
--     Panel/Stats (mergeRoutingRule, the change of handleEnableStats), Panel/Summary (parsePort,
--     primaryFlow), Activity (the tracker of activity.go), Panel/Activity (its endpoints),
--     Panel/Logs (the snapshot of a log and its tail; Panel/Logs/Stream, the live stream),
--     Panel/Clients/Calm and the other modules named Calm (what happens where no call fails),
--     Panel/Keys (publicKey and the regeneration of the keys), Panel/State (collectState and
--     handleState; Panel/State/Flight, its single-flight refresh), Panel/Links (the link and QR endpoints), Panel/Admin (enable-stats and
--     enable-online-tracking), Panel/Auth (BasicAuth), Panel/Lan (CheckLANBind).
--   * internal/xray/keys.go: Xray/Keys. internal/vless/vless.go: Vless (Vless/Reader reads a
--     URL back). internal/config/config.go: PanelConfig (validate), PanelConfig/Rewrite
--     (WriteStatsAPI). Base/HostPort is SplitHostPort.
--   * internal/xray/stats.go: Xray/Stats (the counters of the users), Xray/Stats/Online (who is
--     online), Xray/Stats/Query (the commands that ask).
--   * internal/logs/stream.go: Logs/Lines (the split into lines), Logs/Follow (a tick of Follow,
--     by what os.Stat and os.Open find). internal/logs/hub.go: Logs/Hub (the operations),
--     Logs/Hub/Runs (their interleavings, as a step relation).
-- An endpoint reads a request, calls mutateConfig with a change of the parsed config and then the
-- store; mutateConfig reads the file, applies the change, writes the file and restarts the service.
-- Panel/View says what the two files of a server stand for, and is what the endpoints' theorems use.
--
-- The system is a World (Os): files by path, temporary files, the commands run. An Env chooses for
-- each call, by its number, whether it fails, what a file holds after a failed write, and what a
-- command prints and how it ends; so a theorem for every Env covers every failure at every call. A
-- timeout is a command or a call that fails. Random UUIDs, the clock and the texts that time.Time
-- reads are the Env's too. A function that may fail returns its error beside the state (Exec), and
-- what it changed before the error stays changed.
--
-- Conventions. A Go string is a list of byte codes, and letter case and spaces are those of ASCII.
-- A file holds a JSON value or other text: the text form of JSON, its escapes and its indentation
-- are not modelled. An int is a 64-bit integer. The arguments formatted into an error message are
-- left out of it. A pointer into a slice is the position of the first match, and a write through it
-- replaces that element. No function here needs fuel.
--
-- The text form of JSON that xray prints, and int64 of a float64 beyond 53 bits, are the fields of
-- a Reader. The bytes of a log are given as each tick, or each request, finds them; the reads of a
-- tick give all the bytes that are there. Maps that the source ranges over in any order are ranged
-- over by key.
--
-- bcrypt, SHA-256, the parse of an IP address, the look-up of a host name, and the drawing of a QR
-- code are parameters. Of net/url and net, the escapes, Values.Encode, SplitHostPort and
-- JoinHostPort are written out.
--
-- Not modelled: concurrency of the requests other than those for the state (writeMu and the mutexes
-- make a request one step here), the routes and the embedded page, the process
-- runner, the YAML parser, and WriteStatsAPI of a value with a dollar sign.
pub mod Base
pub mod Exec
pub mod Json
pub mod Os
pub mod Service
pub mod Store
pub mod Panel
pub mod Xray
pub mod Tests
pub mod Activity
pub mod Logs
pub mod Vless
pub mod PanelConfig
