-- ===== src/Lib.antt =====
-- Dockhand, a web application that manages Docker hosts: a model of parts of its server, in
-- TypeScript under src/lib, with theorems about them.
--
-- The program. Requests reach route handlers, which ask the authorization context
-- (src/lib/server/authorize.ts) whether the user may do what is asked; it calls the permission checks
-- of src/lib/server/auth.ts, which read users and roles through src/lib/server/db.ts. API tokens are
-- looked up in an LRU cache first, and failed logins are counted. Stacks that come from a git
-- repository are synced to a directory, in which files that left the repository are deleted; Compose
-- files are rewritten so that their volumes name paths of the host. The scheduler asks a gate whether
-- the findings of the scanners block an update. Metrics of each environment go to a ring buffer,
-- streams of server-sent events are read for their result, and changes are logged as diffs. A separate
-- process collects metrics and events; what it prints is handled line by line, and it is told which
-- environments to collect from. Hosts behind a firewall run an agent that connects by a WebSocket, over
-- which requests to its Docker are sent and answered.
--
-- The files, and the source that each is about:
--   Common          no part of the program: Boolean tests, lists and texts over the native numbers,
--                   the insertion-ordered `Map` (JsMap), and stable sorting (Sort)
--   TokenCache      src/lib/server/token-cache.ts: the class LruTokenCache (get is `lookup`, set is
--                   `store`), invalidateTokenCacheForUser, clearTokenCache, the cleanup callback
--   MetricsStore    src/lib/server/metrics-store.ts: pushMetric, readRing and the queries; the module's
--                   map and counter are the record `Store`
--   RateLimit       src/lib/server/auth.ts: isRateLimited, recordFailedAttempt, clearRateLimit and the
--                   cleanup callback, over the map rateLimitStore
--   AccessControl   src/lib/server/auth.ts (Permission: checkPermission, the merging of permissions),
--                   src/lib/server/db.ts (Roles: the queries on roles, over tables as lists), and
--                   src/lib/server/authorize.ts (Context: the methods of the authorization context)
--   GitDeletions    src/lib/server/git-deletions.ts: Plan (computeDeletions and the safety of paths),
--                   Apply (applyFileDeletions over a file system), Summary (buildSyncChangeSummary)
--   HostPath        src/lib/server/host-path.ts: Mounts (translateToHostPath and its kin), Detect
--                   (detectHostDataDir), Rewrite (rewriteComposeVolumePaths), Paths (`resolve`)
--   SseParser       src/lib/server/sse-parser.ts: sseToJSON over the chunks of the stream
--   StreamFrames    src/lib/server/docker.ts: processStreamFrames, the loop of streamLocalStderr that passes
--                   it the chunks of a stream, and Demux (demuxDockerStream, extractStdoutFromBuffer)
--   UpdateUtils     src/lib/server/scheduler/tasks/update-utils.ts: image references, the gate
--   AuditDiff       src/lib/utils/diff.ts: computeAuditDiff, isEqual, formatValue
--   Ports           src/lib/utils/port-parse.ts: HostPort (parseHostPort, formatHostPort), Validate
--                   (validatePort, validateIp), Expand (expandPortBindings)
--   PortLists       src/lib/utils/port-format.ts: formatPorts, formatExposedPorts
--   ContainerLabels src/lib/server/container-labels.ts: what the labels of a container ask for
--   Collector       src/lib/server/subprocess-manager.ts: Reader (readStdout), Dedup (the cache of seen
--                   events), Health (isHealthTransition), Events (handleContainerEvent, handleEnvStatus,
--                   handleMetrics), Disk (handleDiskUsage), Environments (sendEnvironmentConfigs), Worker
--                   (the life of its processes), Messages (handleLine); it feeds MetricsStore
--   Hawser          src/lib/server/hawser.ts: Throttle (recordReconnection), State (the tables), Requests
--                   (sendEdgeRequest, sendEdgeStreamRequest and what settles them), Connections (how they
--                   come and go, the cleanup), Protocol (handleHawserWsMessage), AgentEvents
--                   (handleEdgeContainerEvent, on the health status of Collector), Calls and Operations
--                   (runs of all that reaches one connection, and of all that reaches the tables)
--   DnsDispatcher   src/lib/server/dns-dispatcher.ts: lookupWithCache
--   Jobs            src/lib/server/jobs.ts, and createJobResponse of src/lib/server/sse.ts
--   EnvFiles        src/lib/server/env-parser.ts, container-image-divergence.ts, mount-dedupe.ts and
--                   docker-validation.ts
-- A definition stands under the name of the function in this library's spelling (applyFileDeletions is
-- apply_file_deletions), with a comment that names it; what holds of it is proved in the module's
-- other children, and `Tests` of each applies the theorems at concrete inputs.
--
-- Conventions. A function that changes a variable of its module takes the old value and returns the new
-- one; one that can reject or throw returns an Option. A string is the list of its UTF-16 code units
-- (Text), a `Map` or a dictionary the list of its entries in the order of insertion (JsMap). `Date.now()`,
-- what files and the environment hold, and the answers of the Docker API are arguments, and so is code
-- that is not here: SHA-256 (`hash_content`), JSON.parse, the licence (`isEnterprise`). Numbers are
-- naturals; a difference of times is never negative where the clock does not run backwards, and the
-- model takes it to be 0 where it does.
--
-- Fuel. Four functions count down: `parent_dirs` goes up one directory in each round and is given the
-- length of the path (GitDeletions.ParentDirs says why that is enough for a root that is not empty),
-- `digits` is given one more than the number that it prints, and `frames_of` and `demux_frames` are given
-- the length of the buffer, which each turn makes shorter by eight bytes at least.
--
-- Not modelled: symbolic links on the way to a file that is deleted; `toLowerCase` outside ASCII;
-- prototypes of objects, and numbers other than naturals in a logged value; log lines and the texts of
-- messages; and the parts of the program that run other processes or only talk to the database, to
-- Docker or to the browser (most of src/lib/server/docker.ts, git.ts, stacks.ts, scanner.ts, most of
-- db.ts, the routes and the components).
mod Common
pub mod TokenCache
pub mod MetricsStore
pub mod RateLimit
pub mod AccessControl
pub mod GitDeletions
pub mod HostPath
pub mod SseParser
pub mod StreamFrames
pub mod UpdateUtils
pub mod AuditDiff
pub mod Ports
pub mod PortLists
pub mod ContainerLabels
pub mod Collector
pub mod DnsDispatcher
pub mod EnvFiles
pub mod Hawser
pub mod Jobs
