-- ===== src/Lib.antt =====
-- srv: a host for Firecracker virtual machines that is driven over SSH on a tailnet. This library
-- models the parts of the program whose promises are about state: the receipts of requests, the
-- deletion of instances, the resizing of memory pools, the gate of snapshots, the memory balloons,
-- the attempts to start a machine and the cold store, and the arithmetic of sizes and addresses.
--
-- The parts and their files, with paths from the repository's root:
--   Base        tests, integers, lists of rows, rows with keys
--   Model       internal/model: the records that the parts share. Model/Phase and Model/State are
--               the texts of a request's phase and an instance's state, Model/Memory is
--               NormalizeMemoryMode.
--   Store       internal/store. Store/Tables is the schema, Store/Session is database/sql over
--               one connection, Store/Requests is requests.go, Store/Cleanup is cleanup.go,
--               Store/Imports is migration.go (Store/Imports/Finalize is about FinalizeImport), Store/Instances, Store/Pools and Store/Integrations
--               are sqlite.go. Store/Trace runs the operations on lifecycle_requests in any order.
--   Gate        internal/service/snapshot.go: beginCommand, PromoteToSnapshot, Release and the
--               barrier; Gate/System is every interleaving of the goroutines that use them.
--   Balloon     internal/vmrunner/vmrunner.go (desiredBalloonTargetMiB, nextBalloonTargetMiB);
--               Balloon/Pool is internal/vmrunner/balloon_pool.go, Balloon/Pool/Sweep one sweep.
--   PoolResize  internal/vmrunner/pools.go: resizeMemoryPool and resizeMemoryPoolCgroup
--   Effect      operations that change a state and call the world, and rules for what they keep
--   Launch      internal/vmrunner/receipts.go: the receipts of attempts to start a machine, in a
--               directory for each name.
--               Launch/Name is validName of vmrunner.go, Launch/Start is receiptStart and
--               resolveStartContext, Launch/Stop is receiptStop, Launch/Trace runs them in any order.
--   ColdStore   internal/coldstore/protocol.go: the checks of a request. ColdStore/Server is
--               server.go and discard.go: put, get, stat, delete, DiscardObjects and the recovery of
--               deletions; ColdStore/Permanence runs them in any order.
--   Commands    internal/service: parseSize and bytesToMiBCeil of service.go (Commands/Size),
--               parseSizedInstanceArgs of service.go (Commands/SizedArgs) and parsePoolSizeArgs of
--               pools.go (Commands/PoolArgs)
--   Access      internal/service/service.go: authorize, canAccessInstance, visibleInstances
--   Network     internal/provision/provision.go: allocateNetwork
--   Provision   internal/provision over the store and the runner. Provision/Fences is migration.go
--               (migrationFence) and upgrade.go (upgradeFence), Provision/Pools is ResizeMemoryPool of
--               provision.go with the client's side of internal/vmrunner/pools.go, Provision/PoolLife
--               CreateMemoryPool and DeleteMemoryPool; Provision/Pools/Promises runs resizes of a pool
--               one after the other. Provision/Runtime is start_outcome.go and Stop of provision.go,
--               Provision/Migrations PrepareMigration and FinishMigration of migration.go, which
--               Provision/Migrations/Trace runs in any order.
--   Capacity    internal/provision/provision.go: ensureHostMemoryReservationCapacity and its sums
--
-- The service admits a request in the store, executes it and finishes it there; a deletion goes
-- through BeginCleanup and CommitCleanup of the store; a resize of a pool is recorded in the store,
-- done by the runner and finished in the store, in Provision; a migration is prepared and finished
-- there too, and fences its instance; each command holds a lease of the gate.
--
-- A function of Go has its name in the model, in lower case with underscores. An operation of the
-- store takes a session, which is the tables and a schedule of the calls that fail: each call of
-- database/sql that can return an error takes the next answer of the schedule. So a theorem about
-- every session is about every way in which calls fail, in a transaction or after it. An UPDATE or
-- DELETE is a function on the list of rows; a constraint is a test before an INSERT. Foreign keys
-- are not enforced, since the code does not set the pragma.
--
-- Times are naturals with 0 for the zero time, and the clock's reading is the argument `now`.
-- Integers of the store are the integers of the source; amounts of memory are naturals, where the
-- code has tested or clamped them, and stay below 2 ^ 62, so no sum overflows; Commands, Network
-- and Capacity write out where a sum wraps around. Loops are over lists, but for two: the search
-- for a free network, whose fuel is one more than the blocks of the prefix, and the digits of a
-- printed number, whose fuel is one more than the number. In PoolResize a failed read or write of
-- the file system is an argument.
--
-- Launch and ColdStore/Server take a state and a schedule of answers of the world: each call of the
-- operating system, of Firecracker or of btrfs takes the next answer, and 0 is a failure. A write
-- happens between two such calls, so it may have happened when the operation fails. The lock of the
-- name, or of the store, is held, so operations on a name or on the store do not overlap. The digest of file names and of
-- payloads is the parameter `key`, the parser of UUIDs is `valid_id`, the test of logins and names
-- without regard to case is `equal_fold`, and the look for a process is `process_exists`; nothing
-- is assumed of them.
--
-- In Provision the runner is always there, and its reply may be lost as well. The journal of a kernel
-- upgrade, the memory of the host, the outcome of a start, the stop of a machine and the hydration of
-- its disk are answers of the world. The instances and pools are listed in the order of the tables,
-- since only sums and tests of all of them are taken. Calls on a pool hold `admissionMu` and calls on
-- an instance hold its lock, so they do not overlap.
--
-- Not modelled: the order of the lists of instances and pools, which is that of RFC 3339 text, and
-- the lists of events and integrations; the audit logs and the upgrades of old schemas; the making
-- of a snapshot; the calls of Firecracker, btrfs, ip and the tailnet; the making, start and deletion
-- of an instance in Provision; starts and stops without a request ID; the upload of an
-- object and the frames of the cold store's protocol; the commands themselves; configuration,
-- networking, storage, the guest and the front end.
pub mod Base
pub mod Effect
pub mod Model
pub mod Store
pub mod Gate
pub mod Balloon
pub mod PoolResize
pub mod ColdStore
pub mod Launch
pub mod Commands
pub mod Network
pub mod Capacity
pub mod Access
pub mod Provision
