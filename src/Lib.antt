-- ===== src/Lib.antt =====
-- Verification of the launcher's core (launcher/internal): sessions, error envelopes, the
-- crash-safe installation of an update, the choice of the port, the save slots and settings of a
-- game, and the lock of the running instance.
--
-- Parts and files:
--   Session      launcher/internal/session/session.go. `Store` is the store's state with its maps
--                as association lists and `*Session` as an address in a heap, so that a pointer
--                outlives its table entry. Each exported method is one function that answers with
--                the new store: NewBootstrapToken, Exchange, Get, Reap, Len, Clear, CheckCSRF,
--                ClaimWriter, Writer, ReleaseWriter and Allow. Every method holds the mutex from
--                its first read to its last write, so concurrent requests are sequences of calls
--                (Session/Runs). The clock and crypto/rand are arguments. An `int` or `int64`
--                count wraps at 64 bits; `time.Sub` saturates.
--   KobraErr     launcher/internal/kobraerr/kobraerr.go. The constructors, `From`, `Envelope` and
--                `WriteEnvelope`. A value that json.Marshal refuses is `unsupported`. The session
--                store answers with these errors.
--   Update       launcher/internal/update/swap.go and movedir.go: `Swap`, `Recover`, `promoteDir`.
--                A folder is the trees at game/, game.old/, game.new/ and the promotion copy, and
--                the marker. Every operation on the disk takes the next entry of a schedule of
--                faults: it succeeds, fails, fails half way, or the power is lost before or in the
--                middle of it. A rename and the write of the marker are atomic; a removal or a
--                copy is not. Whether the staging root is on another file system is a parameter.
--   Port         launcher/internal/port: the deny list, `Validate`, `Default`, `Probe`'s reading
--                of an answer, `Scan`, `WideScan` and `Available`. The clock, the answers of the
--                ports and the outcome of a bind are arguments. The scan's loop is recursion on
--                the turns that are left, from the span of the window.
--   Update/Retention  launcher/internal/update/retention.go: the count of successful starts after
--                which game.old/ is removed. Which operations succeed is an argument.
--   Update/Archive, Update/Version, Update/ConfigMerge  launcher/internal/update: `checkEntry`
--                (archive.go) with `path.Clean` on the components of a name; `parseVersion`,
--                `compareVersions`, `ReleaseNewer` and `launcherMinRefusal` (manifest.go);
--                `mergeConfigDocs` (configmerge.go) on documents whose objects are their fields.
--   Update/Download  launcher/internal/update: the addresses, redirects and partial downloads that
--                download.go accepts, and the answer of check.go.
--   Update/Apply, Update/Install, Update/Startup  launcher/internal/update: `Apply` (apply.go) in
--                its stages, each a function of the answer that the one before it gave, and
--                `Startup` (startup.go), over Update/World: the folder's trees as in Update, the
--                launcher's release, the files of the sidecar's update directory and the progress
--                writer. Every write and removal takes the next fault. What the calls answer that
--                are other parts (the lock, the network, the free space, `Verify`,
--                `MergeConfigInto`, the walks of data/) is a field of `Answers`; `Extract` and
--                `MergeLauncherInto` are what they do to the trees. Update/Pending is the marker
--                (runtime.go) with `RequiredBytes` and `reconcilePending`, Update/Progress the
--                records of progress.go, Update/Reports the ways to fail, Update/Intent the
--                recording of a request (intent.go). Update/Budget follows the marker over the
--                launches; the list of the launches bounds them, and three are enough.
--   DataApi      launcher/internal/dataapi. Pipeline is `validate` (pipeline.go), the checks that
--                each request passes, over the session store and its errors. Service is the
--                interfaces Service and Host (service.go) as the operations of a launcher that is a
--                parameter, Bodies the bodies, the paths and the names of a request; Handlers is
--                every handler of handlers.go over it, with its answer (Replies), and `serve` the
--                table of routes. What encoding/json decodes is a parameter. Saves puts the engine
--                of Storage behind the handlers, with the faults of the disk.
--   Static       launcher/internal/static: `parseRange` (static.go) and the answer to a Range
--                header (serve.go). Texts are lists of bytes.
--   Storage      launcher/internal/storage/storage.go. A slot (Storage/Types) is its file, its .bak,
--                the numbers of its revision sidecars, its stray temporary files, what the trash
--                has of it, and its entry in `revisions`. Storage/Atomic is `writeAtomic`, over what
--                each operation does to a file; Storage/Slots is `WriteSave`, `ReadSave`,
--                `DeleteSave`, `InitRevisions` and `pruneRevisions` on one slot; Storage/Engine is
--                their guards over all slots, the write probe and the writer role;
--                Storage/Settings is `MergeConfig` and `ReadConfig`; Storage/Listing is `ListSaves`;
--                Storage/Mods is the list of enabled mods (mods.go); Storage/Upkeep is
--                `QuarantineStrayTemps` and `CleanupTrash`; Storage/Json is the canonical encoding
--                that a checksum covers; Storage/Identifier is `ValidateIdentifier` with
--                `ReservedName` of launcher/internal/paths/paths.go. SHA-256, the clock and
--                `paths.Confine` are arguments; a document is what json.Unmarshal gives of it.
--                `writeMu` is held by each operation, so concurrent requests are sequences.
--   Sidecar      launcher/internal/sidecar/lock.go: `ReadLock`, `CheckLiveness`, `AcquireLock`,
--                `SetPort` and `Release`. The lock file has an inode, so that a lock whose file was
--                removed writes to no file that has a name. What the machine answers (process
--                table, boot time, health request) is an argument.
--   Server       launcher/internal/server/server.go: the gates that a request passes; the requests
--                past them, counted by stage, with the in-flight counter, the semaphore, the
--                shutdown and the drain, as moves of one goroutine at a time (a schedule is any list
--                of them); Server/Watch is the heartbeats and the loop that watches them;
--                Server/Updates is the update requests of update.go.
--   Base         what these share: operations under a schedule of faults (Base/Faults), tests on
--                numbers, lists, association lists, integers.
--   Tests        the theorems at concrete inputs.
--
-- Not modelled: the text of log lines and of wrapped causes; the bytes of JSON documents, but for
-- the canonical encoding; the transfer, the verification and the unpacking of an archive; the
-- headers of the HTTP server and what net/http does; the assets of mods; the state files of
-- the sidecar; the browser launch; packaging; third-party code.
mod Base
pub mod KobraErr
pub mod Session
pub mod Update
pub mod Port
pub mod Static
pub mod DataApi
pub mod Storage
pub mod Sidecar
pub mod Server
mod Tests
