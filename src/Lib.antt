-- ===== src/Lib.antt =====
-- A model of the core of storhub, a file store over Git hosting that mounts as a POSIX file system.
--
-- The parts and how they meet. An open file that was written is an overlay over the committed file:
-- a temp file holds the written bytes, and a sorted list of spans says which of its bytes are newer
-- than the committed ones. Reads stitch the two; a write marks its span, a resize cuts or
-- zero-fills. A commit turns the dirty spans into edits of the file's playlist, a list of views into
-- uploaded assets, and records one operation on the project's stack of pending operations. A batch
-- of operations is replayed over newer metadata under a plan that mints ids around those of the
-- batch and follows moved subtrees, with an index of the inodes in use. Locks and permission checks
-- stand in front of those operations.
--
-- The files:
--   Prelude, Prelude/*: Boolean tests on numbers, the conditional, lists with native lengths.
--   Ranges: span lists. internal/fs/range.go (MergeByteRanges), internal/storage/byterange.go
--     (mergeByteRange), internal/fusefs/fuse_write_ranges.go (markDirtyLocked,
--     truncateDirtyRangesLocked, coversRangeLocked, nextDirtyRangeLocked, plannedRangesLocked,
--     mergeByteRange, shouldReplaceLocked, shouldChunkRewriteLocked) and internal/storage/patch.go
--     (rangeOverlapsAny). Ranges/Cover says what a span list means.
--   LocalFile: Truncate, WriteAt and ReadAt of a local file, which the source calls on os.File.
--   Overlay: inodeWriteState of internal/fusefs/fuse_write.go; ensureTempLocked, setSizeLocked and
--     readIntoLocked of fuse_write_ranges.go. Overlay/View defines what the open file shows.
--     Overlay/Bounded: ensureDirtyBounded, coalesceDirtyLocked and backfillGapLocked. Overlay/Write:
--     Write of fuse_write_commit.go.
--   Playlist: spliceEdit, finalizePlaylist, sliceChunkView and referenceFileRangeChunks of
--     internal/storage/patch.go. Playlist/Content says which byte a playlist holds at an offset.
--   Commit: commitPatch, removeDirtyRangeLocked and commitCacheRefreshLocked of fuse_write_commit.go,
--     refreshBaseSnapshotLocked of fuse_write.go, PatchFileRangesContext of
--     internal/storage/verbs_upload.go and buildPatchedRangeChunks of internal/storage/patch.go.
--     Commit/Spans: the pages of the edits. Commit/Edits: the checks on them. Commit/Batch: the
--     playlist. Commit/Removed: the consumed spans. Commit/Refresh: the overlay over
--     the new file. Commit/Stale: the snapshot behind a commit by a patch.
--   Path: NormalizePath and normalizeStoredPath of internal/fs/path.go, the normalizers of
--     internal/metadata/helpers.go, and what they use of strings and path. Path/Relatives: ParentPath,
--     IsParentOrSame and RemapPath. Path/Resolver: internal/fs/symlink.go, with FindFile and
--     HasDirectory of internal/metadata/metadata_entries.go.
--   Window: internal/storage/window.go. Window/Trace: calls in sequence. Window/Causes: the causes
--     of an error.
--   Locks: internal/fusefs/fuse_lock.go. Locks/Effect says which bytes an owner holds. Locks/InPlace:
--     the filter of the records in place. Locks/Lost: the records that it loses.
--   OpStack: internal/storage/ops_stack.go and the Op record of internal/storage/ops.go.
--     OpStack/Index: positions, clearUpTo, reindex and freeze. OpStack/Fold: append. OpStack/Keyed says
--     when byPath and pruneIdx are right. OpStack/Recorded and OpStack/Folded: the operation that append
--     records.
--   Replay: replayPlan of internal/storage/ops_replay.go. Replay/Counters: allocInodeAvoiding and
--     allocChunkAvoiding, with AllocateInode and AllocateChunkID of
--     internal/metadata/metadata_normalize.go. Replay/Moves: longestMovedPrefix, resolveLive,
--     translateForward and liveRemovals.
--   Collisions: collisionIndex of internal/storage/ops_apply.go. Collisions/Reached: the indexes that a
--     replay reaches.
--   Permissions: internal/fs/permissions.go. Permissions/Rights: the rules on attributes.
--   Degraded: internal/storage/degraded.go, and the streaks of internal/storage/pressure.go.
--   Chunker: internal/chunking/chunker.go.
--
-- What the model assumes. Offsets and sizes are natural numbers, and signed arguments are a small
-- data type; sums of offsets are assumed to stay below 2^63. Operations on a local temp file
-- succeed. The hub that serves the committed file is a parameter: it may fail or answer short, and
-- theorems that need it assume that it answers a read inside the file by a first part of its bytes
-- that is not empty. The live stream of a window reader is a parameter: it answers a read by at
-- most that many bytes, the next ones of its content, with any error. Whether a read or a write of
-- the spool succeeds is any function. Where the source filters a slice in the array that it ranges
-- over (the lock records, the dirty spans of a commit), the model reads what stands there at that
-- turn (Prelude/Lists); the spare capacity of that array is a parameter. A map that the source
-- ranges over is the list of its entries in the order of the iteration. The chunk counter of a
-- replay is an int64, kept by its residue modulo 2^64. The upload of bytes is a parameter: its
-- chunks lie in the span of the bytes and hold them. A text of the paths is a list of Unicode code
-- points, and path.Clean is modelled on the parts between slashes. The maps of the repository that
-- the resolver reads, of the operation stack and of the lock table are functions, and paths of the
-- permission checks are lists of names that compare as numbers.
--
-- Fuel. A read loop has as much fuel as the buffer has bytes, which is enough since each turn reads
-- one byte at least. The backfill loop has the length of the gap, for the same reason. The loop
-- over deleteTransform has one more than the operations on the stack, since each turn takes one
-- off. The minting of an id and the translation of a path have the source's own bounds on their
-- rounds. The pages of a commit's edits and of a snapshot's refresh have the length of the span.
-- Read of a window has one more than the buffer has bytes, and its theorem says that it never runs
-- out. The resolver needs no fuel: it recurs on the queue of names, and behind a link on the links
-- that are still allowed (40).
--
-- Not modelled: the staging of set-id clearing and the O_SYNC commit of Write, the commits by
-- replacement and by rewritten chunks, uploads, the waiting loop of Setlkw, the journal file,
-- goroutines and mutexes (each function is modelled as the critical section that it runs), the REST
-- server, the command line and the client of the hosting service.
pub mod Prelude
pub mod Ranges
pub mod Replay
pub mod LocalFile
pub mod Overlay
pub mod Path
pub mod Commit
pub mod Window
pub mod Playlist
pub mod Locks
pub mod OpStack
pub mod Permissions
pub mod Degraded
pub mod Chunker
pub mod Collisions
