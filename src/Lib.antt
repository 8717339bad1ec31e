-- ===== src/Lib.antt =====
-- clipp shares a clipboard and named registers between the devices of one user. This library models
-- the parts of it that carry the replicated state, and the rules at the edge of the network.
--
-- The parts, and how they work together:
--
--   * A hybrid logical clock stamps every local write (src/Hlc.h, src/Hlc.cpp). Clock models Hlc and
--     HlcClock: pack, unpack, now, witness, seed_floor and high_water are Pack, Unpack, Now, Witness,
--     SeedFloor and HighWater. The reading of the physical clock is an argument of `now`.
--   * A store of named registers (src/RegisterStore.h, src/RegisterStore.cpp) originates writes and
--     merges those of its peers. Register has the record and the merge core (ValueLess, IsExpired,
--     MergeRecords), Register.Name the validator of names, Register.Store the state and its small
--     operations, Register.Originate the operations that write (Upsert, UpsertWithFlags, Read, Delete,
--     MirrorDefault), Register.Inspect those that list and replicate (ListNames, List, Digest,
--     SnapshotForSync, GetForBroadcast, RecordsToPush, PlanPush, ApplyRemote), and Register.History
--     any sequence of calls. The other modules below Register hold proofs.
--   * The validator reads code points with DecodeUtf8CodePoint of src/platform.h, which Utf8 models
--     with AppendUtf8CodePoint.
--   * Records, digests, lists and names travel in frames (src/RegisterWire.h, src/RegisterWire.cpp),
--     which RegisterWire models, over the byte readers and writers of Bytes.
--   * Peers are admitted within limits, and what is refused is logged at a bounded rate
--     (src/PeerLimits.h, src/DefensiveLogThrottle.h): PeerLimits and PeerLimits.Throttle.
--   * The manager of peers (src/PeerManager.h, src/PeerManager.cpp) applies these limits.
--     PeerManager has its state and what it reads of a peer, PeerManager.Admission AddPeer,
--     AddIncomingPeer, TryEstablishIncomingPeer and OnIncomingPeerLeft, PeerManager.Removal the
--     removals, the culling and the broadcasts, and PeerManager.Events sequences of these operations
--     with the steps of the peers' worker threads (src/Peer.cpp) that the manager sees.
--   * The registers are saved as one sealed blob (src/SealedSnapshot.cpp, src/RegisterPersistence.cpp):
--     SealedSnapshot has Seal and TryOpen over a cipher that is a parameter, and
--     SealedSnapshot.Snapshot SealSnapshot and TryOpenSnapshot.
--   * A thread saves the registers some time after they change (src/RegisterPersistenceRuntime.cpp):
--     RegisterSaver has the state, the steps of the threads between their locks, and the starting, the
--     stopping and the change of the key. The store is a parameter with its snapshot, and a file is
--     the key and the snapshot that were saved, since the sealing is modelled in SealedSnapshot.
--   * What is copied is kept as a stream of items (src/ClipboardActivityStore.h,
--     src/ClipboardActivityStore.cpp). Payload has the header and the bytes of an item
--     (src/NetworkDefs.h, src/ClipboardPayload.h), with Payload.Lines, Payload.Plain, Payload.Frame,
--     Payload.Stored and Payload.Guard as below, Activity the state and what NotifyWatchers calls,
--     Activity.Trim ApplyLimitsLocked, Activity.Operations the operations (Add, SetLimits, Snapshot,
--     PayloadReference, Remove, RemoveByEventGuid, Clear, QueryAndRegister, Unregister,
--     TailEventGuid, ItemsSince), Activity.Calls sequences of them, and Activity.Watched the calls of
--     the watchers when the mutex is released.
--   * Payloads are hashed and compressed, cross the network in CLIP frames, and wait in sealed files
--     (src/ClipboardPayload.h, src/ClipboardWire.cpp, src/ClipboardPersistence.cpp): Payload.Lines has
--     the line endings, Payload.Plain SetUncompressedBytes and TryGetUncompressedBytes, Payload.Frame
--     the frames and records, Payload.Stored the files, and Payload.Guard the guard against echoes
--     (src/ClipboardHashGuard.cpp).
--   * A popup shows the registers and the items, filtered by what is typed (src/PopupModel.h,
--     src/PopupModel.cpp, src/PopupTextMatch.h): PopupText has the search in texts and what is shown
--     of them, Popup the selection, the filter and the modes, Popup.Events sequences of calls, and
--     Popup.Named NextAutoRegisterName.
--   * A table of the connected hosts is kept for the windows (src/PeerDisplay.h, src/PeerDisplay.cpp):
--     PeerDisplay has the state and every operation, PeerDisplay.Events sequences of them.
--   * Lines of the logger (src/Logger.cpp) are coloured with ANSI codes, and a window shows the last of
--     them (src/TerminalLogBuffer.h): TerminalLog has the window's lines and the parser of the codes,
--     TerminalLog.Logged the line that the logger writes.
--   * A text can be typed as keystrokes (src/TypePlan.h, src/TypePlan.cpp): TypePlan has
--     BuildTypeSchedule and EstimateTypeSeconds.
--
-- Prelude has the shared types and lemmas (orders, tests, lists, results); OrderedMap is std::map as
-- an ascending association list. Examples runs the models and applies the theorems.
--
-- How the code is rendered:
--
--   * A byte, a uint16_t, uint32_t or uint64_t is a natural number. Where the code can wrap, the
--     remainder is written out (the counter of the clock, the cut sizes of the frames).
--   * A std::string or a vector of bytes is a list of bytes; a HostId is its sixteen bytes; flags are
--     a byte whose bits are tested by division.
--   * Each reading of a wall clock is an argument, in the order of the readings, since the clock may
--     move between two of them within one operation. Steady clocks do not go back.
--   * A mutex makes an operation one step, so threads are sequences of operations. Change listeners
--     are numbers, and the store records which it has called.
--   * Decoders return the result or `none`. What a failing decoder has left in its output argument is
--     not modelled, since its callers do not read it.
--   * The cipher of libsodium is a parameter with two hypotheses, which state what libsodium documents:
--     the size of a ciphertext, and that decryption inverts encryption.
--   * A watcher of the stream is a number. An operation leaves the calls that it owes, in the order of
--     the mutex; Activity.Watched makes each of them in a step of its own, in any order.
--   * An int64_t difference of times wraps around; where it overflows, the code's behaviour is
--     undefined, so the theorem about it has the bounds that exclude that.
--   * The worker of a peer that is removed ends within the removal, which joins its thread.
--   * A std::wstring is a list of the numbers of its characters; a pointer to an item is the item.
--   * xxhash and zstd are a parameter too: a digest has sixteen bytes, and what is compressed says its
--     size and decompresses to what it was.
--   * The loop that looks for a free register name runs on fuel, one more than there are names, which
--     is proved to be enough; std::to_string has twenty digits at most, which any uint64_t fits.
--   * The loop of the name validator runs on fuel, the length of the name: each round takes at least
--     one byte, so the fuel does not run out before the name does.
--
-- Not modelled: sockets, the transport of frames in the peers' workers (src/Peer.cpp), encryption and
-- keys, settings, the operating system's clipboard, discovery, the command line and the user interfaces,
-- which are system calls, threads and glue around these parts, or wait to be added.

pub mod Prelude
pub mod Bytes
pub mod Utf8
pub mod Clock
pub mod OrderedMap
pub mod Register
pub mod RegisterWire
pub mod PeerLimits
pub mod PeerManager
pub mod PeerDisplay
pub mod SealedSnapshot
pub mod RegisterSaver
pub mod TypePlan
pub mod Payload
pub mod Activity
pub mod PopupText
pub mod Popup
pub mod TerminalLog
pub mod Examples
