-- ===== src/Lib.antt =====
-- app-listener guards directories against processes: eBPF programs judge file accesses by tables that the
-- Go process writes, and a daemon loads the guards, grants temporary access and records what is seen.
--
-- Guard is internal/guard. Guard/Keys has its inode and resource keys and Guard/Kernel its eBPF maps:
-- a map row is a constructor of Row, and the maps are a parameter (github.com/cilium/ebpf) with the
-- documented behaviour of Lookup, Put and Delete, each of which may fail. Guard/Engine is engine.go, the
-- tables shared by all guards: a World is the maps with the engine's fields, an Act a step that may end
-- in an error. Guard/Engine/Sync is the rest of engine.go and taintset.go that writes rows; Guard/Taint is
-- the planning of taint sets in taintset.go. Guard/Multicall is multicall.go. Guard/Rows has a guard's own
-- rows (guard.go, policy.go), Guard/Events its event masks. Guard/Inodes is the claim and release of inode
-- rows in engine.go, Guard/Freed the prune of supersede.go, Guard/Strip the strip of pinned rows.
-- Guard/Temp is tempgrant.go: Temp plans a grant, Temp/Grant applies and revokes it.
-- Guard/Engine/Quiet, Guard/Engine/Frame, Guard/Rows/Sets, Guard/Rows/Holds and Guard/Temp/RowLeads carry
-- the proofs about grants: which rows a step may change, and what rows hold after a successful step.
--
-- Session is internal/usecase/tempgrant.go, a grant over several guards with its journal; the guards and
-- the journal are an interface. EventNames and Wire/Events are internal/infrastructure/event.go, Wire/Mounts
-- is mountinfo.go. Codeedit is internal/codeedit. Base has shared helpers and Samples concrete runs.
--
-- DaemonConfig is internal/daemonconfig: Text has the syntax of a line, Rules the directives, Materialize
-- the resources that a closed section becomes, Parse the whole configuration. A parse is a value of Parsed,
-- an answer or a Fault; the file system, as one parse sees it, is a parameter (FileSystem). Text is bytes,
-- and white space and upper case are those of ASCII.
--
-- Recorder is internal/recorder: Observe is observe of recorder.go, the one step of a running recording, with
-- the times that it reads as arguments; Targets is ValidateTargets and Plan is Plan of plan.go; Classify is
-- the judgement of a binary in classify.go, with the general tools of internal/install/generaltools.go. Apply
-- is apply of apply.go: each call of the store, the vault and the ledger is appended to a history, and what it
-- answers is a function of the history (Services). The texts of errors, the notes and the progress of apply.go,
-- and Render of plan.go, a parameter of Apply, are not modelled. That a restore or a forget itself fails only
-- adds to the text of the error. Put is tried at most three times, which is its fuel.
--
-- Maintainer is internal/maintainer: Changes is Changes, Touches and the path records of plan.go, Links the
-- symlinks of links.go. The live tree and RootPlacedName are a parameter (LiveTree). Following a symlink has
-- fuel 41, one call for each hop that maxLinkHops admits and one for the call that refuses the next. The
-- scan of the stage, the content sources and the application of a plan are not modelled.
--
-- A map of Go is an association list in which an insertion replaces; loops over a map run in the list's
-- order. Numbers are natural numbers; keys keep the width that the source packs them in. Every other
-- loop is structural, over a list or over the 511 resource slots. Errors
-- that the source only logs are dropped. Locks, goroutines, channels, logs and the loading of eBPF
-- programs are not modelled: an operation that holds the engine's lock is one step. The user interfaces,
-- encryption, installation and the kernel's programs are left out.
pub mod Base
pub mod Guard
pub mod Session
pub mod EventNames
pub mod DaemonConfig
pub mod Wire
pub mod Recorder
pub mod Maintainer
pub mod Codeedit
pub mod Samples
