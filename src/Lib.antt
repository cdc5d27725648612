-- ===== src/Lib.antt =====
-- The verification library of ACS, the AI Config Selector.
--
-- ACS runs AI coding tools in a native sandbox under a Profile, which selects the capabilities of a
-- launch: paths, exclusions, executables, environment references and loopback ports. Each schema
-- validates a selection and brings it into a canonical form; authority is planned from that form, and
-- a registry keeps what is needed to recover a Session that was interrupted.
--
-- Prelude holds what the modules share: Boolean tests, lists over the native numbers, Go's
-- `(A, error)` as a result type, byte strings, strict orders and the sort by a key.
-- GoPath and Text are the parts of Go's path, path/filepath, strings, unicode/utf8 and regexp that
-- the program relies on, written as functions on byte strings: a Go string is a list of bytes.
-- StrictJson is internal/strictjson: StrictJson.Unicode is unicode.go, where the index of the loop is
-- the number of bytes that it skips. StrictJson.Scan is scan.go, over the list of the tokens that the
-- json.Decoder returns, and StrictJson.Scan.Tree describes the values that it is to accept.
-- Intent holds the schemas. internal/pathintent, internal/exclusionintent,
-- internal/executableintent and internal/environmentintent are Intent.Paths, Intent.Exclusions,
-- Intent.Executables and Intent.Environment: each has a function `canonical` for Canonical, and a
-- function for the body of its loop. The loop, the bound and the sort that the four write in the
-- same way are Intent.Schema; the map of keys met so far is the list of these keys. What
-- pathintent and exclusionintent do with a reference is Intent.Reference. internal/networkintent is
-- Intent.Network, and internal/mcpintent is Intent.Mcp, whose servers refer to the entries of the
-- other selections.
-- Launch is internal/launch: Launch.Paths is the tests on paths that path_grants.go and sandbox.go
-- make with filepath.Rel, Launch.Grants is reduceFilesystemGrants of path_grants.go, and
-- Launch.Resolve is ResolveFilesystemGrants with what it calls. The file system is the record
-- Launch.Host.Host of the answers to the calls, the same throughout one run. Launch.Exclusions is
-- path_exclusions.go, and Launch.Revalidate is revalidateFilesystemGrants. The grants are sorted by
-- the comparison of the source; in what order Go leaves grants that compare equal is not modelled.
-- Launch.Runtime is RuntimeAuthority of sandbox.go.
-- Authority is internal/authority/plan.go: Authority.Plan is New and the operations on a Plan,
-- Authority.Semantics what a target registers, Authority.Intents, Authority.Recipe and
-- Authority.Sandbox the facts, and Authority.Explain buildExplanation, which sorts them and hashes
-- the manifest of Authority.Encoding. A contribution is the record of what its optional interfaces
-- return, and SHA-256 is an argument. A 64-bit int is a signed integer, whose range is a hypothesis.
-- Release is internal/release/publication: Release.Publication is plan.go, with the candidate
-- directory, SHA-256 and the decoded response of GitHub as arguments. The map of existing assets
-- is the list of them, in which a name is looked up.
-- Instructions is the selection of instruction files of internal/instructions/model.go, for any
-- function in place of the case folding of golang.org/x/text.
-- SelfUpdate is internal/selfupdate/update.go: the versions and their order.
-- SessionOps is internal/sessionops, the registry of the Sessions: SessionOps.Walk is scan.go, and
-- SessionOps.Paging pagination.go, whose heap is kept as a list in descending order, and SessionOps.Registry is the files of one Session
-- in sessionops.go: SessionOps.Registry.Tracker is the Tracker, SessionOps.Registry.Recovery is Recover,
-- with the answers of SessionOps.Registry.Answers, SessionOps.Registry.Finalize is FinalizeRemoval,
-- SessionOps.Registry.Retention is the body of the loop of pruneRemovedLocked, and
-- SessionOps.Registry.Public is public. SessionOps.Registry.Writes gives every write its fate: it
-- succeeds, or fails before or after its effect is visible, which also stands for the end of the process
-- there. SessionOps.Registry.Safe.Runs puts the operations of the process of a Session and of others in
-- any order, and SessionOps.Registry.Safe.Resumable says what a removal leaves that stops between its
-- writes. The fence of a Session is held throughout an operation; one that does not get it writes
-- nothing. SHA-256 and the time of an operation are arguments.
-- Tests runs the definitions on concrete inputs.
--
-- Loops are recursions on a list, but for two. StrictJson.Scan.scan has one more than twice the number
-- of tokens as fuel: a call of value takes a token, and a round of a loop a second unit. The digits of
-- Authority.Sandbox have 20 units, since an int of 64 bits has at most 19. Errors are constructors in place
-- of the messages. sort.Slice and sort.Ints are one insertion sort; the program sorts by keys that
-- it has found distinct, or refuses the list, so that the result does not depend on the algorithm.
--
-- Not modelled: the JSON texts of the schemas (Encode and Decode), and the packages that are listed
-- in the manifest as not modelled.
pub mod Authority
pub mod Prelude
pub mod GoPath
pub mod Text
pub mod StrictJson
pub mod Intent
pub mod Instructions
pub mod Launch
pub mod Release
pub mod SelfUpdate
pub mod SessionOps
pub mod Tests
