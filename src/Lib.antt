-- ===== src/Lib.antt =====
-- A model of master-data synchronization: the single source of truth, which is the agrirouter that
-- participants are tested against, reference-client/internal/testrouter, and a participant, which is the
-- sample platform of reference-client/internal/platform, with what both take from the library agmasync.
--
-- The router keeps canonical objects, a mapping from each endpoint's own identifiers to them, and the
-- selection and initial-load state of each endpoint. A write arrives as a JSON merge patch under an
-- endpoint's identifier, is checked, has its references resolved through the mapping, and is merged
-- with what others changed since the revision that it is based on. A change takes one position in the
-- total order and is rendered for every entitled endpoint of the tenant but its writer, on the stream
-- of the endpoint's application. A stream that resumes from a position is caught up first. An endpoint
-- takes its initial load through four states, binding what it recognises in bulk. A reset discards a
-- tenant's objects and opts its endpoints out.
--
-- A participant keeps its own records, and beside them a table of pairs: what agrirouter calls each
-- record through each of its endpoints, and the revision held. A delivered object, or the answer to a
-- write, is matched through the pairs, guarded by its revision, and written with its pair and the
-- stream's position in one transaction. A record goes out as an update of its pair, or as a create where
-- no endpoint has one. An initial load takes the set, confirms the pairs, gives up those refused and
-- offers the rest. The two sides meet in the mapping: what the participant's pairs say and what the
-- router's mapping says are related by the confirmation and by a correction.
--
-- The files, and the code that each models (under reference-client/internal/testrouter unless it says
-- otherwise):
--   Model          model.go, entity types of agmasync/entity.go, reasons of agmasync/errors.go
--   Failure        the errors of ssot.go; a Go (value, error) is a Result
--   Json           decoded JSON: encoding/json's RawMessage, and maps of it
--   MergePatch     mergepatch.go: mergePatch, patchAttribute, canonicalJSON
--   Identity       identity.go: read, canonicalID, renderID; Identity/Wire: its JSON form
--   Platform       github.com/google/uuid and time.Time, as a parameter
--   Position       encodePosition and decodePosition of streams.go
--   Hub            frame and hub of streams.go
--   Store          store, localKey and canonicalKey of ssot.go
--   Assigned       assigned.go: decodeSentIdentity, checkRequest, checkBinding
--   References     references.go: walkRefs, resolveRefs, rewriteRefs, namedAsParent
--   Deliver        entitled, recipients, deliver, deliverTo and renderLocked of ssot.go
--   Mapping        bindLocked and correct of ssot.go
--   Write          put, create and deactivate of ssot.go; Write/Content: contentOf, activeOf, rejectNull,
--                  checkDetails, checkKindChange; Write/Merge: the merge inside put, and valueAt
--   InitialLoad    initialload.go, selectedTogglesLocked of router.go
--   Reset          reset.go: ResetTenant
--   Selection      selectTypes, declare, insertEndpoint, RemoveEndpoint of router.go, DependencyClosure of
--                  agmasync/initialload.go
--   Streams        catchUp, liveStream, initialLoadStream of streams.go, doRequest of handlers_core.go
--   History        the router's operations in any order, as a step relation on its store
--   Client         the participant, of reference-client/internal/platform:
--   Client/Identity   identity.go of agmasync, Envelope of agmasync/entity.go
--   Client/Pairs      store/store.go: the table agmasync_object and its queries; Pairs/View: the view of
--                     it as at most one row for a key, and the changes as steps on that view
--   Client/Database   store/store.go: SetPosition, SetRoute; store/entities.go: FromEntity, UpsertRecord,
--                     SetArchived, DeleteRecord, ForgetRecord, LocalIDs, and the membership table
--   Client/Codec      store/entities.go: ToEntity
--   Client/Apply      sync/inbound.go: the Applier
--   Client/Send       sync/outbound.go: Send, Deactivate, bindAsSibling
--   Client/Correct    sync/outbound.go: the transaction of Correct
--   Client/Recognise  sync/recognise.go: ByName
--   Client/Reconcile  sync/initialload.go: bindings, dropRejected, what push offers
--   Client/Load       sync/initialload.go: Run, takeCanonicalSet, push, Attention
--   Client/Receive    sync/receive.go: consume, applySelection, applyReset, applierFor
--   Prelude        names of the libraries, Go's maps as lists, and a stable sort
--   Examples       concrete runs
-- The modules below a component hold its theorems and are named for what they prove.
--
-- How the state corresponds: a store is passed from each operation to the next, so each operation is
-- one step, as the code's one lock makes it. A map that is only looked up is a function; the maps that
-- are ranged over (objects, endpoints, resets) are lists with one entry per key, and what the code
-- ranges over in Go's random order goes by the list's order where the outcome does not depend on it.
-- A write through a pointer puts the record back in its list. The clock's reading, a fresh uuid and a
-- channel's number are arguments. A nil dereference is the failure `panic`.
-- On the participant's side a database is a record: the rows of the pairs, the position, the routes, the
-- memberships and the product's own tables. A transaction is a function from a database to a result, so
-- one that fails leaves the database. A query that finds no row is `none`. The product's own tables, with
-- the mapping of attributes to columns, are the interface Tables, and agrirouter's answers are those of an
-- arbitrary world that each request steps: Requests, LoadRequests and the field of Receiver.
--
-- Bounds: revisions, sequence numbers and counts are natural numbers, which stand for Go's int and
-- uint64 as long as they do not overflow; a base revision may be negative and is an integer. The text
-- of a revision is written digit by digit, on one round more than its value, and a number has no more
-- digits than that. A subscription's buffer holds 256 frames. Bytes of a position are numbers below
-- 256, the eight bytes of a uint64.
--
-- The loop of an initial load runs on fuel, one more than the cap on its takes, which is 3 where none is
-- given: each round makes one take, so the cap stops it first. DependencyClosure's add runs on fuel 4,
-- the number of entity types; each call marks a type that was not. A stream is the finite list of what it delivers.
--
-- Not modelled: the HTTP handlers and their generated code, which decode a request and encode an
-- answer (doRequest alone is here); the test control plane and its observations; locks; the writing
-- of bytes to a response; of agmasync, the HTTP client and the parsing of streams; of the participant,
-- the SQL driver and its errors, the columns of the product's tables (columnValues, loadFrom), the
-- connection to agrirouter, the requests that follow a correction, and the text of errors; the
-- commands, scenarios and tools. A body is decoded already, its keys are matched exactly, and an object
-- in it holds each key once or is read as Go reads it, the last value of a key winning.
pub mod Prelude
pub mod Json
pub mod Model
pub mod MergePatch
pub mod Failure
pub mod Platform
pub mod Identity
pub mod Position
pub mod Hub
pub mod Store
pub mod Assigned
pub mod References
pub mod Deliver
pub mod Mapping
pub mod Write
pub mod InitialLoad
pub mod Reset
pub mod Selection
pub mod Streams
pub mod History
pub mod Client
pub mod Examples
