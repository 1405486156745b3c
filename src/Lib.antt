-- ===== src/Lib.antt =====
-- A verification library for the attribution chain application: a ledger of signed records and the
-- graph of endorsements projected from it.
--
-- The program. A record wraps an event in two layers of canonical CBOR, each bound by a SHA-256
-- digest; records form a chain, each naming the record before it. Endorsements and revocations are
-- events of the chain. A projection replays the chain into an in-memory graph of endorsements, over
-- which an evaluation computes the confidence in an identity. An HTTP server admits and evaluates; the
-- process reads its configuration, serves and shuts down.
--
-- What models what:
--   Prelude    names shared by all modules: Boolean tests, lists, byte sequences, maps, results
--   Ledger     internal/ledger/v1, a module for each of its files: Constants, Errors, Digests,
--              Codec (decodeCanonicalMap, hasExactKeys), Wires (the wire structs), Event
--              (NewEvent, ValidateEventStructure, ValidateEventSemantics), Record (NewRecord,
--              ValidateRecordStructure), Chain (ValidateChainConsistency, Apply)
--   Endorsement internal/endorsement/v1/payload.go: Statements (NewProposal, NewRevocation, Digest,
--              VerifySignature), Payloads (the payloads: New, Encode, Decode, Verify)
--   Graph      internal/graph/v1: Edge (edge.go), Store (graph.go), Identity (identity.go), Policy
--              (policy.go), Provenance (provenance.go), Evaluator (evaluator.go) and Projector
--              (projector.go: ApplyRecord and, in Projector/Stored, ReplayFromStore)
--   LedgerStore internal/ledgerstore: Append, Head, Record, ScanRecords and their errors
--   Admission  internal/admission/service.go: InitLedger, Admit, AdmitEndorsement, AdmitRevocation
--   Signers    internal/signer: the signers of local.go and kms.go
--   Config     internal/config/config.go: Load and the settings that it reads
--   App        internal/app/runtime.go: Run, which serves and then closes the resources
--   Process    cmd/chain-api/main.go: Faults (filterStandardStreamSyncErrors), Fallback
--              (boundFallbackMessage) and Run (run, from the configuration to the exit code)
--   HttpApi    internal/httpapi/server.go: Ledgers (GetHealthz, InitLedger, GetLedgerHead,
--              GetRecord), Endorsements (AcceptEndorsement, RevokeEndorsement), Confidence
--              (EvaluateConfidence)
--   Tests      an encoding and a hash with the documented laws, and the theorems at concrete input
--
-- A function keeps its name, in snake case. A string, an array and a digest are lists of bytes; a
-- slice of bytes is optional, since nil is encoded unlike an empty slice. An error is a value: of
-- Result where the function returns nothing else with it, in a pair where the state beside the
-- error matters. Integers are natural numbers, with the wrap-around of uint64 written out where the
-- code adds to one. The graph's indexes point to shared edges, so the edges are cells of a heap.
--
-- What is a parameter: the CBOR library (Libraries in Ledger/Wires) with its documented laws
-- (IsDocumented): an event body that it writes reads back, as the struct and as a map with the struct's
-- keys; of the structs with text, which it reads only where the text is UTF-8, what it reads is what
-- was written; and no struct is written as no bytes; and SHA-256, of which only the length of its digests
-- is used. The endorsement package has its own wire structs and the keys and signatures of P-256 (Crypto
-- in Endorsement/Wires) with the laws of reading them back where their text is UTF-8 (IsReadable). A
-- panic of that package, on a key or a statement that cannot be encoded, is the error `panicked`.
--
-- The database (Database in LedgerStore) answers each statement of the store from a state that other
-- writers may change too; of what it answers only the replay from the store assumes a law, that no
-- ledger has sequence numbers above a bound. The signer, the clock and the cancellation of a request
-- are parameters of admission (Environment in Admission).
--
-- float64 is a parameter (Floats in Prelude/Doubles) without any law, with its conversions from and to
-- float32 (Narrow in HttpApi/Confidence). The parsers of the standard library are a parameter of the
-- configuration (Parsing in Config); encoding/hex and the sorting of slices are defined in Prelude. The
-- process is given what its constructors, its server and its logger answer (Answers in Process/Run,
-- HttpServer in App), and what is modelled of it is which calls it makes and how it exits.
--
-- Loops are structural recursions over lists. The loop of Admit is a recursion on the
-- attempts left, and the search of the evaluator on the hops left.
-- Only the loop of ReplayFromStore, and with it EvaluateConfidence, takes fuel, a number of
-- rounds, and one more round than the sequence numbers left under the bound is enough, since each
-- round but the last applies a record.
--
-- Not modelled: the parties' signing of endorsements, the routing of requests with the generated
-- binding, the connections to the database, and logging and telemetry, which are input and output.
-- The texts of errors and of the explanation of an evaluation and the defensive copies of slices
-- are left out.
pub mod Prelude
pub mod Ledger
pub mod Endorsement
pub mod Graph
pub mod Admission
pub mod Tests
pub mod App
pub mod Config
pub mod HttpApi
pub mod LedgerStore
pub mod Process
pub mod Signers
