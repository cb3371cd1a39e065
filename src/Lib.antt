-- ===== src/Lib.antt =====
-- A verification library for the CCNF reference implementation: canonicalisation of events, their
-- replay, and the runtime that builds on replayed state.
--
-- The program takes a raw JSON event through a pipeline (ccnf/) to a canonical event record, a CER;
-- replays sequences of CER events into a state (replay/), takes and validates snapshots of such a
-- state (replay/snapshot/); builds execution receipts over traces of hashes, and validates them
-- (runtime/); replays a second, flatter kind of event (runtime/replay/) that an adapter makes of the
-- first; and reads the replayed state through prefix scans, decoded views and projections
-- (runtime/rehydrate/, projection/account/). A store of identity seeds stands beside it
-- (runtime/identity/). Around the pipeline stand the suite of golden vectors (conformance/) and the
-- checks and fuzzed inputs of ccnf/r2.go. A separate command, tools/pgv, extracts the graph of the
-- repository's packages, validates which of them import which, and compares two such graphs.
--
-- The files and the code that each models:
--   Base/*               bytes, int64, Go maps, `sort.Strings`; no code of the repository
--   Value.antt           the dynamic values (`any`), `getString` and `getMap` of ccnf/identity.go
--   Value/Platform       what the sources call: SHA-256, NFC, JSON parsing, times, floats, the clock
--   Value/{Same, Equal}  equality of values up to map order; `reflect.DeepEqual`
--   Ccnf/Numerals        decimal and hexadecimal numerals, `hex.EncodeToString`, `hex.DecodeString`
--   Ccnf/Serializer      ccnf/serializer.go: `CanonicalJSON`
--   Ccnf/Normalize, Ccnf/Canonicalize   ccnf/normalize.go, ccnf/canonicalize.go
--   Ccnf/Intents, Ccnf/Artifacts, Ccnf/Identity, Ccnf/Deltas   the files of those names in ccnf/
--   Ccnf/Cer, Ccnf/Cer/Parse   ccnf/serialize.go, ccnf/hash.go, ccnf/cer.go
--   Ccnf/Pipeline        ccnf/structural_parse.go and ccnf/ccnf.go: `Run`, composed of the above
--   Replay               replay/{types, state, fold, cursor, replay}.go
--   Snapshot             replay/snapshot/*.go
--   Runtime/{Trace, Binding, Receipt}   runtime/trace.go, replay.go, validator.go and types.go
--   Runtime/Engine       runtime/replay/*.go and runtime/replay/adapter/cer_adapter.go
--   Rehydrate            runtime/rehydrate/{snapshot, registry, scan, reader}/*.go
--   Rehydrate/Account    projection/account/account.go
--   Lineage              runtime/identity/{store, stableid, replay}.go and its internal package
--   Ccnf/{Mutate, Checks, CrossOrder, Fuzz}   ccnf/r2.go: copies and mutations, `CollisionDetector`
--                        and `RoundTripChecker`, `CrossOrderTester`, `SemanticFuzzer`
--   Conformance          conformance/runner.go: `runVectors`, and the commands for one file
--   Pgv                  tools/pgv/ir.go: the types of a graph
--   Pgv/Search           tools/pgv/validator.go: `hasCycleDFS` and `bfsMaxDepth`
--   Pgv/Validator        tools/pgv/validator.go: the checks and `ValidateWithDeclared`
--   Pgv/Build            tools/pgv/ir.go: `BuildGraph` and `computeIRHash`
--   Pgv/Diff             tools/pgv/{graph_to_ir, diff, delta}.go
--   Pgv/Extract          tools/pgv/{go_extractor, rust_extractor, comment_extractor, main}.go
--   Examples/*           concrete inputs
-- A child module such as Replay/View holds proofs about its parent: Ccnf/Artifacts/References says
-- what a reference is, Pgv/Validator/Reported which node has a depth violation, Rehydrate/Views what a
-- scan returns.
--
-- How the code is modelled. A Go function is a function by clauses; an error is a constructor of
-- `Result`, of a verdict type or of a check type, without its message; a panic is `none`. A string is
-- the list of its bytes. A map is the list of its entries in the order in which a `range` visits
-- them; Go leaves that order open, so a theorem about every list is one about every order. A float64
-- is its 64 bits. int64 and uint64 counters wrap around. A value whose dynamic type the encoder's
-- `switch` does not name, such as a `[]string` or a `*string`, is `other` with its contents. No code
-- puts a nil `[]any` or an int32 into an `any`, and `Value` has neither; what the encoder does on a nil
-- slice is a branch of `encode_array`.
--
-- Fuel: the loops over an iterator, `for it.Next()`, run on fuel, one round more than the keys of the
-- scan. Their result has a flag that is true when the loop ended by its own test. The two searches of
-- tools/pgv run on fuel for the depth of their calls, and `none` is its end. For the search of cycles
-- the number of the projections is enough, since each call takes a node that no call above it has;
-- for the search of depths the length of an order of the nodes, each before those that it imports, is
-- enough, and there is such an order exactly if there is no cycle.
--
-- Not modelled: the commands' input, output and flags, the runs of `go list` and the walks over files
-- (what they give is an argument), the JSON of graphs and the reports of differences as text
-- (tools/pgv/{serialize, format}.go), the commands that compare graphs, the interfaces that hold no
-- code, and the unused helpers of ccnf/r2.go and ccnf/canonicalize.go. `range` over the white nodes of
-- the search of cycles is taken in the order of the nodes.
-- Error messages (but for those that conformance/runner.go searches, whose details are given), allocation, and the mutex of the identity store (each operation is one step) are
-- left out. What the platform does is a parameter; where a theorem needs a fact about it, as that a
-- SHA-256 digest has 32 bytes, the fact is a hypothesis. That SHA-256 has no collision is never
-- assumed: where two inputs have one hash, the theorems conclude that the inputs are the same or that
-- the very bytes hashed for the one and for the other are a collision.
pub mod Base
pub mod Value
pub mod Ccnf
pub mod Replay
pub mod Snapshot
pub mod Runtime
pub mod Rehydrate
pub mod Lineage
pub mod Conformance
pub mod Pgv
pub mod Examples
