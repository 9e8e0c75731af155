-- ===== src/Lib.antt =====
-- Verification of ivorycom-governance, the governance library of the Ivorycom platform (go/).
--
-- The program: a service embeds go/policy and asks it for decisions. `RuleFor`
-- (go/policy/model.go) layers a tenant's rule over the system's; `Can` (go/policy/engine.go)
-- answers by the rule's grants and by its field rules (go/policy/fls.go); `CanRecord`
-- (go/policy/abac.go) adds conditions on the attributes of a record; `Decide`
-- (go/policy/decide.go) puts the guardrails for agents, services and the system around `Can`. The
-- bundle comes from a `Loader` (go/policy/bundle.go), which fetches signed bytes, verifies them,
-- decodes them with `UnmarshalJSON` (go/policy/wire.go), and hands its cached bundle to the engine
-- of the service. Apart from these, go/audit makes audit events with the difference of two states
-- and hands them to an outbox, go/crypto seals texts under data keys that KMS wraps, and go/dsar
-- answers the two routes of a data subject access request.
--
-- Files. Common and its children: tests, lists, maps, integers and the text functions of Go's
-- library that the code calls. Policy/Model, with Merge, Layers and Same: model.go. Policy/Fls,
-- with Order and Visible: fls.go. Policy/Engine, with Access, Tenants and Unordered: engine.go.
-- Policy/Abac, with Conditions, Meaning, Membership and Reload: abac.go. Policy/Decide: decide.go,
-- its types in Types, `outcome` in Choice, `Decide` in Stages, and proofs in the other children:
-- which requests are cleared in Clearance, which denials and demands for approval there are in
-- Denials and Questions, by the stages in Gates, GateRefusals and DelegationRefusals, and what an
-- approval changes in Approval and Executor; Unordered/View is among them, which has bundles up to
-- the order of their maps as a quotient. Tests modules run the definitions. Policy/Wire: wire.go,
-- its keys in Keys and the round trips in RoundTrip, Decoded and Canonical, the order of the maps
-- in Reordered. Policy/Bundle: bundle.go, the signed message in Message, `Reload` in Cache,
-- `Watch` in Versions, Latest and Loop, what is published in Published, two reloads at once in
-- Race, any number of them in Concurrent. Policy/Service: the engine over a loader,
-- `NewEngine(loader.Current)`, and what it decides while the loader is reloaded, in Safety,
-- Freshness, Halt, Revoked and Watched, by Held. Audit/Diff: go/audit/diff.go, with Fields, Errors
-- and, for a reader of its documents, Restored and Document; Sample has a coding of maps to run it
-- on. Audit/Trail: `Diff`, `NewEvent` and `Emit` in a row. Audit/Event: go/audit/event.go and
-- go/audit/emit.go, with Required. Crypto: go/crypto/envelope.go, with RoundTrip, Sealed and
-- Tampered; Sample has toy primitives to run it on. Dsar: go/dsar/contract.go and
-- go/dsar/handler.go, the handlers in Answers and Branches and their registration in Mount.
--
-- Correspondence: a function keeps its Go name in snake case, and a struct its name and fields. A
-- Go map is an association list that holds each key once; a nil map or slice is the empty one. Of
-- the modelled functions only `MarshalJSON` and the export handler let the two be told apart: for
-- a nil `Fields` or `RecordConditions` `json.Marshal` writes null, and {} or [] for an empty one,
-- and the model has one bundle for both, while go/dsar has `none` for a nil slice. Texts are
-- sequences of code points, so a Go string that is not valid UTF-8 is outside the model. `int` and
-- `int64` are integers without a width: the modelled code only compares and prints them. `(value,
-- ok)` results are options; `riskOrdinal` keeps its pair, since some callers drop the second part.
-- The getter of an Engine is called anew by each evaluation, and twice by `CanRecord` and
-- `Decide`; each call's bundle is an argument. An early return of `Decide` is the `refused` case
-- of a gate. An `(value, error)` result is a `Result`; where several entries of a map fail, Go
-- returns the error of the first that its iteration meets, and the model that of the first in the
-- list. The loop of `Watch` runs on the list of what its `select` receives, which stands for an
-- interval above 0; in Loop it has its interval, with the panic of `time.NewTicker` for one that
-- is not positive, and an endless run of events, for a number of rounds, with a theorem for every
-- number. The handlers of go/dsar end in a response or in the error of `c.JSON`, which only the
-- body of an export can cause. In Concurrent a goroutine that reloads moves in two steps, the read
-- of the pointer and the store, and the steps of all goroutines come in any order; the fetch and
-- the checks before the read touch no shared state. Loops are recursions on lists and texts; the
-- digits of a number take a fuel above the number, which each round divides by 10.
--
-- Parameters: `fmt.Sprintf("%v", v)` on values that are neither nil nor strings; in the loader the
-- answers of the fetcher, `encoding/json`, `encoding/base64` and `crypto/ed25519` (the record
-- Externals); in the audit `encoding/json` (the record Json), the id and the time of an event and
-- the write into the outbox; in the encryption KMS, the random source, AES-GCM and `encoding/json`
-- (the records Kms and Primitives); in the handlers the parsed body, the clock, the context's
-- functions, the encoder of `c.JSON` and the router (the record Router), of which only the
-- registration of a route is used: which requests reach a handler is left open. What a theorem
-- needs of them is a hypothesis of that theorem: that signatures are not forged, that
-- `encoding/json` decodes what it encoded and sorts the keys of maps, that AES-GCM opens what it
-- seals and nothing else, that it opens a ciphertext under no other additional data, and the like.
-- Such promises of cryptography hold up to a negligible chance and are taken as certain.
--
-- Not modelled: JSON field names, the texts of most error messages, and contexts
-- (`context.Context`), which the code only passes on.
pub mod Audit
pub mod Common
pub mod Crypto
pub mod Dsar
pub mod Policy
