-- ===== src/Lib.antt =====
-- Verification library of repost-go, the Go client that sends webhook events to the Repost service.
--
-- The program. A `Runtime` (runtime.go) admits an operation under limits on concurrency and bytes
-- (state.go), serializes its payload, and tries to deliver it in a bounded number of attempts, with
-- pauses between them (operation.go). Each attempt is handed to a transport (transport.go), whose
-- answer is judged (operation_response.go, response_factory.go) after a strict scan of its body
-- (internal/strictjson/parser.go). Every failure is an `Error` (errors.go) that says how far the
-- delivery may have got. The raw transport (transport_raw.go) takes its connections from a pool
-- (internal/pool/pool.go) and speaks HTTP/1.1 (internal/h1/h1.go) or HTTP/2 on them.
-- Events are reported to the caller's observer by a dispatcher (observer.go).
--
-- The files and the code.
--   Prelude: lists, tests on numbers, and integers. `wrap64` is what an int64 operation keeps,
--     `sat64` what a saturating one keeps; they are written out where the source can overflow.
--   Text: what the code uses of Go's strings, strconv and unicode/utf8, on byte sequences.
--   Errors: errors.go.
--   State: state.go. One function per section under the mutex. State.World is the runtime state with
--     all permits ever admitted, and `run` executes a schedule of the sections that the callers in
--     runtime.go and operation.go produce; goroutines are interleaved by the order of its events.
--   Json: internal/strictjson/parser.go. The recursive descent takes fuel, four units per byte and
--     four more; `Json.Decode` is what encoding/json makes of a document that the scan accepts, and
--     `Json.Grammar` the grammar against which the scan is compared.
--   Response: transport.go's data, response_factory.go's limits and snapshots, and
--     operation_response.go's verdict on a response, with Content-Type, Retry-After and HTTP dates.
--   Operation: operation.go. `Operation.Backoff` is the pause between two attempts, and
--     `Operation.Attempt` the loop of `sendAdmitted`: a round is a function from what its
--     surroundings answer (contexts, clocks, hooks, the transport's report) to the actions taken and
--     how the loop goes on. The loop runs over the rounds that are left, `max_attempts` of them.
--     `Operation.Prepare` is `sendAdmitted` before its loop: the checks in their order, over what the
--     hooks, the serializer and the encoder answer. `Operation.Keys` is what the headers are made of
--     (operation.go, config.go, version.go), and `Operation.Issues` the collection of validation issues
--     (serialize.go) with the error made of it. `Operation.Envelope` is `marshalEnvelope`.
--   Ordered: ordered.go. An object is its members in order; encoding/json is a parameter for texts and
--     for every value that the encoder does not look into. `marshal_json` is the encoding without a
--     limit, `write_value` the one that stops behind it.
--   Pool: internal/pool/pool.go. The entries of each origin in order; a connection is its number,
--     and `Pool.World` runs schedules of the sections with the leases and dials that are held.
--   Observer: observer.go's dispatcher. Its goroutine is the place where it stands in `run`.
--   Http1: internal/h1/h1.go. `Http1.Writing` is `WriteRequest` over any writer; `Http1.Lines`,
--     `Fields`, `Framing`, `Body`, `Gzip` and `Reading` are the parts of `readFinalResponse` over the
--     bytes that the connection delivers, whose end stands for the error it then gives. The header
--     loop runs over the fields there may still be, the loop of informational responses over those
--     there may still be, and the chunk loop over one unit of fuel per byte and one more. The gzip
--     reader is a parameter; its law is what `io.Reader` documents, and that a read with no error takes a
--     byte or more, as `io.Reader` advises.
--   Transport: transport_raw.go and transport_errors.go. An error is what errors.Is and errors.As
--     find in it. `Transport.Outcomes` maps exchanges to outcomes, `Transport.Exchange` is one
--     exchange and its replay over what the connections answer.
--   Tests: the theorems at concrete inputs.
--
-- Not modelled: of configuration (config.go) all but the tests of a credential and of a user agent's
-- suffix; of payload serialization and descriptors (serialize.go, descriptor.go, optional.go, generators.go)
-- all but the collection of issues, since the walk over a payload uses reflection; the event
-- records and telemetry (telemetry.go, otel), webhook verification (webhooks.go), HTTP/2 (internal/h2), the
-- dialling with its options, TLS and proxies (transport_options.go, internal/tlsx,
-- internal/proxyconnect), identifiers (internal/cuid2), and the helpers for tests (reposttest).
-- Contexts, clocks and hooks of the caller are inputs of the definitions.
pub mod Prelude
pub mod Errors
pub mod Text
pub mod Json
pub mod Operation
pub mod Ordered
pub mod Response
pub mod Http1
pub mod Transport
pub mod State
pub mod Pool
pub mod Observer
mod Tests
