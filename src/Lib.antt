-- ===== src/Lib.antt =====
-- A verification library for arcaflow-plugin-sdk-go, the Go SDK of Arcaflow plugins: schemas that
-- unserialize, validate and serialize data (schema/), and the transport protocol between the engine
-- and a plugin (atp/).
--
-- The parts and their files:
--   Common           Boolean tests, lists, signed integers, byte strings, association lists.
--   Go               What the program uses of Go: Value (the dynamic values in an `any`), Result (a call
--                    that returns a value or an error, or panics; schema/errors.go with its paths),
--                    Text (decimal text), Convert (the conversions of `reflect`), Strings
--                    (`strings`), Utf8 (`unicode/utf8`) and Regex (`regexp`, as a backtracking search).
--   Schema.Types     The struct of each schema type (schema/types.go, object.go, property.go, oneof.go,
--                    ref.go, scope.go). A reference's object is an address in a store of objects.
--   Schema.Scalar    schema/int.go, float.go, string.go, bool.go, enum.go, enum_int.go, enum_string.go.
--   Schema.List, Map, Any, Object, OneOf, Pattern
--                    One file for each of schema/list.go, map.go, any.go, object.go with property.go,
--                    oneof.go and pattern.go. An operation takes the operation of the types below it as an argument.
--   Schema.Tree      Unserialize, Validate, Serialize and ValidateCompatibility (with data) of a whole
--                    schema, through references (schema/ref.go) and scopes (schema/scope.go).
--   Schema.Compatibility
--                    ValidateCompatibility with a schema: of the scalar types, of enums in Enums, and of a
--                    whole schema in Whole.
--   Schema.Namespace  ApplyNamespace and ValidateReferences of all types. A method takes that of a
--                    scope as an argument, and that of a scope takes fuel for the scopes within.
--   Schema.Scope     NewScopeSchema of schema/scope.go, and NewMapSchema of schema/map.go.
--   Schema.Describe  schema/schema_schema.go: the objects that describe schemas, and the scopes of them.
--   Schema.Units     schema/units.go: the formatting, with Parse for the reading and Tables for the units.
--   Schema.Function  schema/function.go: the construction of functions, with Call for their calls.
--   Atp.Protocol     The messages of atp/protocol.go.
--   Atp.Client       atp/client.go: the table of running steps; Client.Events has the steps that
--                    Execute, Close and the read loop take, in any order, and Client.Spec the status of
--                    the runs that these steps refine. Client.Session has ReadSchema, the start of
--                    Execute, the protocol's first version and the loop that sends signals.
--   Atp.Server       atp/server.go: the session's read loop, its handlers, and handleClosure;
--                    Server.Running has the steps that run, the goroutines of steps and signals
--                    and handleClosure take, in any order.
--   Atp.Link         What the client sends for one Execute, received by the server.
--   Step             CallStep of schema/schema.go, and Call and setupStepData of schema/step.go;
--                    Step.Signals has CallSignal, with schema/signal.go.
--                    Step.Schemas has the schemas of steps, and the links that a received schema gets.
--   Tests            Concrete runs.
--
-- A method `(x XSchema) Unserialize` is `unserialize_x`, and so on; other names are the source's in snake
-- case. A Go error is `err` with the constructor of its format string; texts are left out. A Go map is
-- an association list in the order of a range loop, which the theorems leave open.
--
-- Fuel. The operations of Schema.Tree recurse through references, which need not end, so that they take
-- fuel, and so does Schema.Compatibility.Whole; Schema.Tree.WellFormed measures how much a schema
-- needs, by a rank of the stored objects that falls along references. The other loops recurse on their data.
--
-- Parameters. The arithmetic of floats and their text (Floats), the regular expression of a string and
-- regexp.Compile (predicates), a Go function behind a schema (Handler), and CBOR decoding (Decoder). A client's channels
-- are numbers, with what was sent on them and which are closed; each step of the client is what
-- happens under one hold of its mutex. The server's channel workDone has room for any number of errors,
-- and not for three only, so that no goroutine waits to send.
--
-- Not modelled: objects tied to Go structs, and so SelfSerialize, UnserializeScope and UnserializeSchema;
-- compatibility of data that holds schemas; the display texts, the time limits of the client and
-- the server, the command line and the code generator.
pub mod Common
pub mod Go
pub mod Schema
pub mod Atp
pub mod Step
pub mod Tests
