-- ===== src/Lib.antt =====
-- ollame is a proxy in Go that speaks the Ollama API to its clients and the OpenAI API to one
-- upstream. A request is authenticated (internal/auth), resolved against the catalog
-- (internal/catalog), translated (internal/translate), sent (internal/upstream), and its response
-- is decoded and put together again (internal/stream) by the handlers (internal/server). This
-- library models the packages' own logic and proves what they promise.
--
-- The files, and the code that they model:
--   Prelude       what the components share: bytes and strings (Texts, Search, Utf8), maps (Maps),
--                 lists (Lists, Sorting), integers (Int), results (Results), and of Go's library
--                 base64 (Base64) and the scanner and the strings of encoding/json (Json, Utf8)
--   Stream.Think  internal/stream/think.go: ThinkSplitter, with Feed, Finish and output
--   Stream.Tools  internal/stream/tools.go: ToolAccumulator, with Add and Finish
--   Stream.Sse    internal/stream/sse.go: splitLines, NewReader and Next, over bufio.Scanner
--   Stream.Decode the chunk types of internal/stream/decode.go
--   Stream.Assemble
--                 internal/stream/assemble.go: NewAssembler, output, Feed, Finish, EstimateUsage
--   Config        internal/config: ValidTokenName (Config), the records and defaults of types.go
--                 (Types), values of type any (Value), names and small checks (Names), Validate
--                 (Validate), sizes (Size), and of load.go splitList, ParseTokens and mergeAliases
--                 (Load)
--   Glob          internal/glob/glob.go: Compile, CompileAll, Any
--   Catalog       internal/catalog/catalog.go: the types, Resolve, AllowsTarget, Entries; its
--                 children baseEntry (Entries), apply and finish (Apply), Build (Build)
--   Auth          internal/auth/tokens.go: NewSet, Authenticate, Authorize
--   Auth.State    internal/auth/tokens.go: State.Update
--   Translate.Batches, Translate.Estimate
--                 internal/translate/embedding_batches.go, EstimateUsage of
--                 internal/translate/embeddings.go
--   Translate.Messages
--                 internal/translate/messages.go: the system messages and the matching of tool
--                 results; Translate.Messages.Convert the loop, toolID and imageURL
--   Translate.Body
--                 internal/translate/body.go: Finalize
--   Translate.Thinking
--                 internal/translate/options.go: Thinking
--   Server.Embed  internal/server/embed.go: the loop over the batches
--   Server.Admission
--                 internal/server/admission.go: admit as steps of concurrent requests
--
-- How the code is rendered. A struct is a record, a method a function from the record to the new
-- record and its results, an `error` a value of an enumeration of the package's errors. A function
-- that is passed in (the `emit` of the stream package) is a function on a state that is threaded
-- through, so that the theorems hold for every caller. Strings and byte slices are lists of bytes,
-- maps association lists whose order stands for the order of iteration. An `int` is an integer;
-- lengths and counters that only grow from zero are natural numbers, and the tests against
-- math.MaxInt and the configured limits are written out.
--
-- Fuel. The loop of ThinkSplitter.Feed takes three rounds, since it passes two tags at most; Next
-- takes a round for every line, and every line takes a byte. Both have a theorem that the fuel is
-- enough. The loop over the batches of embeddings takes a round for every input at most, which its
-- theorem shows too. All other loops are recursions on the list that they run over.
--
-- Arguments of the model, which stand for code that is not modelled: SHA-256, the detection of
-- content types, Logprobs (a translation between two forms of JSON with floating-point numbers),
-- url.Parse, the package regexp, json.Marshal of a catalog entry's metadata, whether json.Marshal
-- encodes a value of an extra body, and the request of a round of embeddings up to its decoded
-- response. Each is an arbitrary function in every theorem, but for the decoded response, which is
-- taken to have a vector for each input.
--
-- Not modelled: the rest of the decoding of JSON into structs, floating-point embeddings, the
-- sampling options and formats of requests, the merge of the configuration's sources by koanf, the
-- rest of the HTTP server and client with their timeouts and reloads, metrics, tracing and the
-- command line. Roles of messages are read as ASCII texts. A bufio.Scanner that gets a hundred
-- empty reads in a row fails; this is left out.
pub mod Prelude
pub mod Stream
pub mod Config
pub mod Glob
pub mod Catalog
pub mod Auth
pub mod Translate
pub mod Server
