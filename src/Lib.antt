-- ===== src/Lib.antt =====
-- The client framework for Fountain devices: the protocol core, from the bytes that are signed to the
-- requests of the application, the datapoints and their cache, and the poller that drives it.
--
-- Parts and files. Paths are those of the repository.
--   Error        include/fountainer/error.hpp, result.hpp and src/error.cpp: the error value, its
--                factories, and `Result`.
--   Json         the values of nlohmann::json, as far as the sources read and build them: `find`,
--                `message[key] = value` and `value(key, text)`. A double is its bit pattern.
--   Messages     include/fountainer/protocol/fountain_messages.hpp: the message table.
--   Envelope     src/protocol/envelope.cpp: `build_message`.
--   Canonical    src/protocol/canonical.cpp: `canonical_serialize`; Canonical.Strings has the escapes
--                and Canonical.Reader a reader of JSON strings that does not look at the writer.
--   Auth         src/protocol/auth.cpp and auth.hpp: `mac_input`, `sign`, `verify`; Auth.Replay is
--                `AntiReplay`, Auth.Signing the facts on signatures.
--   Dispatcher   src/protocol/dispatcher.cpp and dispatcher.hpp: the request queue, the rate budget,
--                the correlation of answers. Store is the `std::map` of open requests, Queue the
--                loops over the queue, Types the data, Run a history of method calls. Sender states
--                what the dispatcher needs of its `EncodeAndSend`; History is induction over
--                histories for any invariant of the parts; Handlers, Rate, Deadlines, Flight, Order,
--                Keys and Accounting are the invariants.
--   Session      src/protocol/session.cpp and session.hpp: the handshake and the running session.
--                Types has the state, Values how members are read, Sender `encode_and_send` and
--                `send_message`, Machine `enter`, `abort` and the transport events, Handshake
--                `handle_hello`, Running `handle_proof`, `dispatch_running`, `on_text` and `tick`,
--                Reports the unsolicited messages, History what happens to a session over its life.
--                Ids, Quiet, Live, Passage, Welcome and Once carry the promise to the handlers
--                through it; States, Waits and Proof are about the state `Running`, Keys and Agreement
--                about the hello, Answers and Ready about the proof, Guard about signed messages,
--                Frames about what is sent.
--   Poller       src/datapoints/poller.cpp and poller.hpp: the entries, `tick` and its requests; Grid
--                and Ticks are about deadlines and requests.
--   Constraints  src/datapoints/constraints.cpp: the relations between settings that the device
--                enforces; Rules states them as a list.
--   Security     src/security.cpp and security.hpp: credentials, what is checked before they are taken,
--                and the lock of the configuration. Hex is `decode_hex_key`, Keys says which texts are
--                keys, Locking and Validation are about the configuration.
--   Datapoint    include/fountainer/datapoints/datapoint.hpp: descriptors and values.
--   Catalog      src/datapoints/catalog.cpp and generated.hpp: Table1 to Table4 are the descriptors,
--                Constants1 and Constants2 the typed constants; Agreement is about the two together,
--                Lookup about `find` and the lists of names.
--   Codec        src/datapoints/codec.cpp: JSON to value and back, `validate` and the display text.
--                Wide has the 64-bit values as text, RoundTrip the way there and back, Ranges and
--                Limits the bounds, Kinds the types.
--   Snapshot     include/fountainer/datapoints/snapshot.hpp, and `decode_dp_object` of manager.cpp.
--   WriteSet     src/datapoints/write_set.cpp.
--   Manager      src/datapoints/manager.cpp: the cache and its subscribers; Exchange has the requests
--                and answers, Staging `stage`, `validate_staged` and `commit`. Cached, Delivery,
--                Decoded, Due and Ingestion are about ingestion, Sound and History about what every
--                operation keeps, Total and Commit about `commit`.
--   RestoreGuard src/datapoints/restore_guard.cpp: capture, restore, move and destruction of a guard;
--                Captured is about what a guard has, Baseline about what is written back.
--   Events       src/events.cpp and events.hpp: slot lists, subscriptions, the bus. History is what is
--                subscribed and reset, Slots and Delivery what a publication then calls.
--   Common       shared names, Boolean tests, text, lists and decimals. Tests holds concrete runs.
--
-- How the parts meet. The session owns a dispatcher, whose `send_` is the session's `encode_and_send`;
-- the members that this function shares with the session stand in `Link`, which is the state behind
-- `send_`, so both see one copy. The session signs with Auth what Envelope builds, and hands verified
-- messages to the dispatcher before it reports them. FreshIds is the contract between the two: the
-- sender never hands out an id twice. The session fulfils it for one connection, and has no request
-- open when it starts to count anew.
--
-- State and effects. Every method is a function of the state. What the code calls outside is a
-- parameter: the transport, the clocks, the random bytes, the JSON parser and printer and the casts of
-- doubles (`Platform`), SHA-256, HMAC, base64 and the printing of doubles (`Crypto`), the credential
-- provider and the OTA policy (`SessionConfig`), the table of datapoints (an argument of the poller),
-- the files (a function from paths to contents), the arithmetic and the text of floating-point values
-- (`Floats`, `Doubles`), `dump` and the cast of a double to a byte (`JsonLibrary`). What other threads
-- do to the manager while a write waits for its answer is an argument of `write` and `commit`.
-- Calls of handlers and callbacks are listed in traces, the latest first; the manager's and the bus's
-- operations return the calls they make, in their order. `none` is an exception of
-- the JSON library, of `build_message` or of the random generator, which no caller in the sources
-- catches. An Option that a history returns is none from there on.
--
-- Numbers. Times and durations are natural numbers of nanoseconds; the tokens of the rate budget, a
-- double in the code, are counted exactly, in units of 10^-12 token, with rates in thousandths of a
-- request per second. Counters of `std::uint64_t` wrap. The signed counters of message ids and of
-- sequence numbers do not: their overflow is undefined in the code, 2^63 frames away.
--
-- Fuel. The loop of `drain` takes one entry per round and has the queue's length as fuel;
-- Dispatcher.Flight shows that it ends by its own tests. The chunks of the poller take at least one
-- name per round and have the number of names as fuel; Poller.Chunks shows that none is cut off.
--
-- Limits of the model. Handlers and callbacks do not call back into the dispatcher, the session or the
-- manager. The blocking runner takes every work it is given. Logging is left out. Not modelled: the
-- client (glue between Asio and the session), the TLS transport, logs, commands, maintenance, `load_hmac_key_file`, the reading of the configuration, the logger,
-- the command line tool and the examples.
mod Common
pub mod Error
pub mod RestoreGuard
pub mod Events
pub mod Json
pub mod Canonical
pub mod Auth
pub mod Envelope
pub mod Messages
pub mod Dispatcher
pub mod Session
pub mod Datapoint
pub mod Catalog
pub mod Codec
pub mod Poller
pub mod Security
pub mod Constraints
pub mod Snapshot
pub mod WriteSet
pub mod Manager
pub mod Tests
