-- ===== src/Lib.antt =====
-- OpenLink carries ACARS/CPDLC messages between aircraft and ground stations over NATS. This library
-- models the Rust crates of the repository that hold its logic and proves theorems on them.
--
-- How the parts interact: clients build messages (crates/openlink-models) and publish them to their
-- outbox; the server (crates/openlink-server) receives every outbox message, updates the CPDLC session
-- of the aircraft concerned, finds the destination in its station registry, forwards the message to the
-- destination's inbox and sends session updates. The Hoppie bridge (crates/openlink-hoppie) is a client
-- that relays messages of another network; the SDK (crates/openlink-sdk) is the client library. Clients get the tokens with which they publish
-- and subscribe from the authentication service (crates/openlink-auth).
--
-- Files and what they model:
--   Prelude.antt, Prelude/: tests, lists, texts, splitting, decimal numbers, results (shared helpers).
--   Models/Endpoint.antt: the identifiers of crates/openlink-models/src/acars.rs, station.rs, network.rs.
--   Models/Attribute.antt, FlightLevel.antt, Argument.antt, Definition.antt, Uplink.antt, Downlink.antt,
--     Registry.antt, Message.antt, View.antt: crates/openlink-models/src/cpdlc.rs, from the response
--     attributes to the messages, the registry row by row, and envelope.rs.
--   Models/Builder.antt, Builder/: crates/openlink-models/src/message_builder.rs; a builder that panics is
--     none, and the time of day and a fresh identifier are arguments.
--   Models/Payload.antt: the texts of messages, SerializedMessagePayload of cpdlc.rs.
--   Models/Precedence.antt, Dialogue.antt, Consistency.antt: theorems on these.
--   Server/Session.antt: CPDLCSession and CPDLCConnection of crates/openlink-server/src/acars.rs; a
--     method on &mut self is a function to the new session and the result. Session/ has the theorems.
--   Server/Kv.antt: the JetStream bucket as an interface, with its documented behaviour as laws.
--   Server/Handler.antt: CPDLCServer's handlers; a handler takes the bucket's state and returns the one
--     that it leaves, also where it fails. Handler/ has the theorems.
--   Server/Handler/Contract.antt: what the handlers promise, as a machine on a map from addresses to
--     sessions, with neither revisions nor failures. Contract/ compares the handlers with it.
--   Server/Termination.antt: list_sessions_for_callsign and terminate_sessions_for_station of acars.rs.
--   Server/Registry.antt: crates/openlink-server/src/station_registry.rs over two buckets. Registry/ and
--     Termination/ have the theorems. The time is an argument; one sweep reads one time.
--   Server/Routing.antt: the ACARS branch of OpenLinkServer::run of crates/openlink-server/src/server.rs,
--     as a function to the new sessions and what is forwarded and broadcast, and the addressees of a
--     session update. A failure to send is logged by the code and changes nothing. Routing/ has the
--     theorems.
--   Server/Presence.antt, Presence/Loop.antt: the rest of server.rs: session updates, snapshots, stations
--     that come and go, the sweep, and the loop over events. The client that sends is a parameter. The
--     sweep and the stations of one broadcast are taken in the order of a list.
--   Sdk/Subjects.antt, Runtime.antt, Sequence.antt: crates/openlink-sdk/src/subjects.rs,
--     cpdlc_runtime.rs and the MIN sequences of client.rs, with their theorems.
--   Sdk/Client.antt: the helpers of client.rs that build messages. Client/ has the theorems on what the
--     server, and a client that receives them, make of them.
--   Hoppie/Packet.antt, Hoppie/Tracker.antt: the packet format of crates/openlink-hoppie/src/
--     hoppie_client.rs and the SessionTracker of session.rs. Tracker/ has the theorems.
--   Hoppie/Translator.antt: translator.rs, between packets and messages. Translator/ has the theorems.
--   Hoppie/Poll.antt: the response to a poll, of hoppie_client.rs.
--   Hoppie/Bridge.antt, Bridge/Loop.antt: bridge.rs, with the two networks as a parameter whose sends may
--     fail. The other files of Bridge/ have the theorems.
--   Auth.antt: crates/openlink-auth: the exchange of a login or of the server secret for a signed token,
--     with the identity provider, the encoding and the key pair as parameters.
--   Gui.antt, Gui/: crates/openlink-gui/src/components/atc_view.rs, the controller's view: Received.antt and
--     Intents.antt what it reads off a message, Dialogues.antt and Pending.antt the queue of pending
--     dialogues, Command.antt and Command/Labels.antt the composer of commands. The files below these have
--     the theorems. The clock is an argument, and the queue is sorted from the dialogues in the order in
--     which they were met, where the code takes them from a hash map without order.
--   Gui/Dcdu.antt: the display of crates/openlink-gui/src/components/a320_view.rs; a word is cut on fuel,
--     its length. Dcdu/ has the theorem on its size.
--   Gui/Aircraft.antt: what that view and dcdu_view.rs beside it read off messages and input fields.
--   Cli.antt, Cli/: the arguments that crates/openlink-cli/src/main.rs reads.
--   Examples/: a bucket in memory, concrete inputs and the theorems applied to them.
--
-- Conventions and bounds: a Rust String is the list of its bytes; to_uppercase and trim are modelled on
-- ASCII, which is what callsigns, identifiers and message texts of the protocol are. u8 and u16 values
-- are natural numbers; where an operation depends on the width it is written out. Times are numbers.
-- Loops over collections are recursions on lists; to_string runs on fuel n + 1, which is enough because
-- a division by ten at least lowers a number that is not 0. The loop over the blocks of a poll response
-- runs on fuel, the length of the text, of which every round takes at least a byte. Log calls are left
-- out.
--
-- Not modelled: the broker and serde_json (parameters with laws), HTTP calls, logging, start-up code,
-- the rest of the GUI (the other views, rendering, signals, its connection) and of the command line, the
-- load generator, the OIDC stub, the TypeScript clients.
pub mod Prelude
pub mod Models
pub mod Server
pub mod Sdk
pub mod Auth
pub mod Hoppie
pub mod Gui
pub mod Cli
pub mod Examples
