-- ===== src/Lib.antt =====
-- Velvet Fabric: a model of the protocol core of velvetd and its properties.
--
-- A node speaks the Velvet Fabric Protocol (VFP) with its peers. Frames of TLVs are read and written
-- by internal/tlv and internal/vfp/message; one engine per TCP session (internal/vfp/engine) opens the
-- session, negotiates the prefixes of a Link and hands the result to the runtime, which takes the
-- addresses of its end from internal/link, binds UDP ports from one pool (internal/runtime/ports.go)
-- and keeps its failure episodes in a recovery state (internal/recovery). Samples of NAT mappings are
-- kept by internal/inference, which infers candidates for the endpoint of a peer and a plan of further
-- measurements; internal/linkdiscovery tries the candidates and executes the plan.
--
--   Base       numbers, tests, lists, results and byte strings that the other files share; a byte
--              string is a list of numbers, an error is one of a few classes
--   Net        what the program uses of net/netip: addresses are numbers with a family, zones are
--              not modelled, and a Prefix that is not valid is none_prefix
--   Tlv        internal/tlv/tlv.go: Cursor.Next is next, Append is append; each_in is the loop of the
--              decoders
--   Vfp        internal/vfp/message: Kinds is Type and usedBy; Values the parsers and writers of
--              single values; Message the Message struct and the selected TLVs; Durable is
--              durable.go; Decode and Encode are the two halves of message.go and Stream its Read; Control
--              is control.go
--   Engine     internal/vfp/engine/engine.go: State the configuration and both machines; Link is
--              staticLinkFSM; Session is sessionFSM; Run is the loop of Engine.Run; Exchange lets the
--              staticLinkFSM of two ends answer each other
--   Link       internal/link/derive.go: EndpointAddresses and MatchesOverrides; Link.Derive is what is
--              derived from the Fabric PSK
--   Dynamic    internal/runtime, the targets of dynamic Links: Targets and Binding are dynamic_policy.go
--              without flushPolicy, which is Sending; Dialing is dynamic_discovery.go; Attempts is what
--              attempts (dynamic_negotiation.go, dynamic_engine.go) and a restart do to the targets;
--              System puts the calls in any order, with the dials in progress
--   Health     internal/runtime/link_health.go: linkHealth
--   Recovery   internal/recovery/recovery.go: what each method of Tracker does to the stored state
--   Ports      internal/runtime/ports.go; Ports.Choice is internal/spec/ports.go
--   Inference  internal/inference: evidence and the store of samples; Inference.Infer and
--              Inference.Plan are Infer and surveyPlan
--   Discovery  internal/linkdiscovery: State, Select, Window and Search are Run of search.go and the
--              methods of its engine; Peer is RunPeer of peer.go
--
-- State is passed explicitly. The loop of Engine.Run is a function over the list of what its channels
-- deliver, in the order of delivery, so every interleaving of reads, timers and cancellation is one
-- such list; the callbacks and the writer are functions, and what they were given is recorded.
-- google/uuid is the record UuidLib, a parameter of the decoders; HMAC and HKDF are the record Crypto.
-- The derivation of proposals is a function of the engine's configuration. The network, the context and
-- the clock of a search are a record World of functions of the number of the call, those of a node's
-- search a record PeerNetwork of functions of the round, and the engine of a search keeps the
-- probes that it gives to Send, so that a theorem holds for all answers.
--
-- The loop over TLVs runs on fuel, the length of the body plus one, since each record takes at least
-- four octets. nextProposal runs on what is left of its 64 attempts, the searches on what is left of
-- MaxIterations and Repeats, and flushPolicy on its keys, as in the source. An exchange between two ends
-- has 130 deliveries: 64 proposals of each end, the acceptance and one more. All other loops are structural.
--
-- Not modelled: goroutines, sockets, deadlines, files and their locks, JSON text, netlink, WireGuard,
-- babeld, logging and the wording of errors; the attempts of dynamic Links and the durable Link
-- runtime, reconciliation and the rest of the NodeSpec.
pub mod Base
pub mod Net
pub mod Tlv
pub mod Vfp
pub mod Engine
pub mod Link
pub mod Inference
pub mod Discovery
pub mod Dynamic
pub mod Recovery
pub mod Ports
pub mod Health
