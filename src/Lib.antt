-- ===== src/Lib.antt =====
-- A verification library for go-smsc-simulator: an SMPP 3.4 server that simulates carriers.
--
-- A virtual SMSC reads frames from each bind's connection, decodes them, asks the scenario engine
-- what to answer to a submit_sm, records it in a journal and schedules delivery receipts and other
-- events on the bind's own clock, which counts its submits.
--
-- Common      numbers, lists, results and octet strings that the other modules share
-- Smpp        internal/smpp: Commands is commands.go, Pdu is pdu.go, Writer and Encode are the
--             writer, Encode (codec.go) and EncodeEdgeCase (codec_edge.go), Reader and Decode are
--             the reader, Decode and ReadPDU (codec.go); WellFormed says which PDUs the wire can
--             carry
-- Schedule    internal/schedule/schedule.go: Schedule, DrainDue, DrainAll; History is the whole
--             life of a runner
-- Recorder    internal/recorder/recorder.go: the ring of received PDUs
-- Config      internal/config: Enums is enums.go, Schema is schema.go and the types of config.go,
--             Profiles is profiles.go; Faults, Validate and Topology are validate.go, and Accepted
--             is what a topology that passes it guarantees to the engine and the sessions
-- Rng         internal/rng/rng.go: seed derivation; its record Rand is Go's math/rand and float64
-- Fault       internal/fault: the latency distributions and the throughput window
-- Scenario    internal/scenario: Mix is the weighted mixes, Engine is New and the bind's state,
--             Evaluate is the decision for one submit_sm
-- Smsc        internal/smsc: Session is the state of a session (session.go) and of its virtual
--             SMSC (virtualsmsc.go), Events is dlr.go and schedule_events.go, Submit, Handle and
--             ReadLoop are the handlers and the read loop of session.go, Binds and CloseReason are
--             the files of those names, Create is newVirtualSMSC and newSession; Writer is the
--             outbound channel with the goroutines around it, the close and its reason (run,
--             writeLoop, sendBytes, sendWhen, recordClose), where an interleaving is a list of
--             events; Registry is several sessions beside each other on one virtual SMSC; Engine
--             is Serve, the accept loops and calls of Shutdown (engine.go) as events in any order,
--             and Views what the inspector reads (engine.go, binds.go, virtualsmsc.go); Boot is
--             New (engine.go), LoadOrGenerate (internal/tlscert) and the start of run
--             (cmd/smsc-simulator/main.go); Replay is one session at other times, Answers
--             is the form of the answers to a request, Transitions is the scheduled transitions, and
--             Quiet, Steady, Corpus and Lifecycle are what the operations keep
-- Observability
--             internal/observability: the routes, the handlers and their parameters (server.go,
--             inspect_handlers.go); Paging and Own are what a client reads
-- Client      internal/smpptest/client.go: the client that drives the server in tests; Talk is a
--             client beside a session, Collect is the loops that read deliver_sm
-- Runs        tests and the theorems at concrete inputs
--
-- Octets and strings are lists of numbers. A fixed-width integer is a natural number with its
-- wrap-around written out where the code computes with it. A pointer that may be nil is an Option,
-- an error return is a Result. A method on a mutable object takes the object and returns it changed.
--
-- Loops are structural, or run on fuel: sort.Search on the length of its interval, which each
-- round shortens; the TLV loop on the number of octets that remain, of which each TLV takes four at least;
-- the client's collecting loops on the number of octets that arrive and one, since each round takes
-- a frame; the snapshot on the number of records from its start on; the digits of a uint64 on 20.
--
-- Go's math/rand and floating point are the parameter Rand, of which only the range of Uint64N is
-- assumed; regexp.Compile and os.Stat are the parameter Host of validation, net.Listen and
-- the making of a certificate the parameter Platform of the boot. Sockets are the octets
-- that arrive and the way they end. What a session's read goroutine sees of the clock, of shutdown
-- and of the goroutines that hold responses back is the record Env of each round; Go's calendar is
-- its field format_minutes. The writer's outcomes are events of the link, which runs without fuel
-- over a list of them. Not modelled: reading the configuration's file, logging, metrics, the JSON
-- encoder, the stop of the process, the flags of the command line, and the test client's dialling and
-- SubmitRaw, which do input and output only.
pub mod Common
pub mod Smpp
pub mod Schedule
pub mod Recorder
pub mod Config
pub mod Rng
pub mod Fault
pub mod Scenario
pub mod Smsc
pub mod Observability
pub mod Client
pub mod Runs
