-- ===== src/Lib.antt =====
-- Vasuli: the recovery orchestrator (recovery-orchestrator/), the service that decides which
-- customer with an overdue payment is called, records how each call ended, asks the payment provider
-- for links and settles sessions when payments arrive; and the voice gateway
-- (var-thon/services/orchestrator-go/), which runs one call between a caller and the inference engine.
--
-- The parts and their files:
--
--   Prelude, Exec          shared names, tests, lists, signed numbers; methods that change a state and
--                          return a value or an error, and lemmas on runs of them.
--   World, Platform        what the methods read and change (database, clock, random reads, failures
--                          of the driver, requests that reached the provider); package time.
--   Store                  recovery-orchestrator/internal/store/db.go and schema.sql: Tables (the
--                          rows), Rows (access by key, ORDER BY), Schedule (stillContactable,
--                          eligibleNow), Statements, Assign (AssignNextPending), Outcome
--                          (RecordOutcome, SetNextEligibleAt, MarkRecovered), Reports (CampaignQueue,
--                          CampaignMetrics, AuditEventsForSession), Opening (Open, migrate,
--                          applyUniqueIndexes) with Shared (the values of a column that rows share).
--   Campaign               recovery-orchestrator/internal/campaign/manager.go: Rupees, Amounts,
--                          Template, Prompt, Outcome (buildOutcomeWrite, promisedFollowUp),
--                          EndSession, Sessions (CreateCampaign, AssignSession), Payments (the three
--                          payment events).
--   Razorpay               recovery-orchestrator/internal/razorpay (client.go, live.go, webhook.go) and
--                          buildRazorpayClient of recovery-orchestrator/cmd/main.go.
--   Api                    recovery-orchestrator/internal/api: Webhook (webhook.go), Calls and Views
--                          (handlers.go), Router (router.go), the answers to the provider (Deliveries),
--                          the lists of the queue view (QueueView) and rupees (Amounts).
--   Startup                recovery-orchestrator/cmd: DotEnv (loadDotEnv of env.go) with Precedence, Main
--                          (main of main.go) with Settings.
--   Lifecycle, History     how one request may move a row, and any sequence of requests, from a table or
--                          from a file that is opened first.
--   Scheduling             whom an assignment picks, what the queue view and the metrics show.
--   CallEnd                RecordOutcome and EndSession, and when a customer may be called again.
--   Lookup, Payments       lookups by a column, and the payment events.
--   Concurrency            EndSession of manager.go one call of the store or of the provider at a time,
--                          with other requests between the calls: Alone (a request that nothing comes
--                          between), Moves, ClosedCalls and Decisions (any interleaving).
--   Voice                  var-thon/services/orchestrator-go/internal: Session (session.go), Call and
--                          Steps (the goroutines of StreamAudio in server.go with readPump of
--                          session.go), Recovery (recovery/client.go), Gateway (resolveProfile and the
--                          beginning of StreamAudio); proofs on one call in Control, Outcome, InOrder, Audio,
--                          Teardown and Ending, and on the gateway with the orchestrator in Bridge,
--                          Reports and Stranded. Streaming (StreamAudio, StreamUtterance and
--                          StreamSilence of session.go, runTestSequence of cmd/main.go) with
--                          Causes, Delivery and Silence, and Program (LoadProfile of config/config.go and main of
--                          cmd/main.go) with Conversation: what is sent to the engine.
--                          Serving (NewServer and cmd/gateway-server/main.go),
--                          TestClient (cmd/gateway-test-client/main.go) with Call.
--                          RequestPath (the paths of recovery/client.go) with Routing: which handler
--                          they reach.
--   Examples               runs at small concrete worlds.
--
-- The parts interact as in the code: a handler calls the manager, the manager the store and the
-- provider's client, and every method threads one World. A method's result is a value or an error,
-- beside the state that was reached, because what a failing method wrote before it failed stays
-- written, except inside a transaction, whose error restores the tables of its beginning.
--
-- How the world is modelled: every call of the database driver is one entry of the list of failures
-- to come, and either fails with a message or runs. A call that is refused by a constraint fails.
-- One request reads one clock. Instants are nanoseconds since the zero of package time,
-- CURRENT_TIMESTAMP is the clock cut to seconds. The text of a next_eligible_at that Go wrote has a
-- zone and sorts after the text of CURRENT_TIMESTAMP of the same second, which the flag `zoned` of a
-- row keeps; the other timestamps compare as numbers. Rows that tie in the ORDER BY of the assignment
-- or of the queue come in an order of SQLite's own (row_rank), one for each query and each state of
-- the table, about which nothing is taken.
-- Of SQLite it is taken that CREATE TABLE IF NOT EXISTS leaves a table that exists as it is, that an
-- index on a column fails without the column, and that a unique index fails on rows that share a
-- value.
-- The data of an audit row is the map that is given to json.Marshal. Identifiers inside the text of
-- an error are left out. The connection pool has one connection, so requests do not interleave inside
-- a transaction. The model runs each method as one step; Concurrency takes EndSession apart, whose
-- lookup, call of the provider and transaction other requests can come between.
--
-- How a call is modelled: the state Call says where each goroutine stands (the read loop, the relay of
-- the caller's audio, the loop that plays the agent's audio, StreamAudio with collectOutcome, the
-- callbacks of the idle timer) and what they share; an Action is the next thing that one of them does,
-- with what a stream or a timer gives it, and Reach is the closure over any order of actions. A
-- channel is a list with its capacity, or a flag for one that is only closed. A look at a field and
-- the statement after it are separate actions where another goroutine can come between them, except
-- that Stop and signalDone at the end of the read loop are one. The wait of collectOutcome may time
-- out at any moment. Between the two services stands HTTP: a request is lost, its answer is lost or
-- does not decode, or all arrives (Delivery). The handler gets the identifier that the client put into
-- the path: Voice.RequestPath and Api.Router model the path as bytes, which the rest of the model
-- leaves out.
--
-- Parameters: package time's parsing and printing (Platform), the provider's client (Client, of which
-- it is assumed that it has no access to the database), the MAC of crypto/hmac, the decoder of
-- encoding/json, and the provider's replies. They are code outside the repository.
--
-- Loops are recursions over lists. Two run on fuel: in Campaign.Rupees the digits of a number n take
-- at most n + 1 rounds, and in Voice.Streaming the silence is sent with one round more than it has
-- bytes, while each round but the last sends at least one of them.
--
-- Not modelled: flag parsing and the servers of HTTP and gRPC, logging, the goroutine of cmd/main.go
-- that writes the agent's audio to a file, and the inference engine itself.
pub mod Prelude
pub mod Exec
pub mod World
pub mod Store
pub mod Platform
pub mod Razorpay
pub mod Campaign
pub mod History
pub mod Lifecycle
mod Examples
pub mod Scheduling
pub mod CallEnd
pub mod Lookup
pub mod Payments
pub mod Api
pub mod Concurrency
pub mod Voice
pub mod Startup
