-- ===== src/Lib.antt =====
-- BangmodMonitor: agents on hosts and probes on the network report to an API server, which stores
-- the reports itself or hands them to a broker for the consumer; an alerter reads what is stored
-- and keeps incidents; a dashboard and Stripe use the API server.
--
-- The parts, and where they are modelled:
-- * Agent (agent/). Agent.Metrics is the collection, collector/system.go, and Agent.Convert its
--   gRPC message, toProto of main.go. Agent.Wal is wal/wal.go over the bytes of its file, with the
--   lines and the limit of bufio.Scanner in Agent.Wal.Lines. Agent.Sender says when a send of
--   sender/http.go and sender/grpc.go returns nil. Agent.Cycle is `collect` of main.go, which replays
--   the log and sends, and the ticker's loop; Agent.Process has the start of the agent, and its loop
--   with a log and without.
-- * Alerter (alerter/). Alerter.Store is storage/mariadb.go, Alerter.Metrics is
--   storage/clickhouse.go, Alerter.Notifier is notifier/ with the messages' texts in
--   Alerter.Notifier.Texts and the reading of a mail in Alerter.Notifier.Mail, and Alerter.Evaluator
--   is evaluator/evaluator.go with the loop of main.go, which Alerter.Process starts.
-- * Api (api/). Api.Cache is cache/redis.go. Api.Store and its children are the tables of
--   storage/mariadb.go and storage/billing.go, Api.Store.Migration is Migrate of the
--   former. Api.Agents is middleware/auth.go with handler/host.go; Api.Agents.Directory is the specification that its handlers implement.
--   Api.Ingest is handler/ingest.go with IngestMetrics of grpcserver/server.go, Api.Probes is
--   handler/probe.go with IngestProbe, Api.Accounts is handler/auth.go, with the sessions of
--   middleware/jwt.go in Api.Accounts.Sessions, Api.Billing is handler/billing.go, Api.Stripe is the
--   calls of billing/stripe.go, Api.Reads has the handlers that only read, of handler/host.go,
--   metrics.go, probe.go, billing.go and admin.go, and Api.Server is main.go: the routes and the
--   whole server as one step; below it Events has the events of Stripe next to the organisations
--   that they do not name, and Arrival the posts of an agent.
-- * Between them: Mq is api/mq/, Clickhouse is the rows and the inserts of
--   api/storage/clickhouse.go, Clickhouse.Queries its recent queries, Clickhouse.Rollups
--   its materialised views with QueryRollupMetrics, Proto is the messages of
--   gen/bangmod/v1/metrics.pb.go. Api.Ingest.Arrival follows a collection from the agent's log to
--   the tables, Api.Ingest.Pipeline by way of the broker and the worker of the consumer.
-- * Consumer (consumer/). Consumer is worker/agent.go and worker/probe.go. Consumer.Process is
--   main.go: its start, the two workers side by side, in any order of their steps, and the signal.
-- * Probe (probe/). Probe is main.go, checker/ and config/ of the probe node.
-- * Loadtest (loadtest/) is main.go: the settings, the agents, their counters and the results.
-- * The config.go of the other programs are Agent.Config, Alerter.Config, Api.Config and
--   Consumer.Config, over Prelude.Environ; Settings has what they share.
--
-- How state is modelled. A table of a database is the list of its rows; a statement is a function
-- on it, and which statements report an error is an argument (`db_fails`, `Flush`, `Disk`). A handler
-- takes the state and gives its reply with the new state, all its early returns included; a panic
-- is a reply or a status of its own. The agent's and the workers' loops are runs over the list of
-- what each round meets, so no fuel is needed. Strings are compared exactly; the collations of
-- MariaDB ignore case, which makes a difference only for identifiers that differ in nothing else.
-- ClickHouse removes expired rows in a step of their own, and a theorem that needs the rows leaves
-- that step out; the expiry of a cache entry has the effect of a delete, and a theorem that needs an
-- entry has it as a hypothesis.
--
-- Code of others is an argument with what the program relies on: JSON as a `Codec` (a text without
-- control characters that decodes to the value), SHA-256, bcrypt, the signature of a JWT, random
-- bytes and UUIDs, the averages of ClickHouse, the narrowing of floats, the network, Stripe. A float
-- is its bit pattern; a signed integer of Go is an ℤ, cut to its width where the code converts it
-- (uint8, uint16, uint32, int32), and an unsigned one is a natural number.
--
-- Not modelled: the end of the programs but for the consumer's and the load test's, the table
-- probe_targets, which nothing reads, the two statements of Migrate of alerter/storage/mariadb.go,
-- which create its tables if they are missing, the generated code of the messages, the progress
-- lines of the load test, the dashboard and the deployment.
pub mod Agent
pub mod Alerter
pub mod Api
pub mod Clickhouse
pub mod Consumer
pub mod Loadtest
pub mod Mq
pub mod Prelude
pub mod Probe
pub mod Proto
pub mod Settings
