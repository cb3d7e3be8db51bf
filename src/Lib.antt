-- ===== src/Lib.antt =====
-- Verification of the go-ddd template: a modular Go service with a customer and an order context, an
-- event bus (in process or Kafka), a transactional outbox with a relay, a read model, and the command
-- that applies migrations.
--
-- How a request runs: a gRPC handler calls a command handler, which checks its values with the domain,
-- runs a unit of work over a repository, and hands the aggregate's events to the dispatcher. The
-- dispatcher maps them to integration events and appends these to the outbox. The relay forwards the
-- outbox to the bus. The bus calls the read model and the other contexts. The order context asks the
-- customer server, in the same process, whether a customer exists.
--
-- Files and the code that they model:
--   Shared, Shared/Uuid           internal/shared/domain (AggregateRoot, errors, the domain events of
--                                 every context) and internal/shared/infrastructure/id (New)
--   Customer/Email, Aggregate     internal/customer/domain: CustomerID, Email, Status, Customer,
--                                 ToSnapshot and FromSnapshot
--   Customer/Repository           internal/customer/infrastructure/persistence/memory and postgres, and
--                                 domain/services/email_uniqueness.go
--   Customer/Messaging            internal/customer/infrastructure/messaging
--   Customer/Commands             internal/customer/application/commands, and the wiring in memory of
--                                 internal/customer/module.go
--   Customer/ReadModel            internal/customer/infrastructure/projections and application/queries
--   Customer/Server               internal/customer/interfaces/grpc/server.go
--   EventBus                      internal/eventbus (Event, Chain, Recover, Logging) and eventbus/local
--   Outbox, Outbox/Relay          internal/eventbus/outbox: MemoryStore, Publisher, Relay
--   Kafka, Kafka/Wire, Consumer   internal/eventbus/kafka: retry.go, bus.go, wire.go, consumer.go
--   Kafka/Running                 internal/eventbus/kafka/bus.go: Publish, Run and Close
--   Http                          internal/platform/httpx/middleware.go, and
--                                 internal/shared/infrastructure/logging
--   Grpc/Interceptors             internal/platform/grpcx/interceptors.go
--   Agentctl                      cmd/agentctl/main.go: consume and the flags
--   Agentctl/Publish              cmd/agentctl/main.go: publish
--   Agentctl/Tap                  cmd/agentctl/tap.go: mark and events
--   Order                         internal/order
--   Contexts                      internal/notification, internal/identity, internal/payment
--   Transaction                   internal/shared/infrastructure/transaction (SQL; Noop is in
--                                 Customer/Commands)
--   Pagination, Grpc              pkg/pagination, and internal/platform/grpcx/gateway.go with mapError
--   Config                        internal/platform/config
--   Migrate                       cmd/migrate: loadMigrations, pendingUp, pendingDown, applyOne
--   Migrate/Command               cmd/migrate: main, run and printPlan
--   Bootstrap                     internal/bootstrap/modules.go (registerSubscriptions), DrainOutbox of
--                                 application.go, and the steps of a process in memory
--   Bootstrap/Build               Build and Close (application.go), newBus (messaging.go), newPersistence
--                                 (database.go), internal/platform/database (Open)
--   Bootstrap/Processes           RunBackground, the Run of the servers in internal/platform/httpx and
--                                 grpcx, and run of cmd/api and cmd/worker
--   Bootstrap/Routes              registerOps and registerDocs (application.go)
--   Prelude                       the shared names, Go's int, texts, maps, results and stores
--   Tests                         the theorems at concrete inputs
-- A child module of a component holds its proofs and is named for what they prove.
--
-- How the code is written down. A Go method is a function of the same name in this spelling; a method
-- that changes its receiver returns the new one; a method that may fail returns a Result, and one that
-- acts on a store and may fail is an Exec, which gives the store back beside the error. A panic is a
-- value: none, or the outcome `panics`. A mutex makes each method one critical section, so a method is
-- one step; the steps of two requests are interleaved where that matters (Customer/Commands/Race).
-- A string is the list of its bytes, and len counts them. An int is the ℤ of Prelude/Int and wraps
-- round where the code adds one or doubles. A time is the number of nanoseconds since the zero time, in
-- UTC, and the clock stands still within one call of the outbox. A Go map is an association list with
-- one entry for each key; where the order of a map shows, the rows are given in any order.
-- A JSON payload is the list of members that json.Unmarshal finds, each key once, or malformed; texts
-- are taken to be valid UTF-8. Log records are left out, save those of the servers' middleware. What a
-- handler does to an http.ResponseWriter is the list of its calls, which net/http then performs; a write
-- succeeds whole.
--
-- Parameters, for what is not code of the repository or is a table of the standard library: the case
-- tables of package unicode (CaseTables, with IsLawful: lower case is stable and makes no white space
-- at the ends), the layout of times (Layout, with IsFaithful: a printed time is read back), the random
-- ids and the clock (sequences), the answers of the database to begin, commit and rollback, with a
-- commit whose answer is lost (Answers, Commit), what a column of type TIMESTAMPTZ keeps of a time,
-- time.ParseDuration, the files and their JSON (Files), the Kafka broker (Broker), the writer of
-- kafka-go (Writer), the chain of grpc (IsChain), and for agentctl the clock, ids, files and JSON
-- (Machine), what a reader fetches (Fetch), and what the cluster answers to mark and events (Cluster);
-- for migrate those of its database (Database); for the processes the answers of the database and of
-- the generated code (Answers), JSON and the embedded documents (Documents), and http.ServeMux
-- (IsMux). The ORDER BY of the read model in Postgres compares ids by their bytes, as the collation C
-- does. A transaction that is rolled back keeps nothing, whatever the rollback answers.
--
-- Fuel: a decimal print takes twenty rounds, enough for 64 bits (atoi-itoa in Prelude/Text/Decimal).
-- Everything else is structural: the relay over its signals, the loops over their lists.
--
-- Not modelled: the generated code under api and the mocks, the listeners of the HTTP and gRPC servers
-- and the logger, which are calls of libraries, signals and goroutines (the order in which loops end and
-- messages come is an argument), the options that kafka.New hands to kafka-go and Build to the gateway,
-- package flag, and what agentctl prints around the values of a line.
pub mod Prelude
pub mod Shared
pub mod Http
pub mod EventBus
pub mod Outbox
pub mod Customer
pub mod Pagination
pub mod Kafka
pub mod Grpc
pub mod Order
pub mod Config
pub mod Migrate
pub mod Agentctl
pub mod Contexts
pub mod Bootstrap
pub mod Transaction
pub mod Tests
