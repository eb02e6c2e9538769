-- ===== src/Lib.antt =====
-- The Modbus gateway of the repository, modbus-api-middleware, and a part of the platform that it
-- sends to. The gateway is a program that runs at a solar plant, reads registers from devices over
-- Modbus TCP, keeps the readings in an outbox, and sends them to the platform, from which it also
-- receives its configuration.
--
-- Parts, and how they interact (paths below modbus-api-middleware/internal):
-- - domain: the records that all packages share. Middleware/Domain.antt.
-- - profile/address.go, profile/blocks.go: a configured register address becomes a request on the wire,
--   and the registers of a profile are grouped into block reads. Middleware/Profile.antt and below:
--   `CanonicalAddressMode`, `ResolveModbusAddress` and `BuildBlocks` are `canonical_address_mode`,
--   `resolve_modbus_address` and `build_blocks`.
-- - decoder/decoder.go: words become values. Middleware/Decoder.antt and below: `normalize_data_type`,
--   `register_count`, `decode`, `bytes_to_registers`.
-- - modbus/client.go: one request over one connection, and the probe. Middleware/Modbus.antt and below:
--   `read` is `Client.Read`, `probe_details` is `Client.ProbeDetails`; Frames has a device to read from.
-- - store/normalize.go: the rules on configurations that both builds of the store share.
--   Middleware/Store/Normalize.antt and below.
-- - store/file_arch.go: the file store of the mips build, with its configuration, outbox, logs and
--   pushed snapshots. Middleware/Store/File.antt and below: each method is a function from the store to
--   its result and the store. Config and Sets have the configuration, Outbox the deliveries and logs,
--   Snapshots the pushed configurations; Queue, Ids, Fits, Taken, Runs, Delivery and Pushed have the theorems.
-- - app/service.go, app/poller.go: a connection is polled through profile, modbus and decoder, the
--   reading is dropped if it repeats the last one, else enqueued, and a sweep does so for every enabled
--   connection. Middleware/Service.antt and below: Poll is `PollConnection`, Idle is `Enqueue` and
--   `skipUnchanged`, Sweep is `PollEnabledConnections`; Heartbeat, Device, Pollable and SwappedWords
--   have theorems.
-- - license/license.go: the gateway's licence, a signed token. Middleware/License.antt has the package;
--   License/Verified has the theorems.
-- - Base.antt and below hold lists, integers, texts, results and Boolean tests; Middleware/Tests.antt,
--   Platform/Tests.antt and Auth/Tests.antt and what is below them hold inputs on which the theorems are tried.
--
-- And the platform's service, services/platform-api, to which the gateways connect: it stores what they
-- send, raises alarms on it, and sends them commands (paths below services/platform-api/internal):
-- - core/alarms.go, ingestion/alarms.go: rules on the points of a device. Platform/Alarms.antt has
--   `validateAlarmRule`, `AlarmSuppressed` and `EvaluateConditions`, Platform/Alarms/Events.antt has
--   `evaluateAlarms` over the table of alarm events; Terms, Rules, Events/Rows and Events/Spaced have
--   the theorems.
-- - ingestion/register_alarms.go: alarms of decoded register values, in the same table.
--   Platform/RegisterAlarms.antt and RegisterAlarms/Transitions.antt.
-- - ingestion/raw_service.go, ingestion/service.go, database/dbgen: a batch of readings.
--   Platform/Ingestion.antt has the rules on one reading, Ingestion/Tables.antt the tables and the
--   statements, and Ingestion/Batches.antt `IngestRaw`, which calls both kinds of alarms for each reading
--   that it stores; Ingestion/Counted and Ingestion/Idempotent have theorems.
-- - gatewayhub/hub.go: the connected gateways and the commands that wait for results.
--   Platform/GatewayHub.antt has the methods, and GatewayHub/Steps.antt the hub with its callers as a
--   relation of steps; Slots, Steps/Waiting and Steps/Rooms have the theorems.
-- - core/middleware_update_jobs.go: batches of updates of gateways. Platform/UpdateJobs.antt has the job
--   store, and UpdateJobs/Batch.antt the goroutines of a batch as a relation of steps.
-- - telemetrypull/puller.go: the platform drains a gateway's outbox, ingests the readings and acknowledges
--   the rows. Platform/Pull.antt has `pullOnce` over the file store of the gateway and the tables of the
--   platform, with the gateway's commands telemetry.drain and telemetry.ack
--   (modbus-api-middleware/internal/realtimeclient/client.go); Pull/Rows and Pull/Schedule have theorems.
-- - core/dashboard_layout.go: a user's dashboard. Platform/Dashboard.antt has `ValidateDashboardLayouts`,
--   with sums that wrap around; Dashboard/Configs.antt `ValidateDashboardWidgetConfigs`;
--   Dashboard/Saves.antt the row of the table, with `SaveDashboardLayout`, `PublishDashboardLayout` and
--   the two that read it. Dashboard/Grid and Saves/History have the theorems.
--
-- And the service that signs users in, services/auth-service, whose sessions the other services accept
-- (paths below services/auth-service/internal):
-- - database/dbgen/auth.sql.go: the tables and the statements. Auth/Tables.antt; Rows has lemmas.
-- - auth/security.go: Auth/Security.antt.
-- - auth/service.go, auth/sessions.go: Auth/Login.antt has `Login`, `Authenticate`, `Logout`, `LogoutAll`,
--   `ChangePassword`, `RevokeOwnSession` and `ClearOwnSessions`.
-- - auth/recovery.go, auth/registration.go: Auth/Recovery.antt and Auth/Registration.antt.
-- - Auth/Calls.antt has sequences of calls, and Calls/Kept.antt the rule for what all of them keep;
--   Lifetime, Lifetime/Logout, Granted, Granted/Accepted, Resets, Resets/Done and Resets/Once have the
--   theorems. There a call is one step. Limits.antt has logins that overlap as a relation of steps, since
--   `Login` counts the failures, loads the user and records the attempt in separate statements;
--   Limits/Failures has the lemmas.
--
-- Conventions. Go's int and int64 are integers without bound: they hold ids, addresses and times,
-- and the code tests their range where it matters. The counter of ids of the file store and the sums
-- of a dashboard's cells, which it does not test, wrap around as in Go. Conversions to 8, 16, 32 and
-- 64 bits are written out with `% 2 ^ w`. A string is its list of bytes. An error is a value without
-- the texts that its message would print. A Go map is a list of pairs, and a slice that is changed
-- in place is the new list. The methods of the store run under a mutex, so each call is one step;
-- the clock is an argument. Every loop goes over a list, so there is no fuel. A table of the
-- database is a list of its rows, an SQL statement is a function of the table, a UUID is a number,
-- and a statement that fails, which rolls its transaction back, is not modelled. Where goroutines
-- share state, each of their steps under a lock is one step.
--
-- Parameters: float64 (Middleware/Float64.antt, Platform/Floats.antt), the network, whether the
-- store's file can be written, JSON, SHA-256, base64, Ed25519, bcrypt, the parser of email
-- addresses, the parser of integers, the URL test of the gateway's settings, the form of a time
-- and of a UUID, the SQL function that maps registers to points, and the mappings of a device
-- model.
--
-- Not modelled: the SQLite store, whose behaviour is that of SQL statements; the gateway's web
-- interface, updater and realtime channel, but for the two commands; the administration of users,
-- roles and keys; and the platform's other services, which are HTTP handlers over a database.
pub mod Base
pub mod Auth
pub mod Middleware
pub mod Platform
