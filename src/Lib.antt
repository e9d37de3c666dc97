-- ===== src/Lib.antt =====
-- Verification library of nestjs-stay-api, a NestJS backend for bookings of stays (src/).
--
-- The program and its models. The backend has a presence channel over websockets, a logging service
-- over MongoDB, the error path of its HTTP layer, wrappers of queues, mail, MongoDB, PostgreSQL and
-- Redis, and the migrations of its database.
--
-- * Presence. A socket's data reach `StayWebSocketGateway.handleMessage`
--   (src/utils/websocket/websocket.gateway.ts, Gateway.antt), which parses them and hands them to the
--   channel that they name. The one channel is `UserStatusMessage`
--   (src/modules/user-status/user-status.message.ts, UserStatus.antt, with its state in
--   UserStatus/State.antt), which keeps the table of tracked clients of `WebsocketChannel`
--   (src/utils/websocket/websocket.channel.ts, Websocket.antt), and by
--   `UserStatusService` and `UserStatusRepository` a hash of online users and a key with a time to live
--   for each of them in Redis (Redis.antt, an interface with its documented laws; Redis/Memory.antt
--   shows that they can hold), and asks the users table. `subscribe_message`, `unsubscribe_message`,
--   `handle_message`, `ping_all`, `pong`, `handle_redis_expiration` and `set_status` are the methods
--   of those names.
--   The handlers are asynchronous. Each runs to its next `await` in one piece and leaves a `Task`
--   there; `resume` runs a task on when its operation succeeds, `reject` when it fails. The
--   operation's effect on the server happens where the task goes on, so the orders of effects that
--   a single connection allows are among those of the model. UserStatus/Reach.antt has the steps of
--   the event loop: messages, rounds of pings, pongs, ends of connections, expirations, and the
--   completion or the failure of any pending task, in any order. A socket is a number; `send`, `ping`
--   and `close` are recorded as frames, and a call of them does not throw. A failing operation that no
--   handler awaits is an unhandled rejection, at the first of which Node ends the process: what the
--   steps do after one is no run of the program, and the runs of the program are among those of the
--   model.
--   Gateway/Runs.antt puts the gateway in front of these steps.
--   UserStatus/Returns.antt has the answers of clients that come late. UserStatus/Clock.antt adds time:
--   an interface `Clock` for what is left of a key's time to live and how it passes, and the runs of
--   one client that answers each round of pings, with anything that others do between
--   (UserStatus/Others.antt, UserStatus/Beats.antt with its child modules; times in milliseconds). The
--   interval of ten seconds and five seconds for the answer and its two writes are together the fifteen
--   seconds of the time to live. UserStatus/Instances.antt puts several instances of the program, each
--   with its own clients, on one Redis; UserStatus/Races.antt has two handlers that
--   interleave, and UserStatus/View.antt what a client that listens is shown (UserStatus/View/Calm.antt:
--   where handlers do not interleave).
--   UserStatus/Termination.antt has what pending operations may still cost, UserStatus/Liveness.antt
--   a quiet server and the end of a user's time to live, and UserStatus/Refinement.antt the set of
--   online users that a client of the hash sees, as an abstract machine.
-- * Logging (src/modules/logging/logging.service.ts, Logging.antt): the buffer of log entries and its
--   flushes. A batch that was handed to `insertMany` is in flight until the environment ends it; a
--   failing one may have written part of the batch, and one that does not fail leaves out the entries
--   that the schema of the collection refuses, as Mongoose does.
-- * Errors (src/error/types/error.ts and src/middleware/http-exception.filter.ts, Errors.antt) and
--   validation (src/middleware/validation.pipe.ts, Validation.antt): `ApiError`, its status, the
--   exception filter, and the flattening of the validator's tree into `details`.
-- * Queues. `SqsUtil` (src/utils/aws/sqs/sqs.util.ts, Sqs.antt) on the interface of the AWS client
--   (Aws.antt), and `BullMqUtil` (src/utils/queue/bullmq/bullmq.util.ts, Bull.antt) on the interface
--   `Queue` of the queue library, where removing a job also removes those below it in a flow; the
--   worker of the mail queue (src/workers/mail.worker.ts, Worker.antt, with the stubs of
--   src/workers/smtp.ts) takes its queue from the latter. A method gives its result, or the error that
--   it throws, with the next state.
-- * Mail (src/modules/message/mail/mail-provider/): the registry of gateways (Mail.antt) and the SMTP
--   client (Smtp.antt), whose answer depends on the environment variable DEVELOPMENT_MODE and on how
--   the delay of that mode ends.
-- * MongoDB (src/utils/db/types/mg.mongoose.ts, Mongo.antt): the connection and its models, on the
--   interface `Mongoose`.
-- * PostgreSQL (src/utils/db/types/pg.slonik.ts): the connection string, with `encodeURIComponent` and
--   the decimal text of a number written out (Postgres.antt), the pool (Postgres/Pool.antt), and the base
--   class of repositories (src/utils/db/db.repository.ts, Postgres/Repository.antt). The
--   migrations (database/psql/migrations/, with database/psql/schemas/, Migrations.antt) on the
--   interface `Server` of a database, with the names that an extension brings and the extensions that
--   require others: Migrations/Files.antt has what a file of tables makes, Migrations/Tables.antt what is
--   under a name, Migrations/Extensions.antt what making and dropping the two extensions does, and
--   Migrations/Rollback.antt both migrations taken and taken back.
-- * Factories (src/utils/db/db.modules.ts, src/utils/queue/queue.module.ts and
--   src/utils/aws/sqs/sqs.module.ts, Providers.antt): the shared objects made from the configuration,
--   with what opens and closes them afterwards.
-- * Configuration (src/config/configuration.ts, Configuration.antt): the arguments of the program and
--   the keys of its file. The client of Redis (src/utils/cache/, Cache.antt), the texts of Slack and of
--   the access log (Texts.antt), the addresses of files (src/utils/aws/s3/, S3.antt), and the options of
--   HTTP clients (src/utils/axios/, Axios.antt).
-- * Start. What `bootstrap` sets up (src/main.ts, Bootstrap.antt); what the modules of src/app.module.ts
--   import, provide, ask for and export (Wiring.antt), on the interface `Nest` of the injection
--   (Wiring/Presence.antt); the timer and the subscription of the presence channel, and its query of
--   the users table (UserStatus/Service.antt).
-- * Loggers (src/utils/log/log.modules.ts, LogUtil.antt): one logger for each option object, and the
--   calls of winston that its methods make.
-- * The queries of the user status service (src/modules/user-status/user-status.service.ts) are in
--   UserStatus/Queries.antt.
--
-- Common.antt has the shared tests, lemmas on lists and on splitting texts; Tests.antt the runs of
-- the definitions on concrete inputs and an instance of each theorem.
--
-- Bounds and fuel. Numbers are natural numbers: none of the modelled code subtracts or overflows; the
-- subtractions of UserStatus/Clock.antt are those of a time to live, which ends at 0.
-- `settle` (UserStatus/Flows.antt) takes fuel 4, since a handler has at most three operations to wait
-- for, and the theorems about it say that no task is left; UserStatus/Termination.antt bounds the fuel
-- by the cost of the tasks (`settle_enough`). `decimal` takes the number itself as fuel
-- (`decimal_enough`: more changes nothing). The loops are recursions on lists and trees.
--
-- Not modelled: Nest's injection, the clients of Redis, MongoDB, PostgreSQL and AWS, most texts written
-- to the console, `JSON.parse` (its outcome is an argument), message fields of a type other than the
-- declared one, the columns and indexes of the database, and the types of
-- src/modules/message/mail/mail-provider/mail-provider.type.ts that no code uses.
pub mod Common
pub mod Redis
pub mod Websocket
pub mod UserStatus
pub mod Gateway
pub mod Logging
pub mod Errors
pub mod Validation
pub mod Aws
pub mod Sqs
pub mod Bull
pub mod Mail
pub mod Smtp
pub mod LogUtil
pub mod Providers
pub mod Migrations
pub mod Configuration
pub mod Cache
pub mod Texts
pub mod S3
pub mod Worker
pub mod Wiring
pub mod Bootstrap
pub mod Axios
pub mod Mongo
pub mod Postgres
mod Tests
