-- ===== src/Lib.antt =====
-- The notification service: it stores notifications for the users of a tenant, delivers them by
-- email and web push, and follows what becomes of the emails.
--
-- How the parts interact. A business event creates a row in the feed (notifications) and one row
-- per channel in the delivery queue (deliveries), for the channels that the recipient's
-- preferences allow. Two workers (workers) claim rows of the queue, send them, and record the
-- outcome in the row and, when it is final, in the audit trail (audit). The email provider
-- reports later events by webhook (emailevents), which move the delivery's provider status and
-- may alert the sender. Browsers register push endpoints (pushsubs). Requests of users pass the
-- middleware, and the handlers (controllers) call the stores and hand an entry to the audit
-- trail. A webhook is taken only with a valid signature (emailevents/svix.go). A received mail
-- that is addressed to the reply domain is fetched from the provider and forwarded to the
-- backend; its files wait in a queue of their own, from which a worker copies them (inbound,
-- workers/inbound_attachments.go).
--
-- Which file models which part:
--   Base            shared tests, lists, tables, integers, JSON and texts
--   Deliveries      deliveries/types.go, deliveries/store.go
--   EmailEvents     emailevents/status.go; EmailEvents/Store: emailevents/store.go
--   Notifications   notifications/types.go, notifications/store.go; Notifications/Attachments: the
--                   attachments of both files
--   Preferences     preferences/types.go, preferences/store.go
--   Pushsubs        pushsubs/store.go
--   Middleware      middleware/auth.go, middleware/permissions.go
--   Workers         workers/dispatch.go, workers/consumer.go, workers/retry.go; Workers/Response:
--                   the provider_response of a push delivery, in workers/dispatch.go
--   Audit           audit/types.go, audit/store.go; Audit/Recorder: audit/recorder.go
--   Inbound/Jobs    inbound/jobs.go
--   Inbound/Mail, Inbound/Failure, Inbound/Process
--                   inbound/inbound.go
--   Inbound/Http    inbound/resend.go; Inbound/Http/Backend: inbound/forward.go
--   Inbound/Worker  workers/inbound_attachments.go
--   EmailEvents/Svix
--                   emailevents/svix.go
--   Config          config/config.go
--   Controllers     controllers/audit.go, controllers/notifications.go: what the handlers share;
--                   Page: page numbers, Feed: the bell's routes, Logs: the delivery log and the
--                   audit trail, Create: POST /api/notifications/internal
--                   Settings: controllers/preferences.go, controllers/push.go
--                   Webhook: controllers/emailevents.go
--                   Routes: main.go, the writing routes with their permissions
--   Tests           runs of the definitions, and the properties at concrete inputs
--
-- How state and operations correspond to the code. A table of the database is the list of its
-- rows, in the order of insertion, and a row is a record with the table's columns, a nullable one
-- as an Option. A method of a store is a function from the table to the new table, or to what it
-- returns; its SQL statement is written as select, update, upsert, find or a sort on the list,
-- and a flag of its own says whether the database executes it, so that every error path is a
-- value. The ids and the times that the database generates are arguments, as are the service's
-- clock, and the rows that other transactions hold locked when a claim runs (SKIP LOCKED). A Go
-- error is the text that the code puts in front of its cause. Times and durations are
-- nanoseconds; int64 products wrap as in Go where the code multiplies, and saturate where
-- time.Sub does. A handler is a function from the request, its decoded body (none if it cannot be
-- decoded) and the state to the new state and the reply. A []byte is a list of numbers, and a
-- text is cut or signed as its UTF-8 encoding. Calls to other services are listed in the state in
-- the order in which they are made, and the handlers' state lists what was handed to the
-- asynchronous recorder. A transaction is a sequence of steps of which any may leave. Uniqueness
-- of ids is a hypothesis where a property needs it, and is itself an invariant.
--
-- Loops are recursion on the list or on the number of turns that are left; no definition has fuel
-- that could run out. The polls of a worker are a run of steps, whose number is bounded by a
-- measure.
--
-- Parameters, since their code is not in the repository: the JWT library's Parse, the email and
-- push senders' answers, which statements the database refuses, the answers of the HTTP client,
-- mail.ParseAddress, the folding of letters in EqualFold and ToLower, base64, HMAC, URLs, the
-- decoding of JSON, time.Parse, net.SplitHostPort and the text that some bytes are.
--
-- Not modelled: the building of emails and the calls of the email and push providers (channels),
-- the routes that only read, CORS, the log of requests, start-up and shutdown. Log lines and the
-- tickers of the workers have no effect on the state. JSON columns are trees, with each key once
-- and matched exactly. Where rows tie in an ORDER BY, the model keeps their order of insertion,
-- which the database does not promise.
pub mod Audit
pub mod Base
pub mod Config
pub mod Controllers
pub mod Deliveries
pub mod EmailEvents
pub mod Inbound
pub mod Middleware
pub mod Notifications
pub mod Preferences
pub mod Pushsubs
pub mod Tests
pub mod Workers
