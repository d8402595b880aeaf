-- ===== src/Lib.antt =====
-- botkit: a Go library for WhatsApp group bots. This library models its code and proves what makes each
-- part correct.
--
-- Prelude and Errors hold what all parts share: texts (lists of code points), Boolean tests, signed
-- durations, and Go's error values with `errors.Is`, `fmt.Errorf` and fallible results. Jid is the
-- part of whatsmeow's package `types` that the code reads, and Http the part of net/http.
--
-- - Identity: identity/identity.go (Normalize). Gate: gate/gate.go (ParseGroups, Allows).
--   Redact: redact/redact.go. Send: send/errors.go (Classify).
-- - Store: store/kv.go and store/sqlite.go. The table is a list of rows; each statement takes what the
--   driver answers: it works, it fails with nothing done, or it is done and its answer is lost.
-- - Webauth: webauth/config.go, token.go, webauth.go. Minting, redeeming, refreshing and verifying are
--   functions of the configuration, the instant, what WhatsApp answers at that instant, and the store.
--   Webauth/Tickets is what minting and redeeming promise, as a book of tickets that nobody sweeps, and
--   its child Refinement that they keep it.
--   Webauth/Server: webauth/server.go, the two endpoints as a function of the request and the store.
-- - Pairing: pairing/server.go, a server state with its requests as steps.
-- - Transport: transport/client.go and transport/message.go. Retry is `withRateRetry`, over the sequence
--   of answers that its calls would get; Members has identities and `IsMember`; Groups has the group
--   queries, `IsMemberOfAny` and `Approve`; Presence has `Connect`, `Pair`, `Ping` and `SendText`, with
--   the list of the calls that they make.
-- - Schedule: schedule/schedule.go, with int64's wrap-around; the calendar is a parameter.
-- - Transport/Opening is `New` of transport/client.go, with the database handles that it leaves open,
--   and `handleEvent`.
-- - Proto has the message types of whatsmeow's package `waE2E`, as far as the code reads them, and
--   Bot/Message is bot/message.go: the envelope's types and what is read off a message. Bot/Message/Build
--   is `buildMessage` of bot/bot.go, and Bot/Contact the contact cards (`Phones`).
-- - Bot/Actions is bot/actions.go, what a handler or a job can ask of the bot. Bot/Links puts the users
--   of the store together: the endpoints, the mints and the daily jobs; Bot/Links/Lasting follows one
--   link through them.
-- - Bot: bot/bot.go and bot/config.go (New, and the gates before the handlers, with the envelope that a
--   handler is given); Bot/Ops is `opsHandler` of bot/bot.go, over the states of Pairing and of the
--   store; Bot/Run is `Run`, from opening the session to the shutdown, over what happens until its
--   context ends: events that arrive, and the goroutines of their hooks and handlers, which run in any
--   order or are still pending in the end; Bot/Adapter is `pairAdapter`, by which the ops API reaches the client; Bot/Jobs is
--   `fireJob` of bot/schedule.go, with the store as its state, Bot/Jobs/Starts `OnSchedule` and
--   `startJobs`, and Bot/Jobs/Loop the loop of `runJob`.
--   Bot/Jobs/Threads has the goroutines of the jobs as a step relation over the one store: each access
--   of the store is a step, and between any two of them another goroutine moves, the dashboard writes a
--   nonce, takes one or sweeps them, or the process is killed and starts again. Markers, Turns, Kept,
--   Once, Progress and Alone prove what holds of it.
-- - Store/Cells says what a `KV` promises, as operations on a function from keys to cells, and
--   Store/Refinement that it keeps it, with Store/Counting on the rows that a sweep counts.
--   Store/Abstract is the quotient of the tables by their cells, which forgets the order of the rows,
--   and Store/Spared says which writes leave the cell of a key.
-- - Telemetry: telemetry/telemetry.go (Init). Hello: cmd/hello/main.go, its environment and its handlers,
--   and Hello/Process its `main`, from the set-up of telemetry to the exit. Devserver and Devserver/Process:
--   examples/webauth-dev/devserver/main.go, the real endpoints in front of a group held in memory.
--
-- The components interact as in the code: webauth stores its nonces in the store under a prefix and
-- sweeps them by `DeleteExpired`; the bot's gates are the whitelist of Gate and the membership check of
-- Transport, and its daily jobs keep their markers in the store.
--
-- Instants are nanoseconds since 1970, and SQLite's clock is the same instant in whole seconds. Code
-- that is not in the repository (whatsmeow, base64, JSON, HMAC, SHA-256, url.Parse, time's calendar,
-- math/rand) is a parameter; what is assumed of it is a record of laws (Jid, Webauth/Codec,
-- Redact/Opaque, Schedule/Calendar) or a hypothesis of the theorem, and Examples has functions that
-- meet them. Log lines are left out, and so is the text of errors that nothing reads, beyond its
-- first clause. No function takes fuel: every loop runs over a list, but for the retries, of which
-- there are four.
--
-- The goroutine of a hook or a handler runs as one step, at any moment after the event that starts it
-- (Bot/Run), and a request to an endpoint is one step. What they interleave is then a list of such
-- steps or of statements, and the theorems hold for every list. `Run` is followed from its wait on:
-- what happens meanwhile counts from there. The goroutines of the jobs have their own steps
-- (Bot/Jobs/Threads), and in Bot/Links a mint may be cut between its sweep and its Set.
--
-- Not modelled: what only goes to the log, the reading of .env files and flags, and the JSON of bodies,
-- which are arguments.
pub mod Prelude
pub mod Errors
pub mod Jid
pub mod Proto
pub mod Store
pub mod Identity
pub mod Redact
pub mod Send
pub mod Gate
pub mod Webauth
pub mod Http
pub mod Pairing
pub mod Transport
pub mod Schedule
pub mod Bot
pub mod Devserver
pub mod Telemetry
pub mod Hello
pub mod Examples
