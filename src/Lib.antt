-- ===== src/Lib.antt =====
-- Loremaster: a daily detective case. A guest plays one attempt per case, by guesses, reveals of
-- evidence and surrender; solves are scored and ranked, and each case adds to a profile.
--
-- The parts, and how they meet. packages/domain holds the pure rules. packages/database runs them in
-- transactions on PostgreSQL: a command reads the row of an attempt, asks the rules for the
-- transition, writes the rows and a receipt, and shows the attempt by a projection of the rules.
-- packages/cache keeps the index of the suggestions and the shared limiter in Redis. apps/api serves
-- the commands over HTTP behind the guards of a session and a rate limiter; apps/web is the browser.
-- Each part has a module here that uses those below it.
--
-- Domain/Attempt.antt and below it: packages/domain/src/attempt-engine.ts. A snapshot is the record
-- `Snapshot`; `assert_valid_attempt_snapshot` takes the `unknown` as a `Candidate`; Engine has
-- applyGuess, revealEvidence, giveUp and expire; Score has timeBonusFor and scoreSolvedAttempt. A
-- thrown error is the `err` of a result.
-- Domain/Projections.antt: packages/domain/src/projections.ts, projectAttempt and its helpers.
-- Domain/Leaderboard.antt: packages/domain/src/leaderboard.ts. The sort of the language is stable
-- insertion; a number that is no integer is known by its floor (Prelude/Js.antt).
-- Domain/Aggregates.antt: packages/domain/src/aggregates.ts, profile statistics, streaks, the numbers
-- of days, regional knowledge. A map is the list of its entries. The walk back from the last day of a
-- streak runs on fuel: one more than the number of days, which bounds the length of any run of them.
-- Gameplay.antt: the tables of packages/database/src/gameplay as lists of records, and transaction of
-- gameplay/runtime.ts as commit or rollback. Gameplay/Rows.antt has the reads of attempt-records.ts and
-- the guards lockGuest and sessionIsLive; Gameplay/Reconciliation.antt has finalize and expireIfClosed
-- of reconciliation.ts; Receipts, Plans and Commands have executeGameplayCommand of attempts.ts, Start
-- has startCurrentAttempt, readOwnedAttempt and readCurrentCase. A handler takes the tables and returns
-- a result and the tables; the readings of the clock and the results of randomUUID are arguments.
-- Gameplay/Pages.antt: readDailyLeaderboardPage and readDailyLeaderboard of gameplay/leaderboard.ts. A
-- query is a function on the rows of a slot; Pages/Walk.antt reads one page after the other on fuel,
-- one more than the number of rows, since every page but the last shows a row.
-- Pages/Agreement.antt puts the board that is read beside rankLeaderboard of packages/domain.
-- Gameplay/Profiles.antt: readProfile of gameplay/profile.ts.
-- Gameplay/Suggestions.antt: gameplay/suggestions.ts, the check of an attempt, the published index and
-- the ranking of the matches; the rows that the query of the index returns are an argument.
-- Identity.antt: createGuestSession, authenticateSession and verifySessionCsrfToken of
-- packages/database/src/identity/session-repository.ts, on tables of its own, with the columns that the
-- gameplay does not read. A try to create has its draws, its time and its trouble as arguments.
-- Cache/SuggestionIndex.antt: packages/cache/src/suggestions.ts. An `unknown` is a `Value`: the
-- primitives, dense arrays, plain objects by their fields, and other objects, which every check refuses.
-- Cache/Limiter.antt: the script of packages/cache/src/limiter/redis.ts as one step on the keys that it
-- writes, with the limits of limiter-contract.ts, and the reading of its reply.
-- Api/Sources.antt, Api/Cookies.antt: source-ip.ts, cookies.ts, auth.ts and csrf.ts of
-- apps/api/src/security.
-- Api/RateLimit.antt: createRateLimitControl of apps/api/src/security/rate-limit.ts, with the two
-- window stores as state; the decision of the shared limiter and what sourceIpFor ends with are
-- arguments.
-- Web/Retry.antt: retryDirective of apps/web/src/api/retry.ts with the policies of
-- packages/contracts/src/schemas.ts.
-- Web/LatestRead.antt: LatestRead of apps/web/src/state/latest-read.ts as a relation of steps: the calls
-- and the ends of the loads come in any order, and `then` and `finally` of one load are two steps.
-- A load returns its promise, as the calls of the browser do: a load that throws before is left out.
-- Prelude.antt has what these share, Examples.antt the runs at concrete inputs.
--
-- Bounds and choices. Counters, versions and milliseconds are natural numbers, which the source keeps
-- below 2 ^ 53; a subtraction that the source holds at 0 is the one that stops at 0. Identifiers are
-- texts, in the canonical form in which PostgreSQL prints them. Commands of one guest run one after the
-- other, as the lock on the guest's row makes them, so a transaction is a function on the tables.
--
-- Arguments that stand for other code: `sha256_of_json` (the digest of the JSON text of a list),
-- `hash_secret`, `to_iso_string`, the text of a date, the table of regions, the clock, the
-- identifiers and the random draws, the failures of the database, the decision of the shared
-- limiter for the API, JSON and the length of a text in UTF-8, the lower case of the language, the
-- canonical form of an address and the block list of proxies; and `hydrate_case`, the read of the
-- published file of a case, which writes nothing.
--
-- Not modelled: deadlines and cancellation of transactions, the constraints and triggers of the
-- schema beyond the keys and conflicts that the statements name, the queue, the import of content,
-- the routes of HTTP and the scanner of JSON bodies, the text of Set-Cookie, the canonical form of
-- an address (canonicalIpAddress), the screens and their controller, deployment and monitoring:
-- input and output, calls of libraries, or parts that the play does not depend on.
pub mod Prelude
pub mod Domain
pub mod Gameplay
pub mod Identity
pub mod Api
pub mod Cache
pub mod Web
mod Examples
