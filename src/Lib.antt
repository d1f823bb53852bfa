-- ===== src/Lib.antt =====
-- Verification of the onetrackmind backend (TypeScript, backend/src): a construction assistant that
-- takes in messages by app, email and SMS, decides whether a message is new, stores it, classifies it
-- and sends the answer out.
--
-- Runtime        what the source uses of JavaScript: Date.toISOString (Runtime/Date, years 1970 to 9999),
--                Array.sort (Runtime/Sort), JSON.stringify of strings (Runtime/Quote), String.trim
--                (Runtime/Trim), Array.join (Runtime/Join), decimal numbers (Runtime/Decimal), the file
--                system as a function (Runtime/Files). A string is a list of UTF-16 code units (Common/Texts).
-- Db             backend/src/db. Db/Vocabulary is schemaConstants.ts; Db/Serializers and Db/Mapping/* are
--                mapping/serializers.ts and the five mappers (commsLogFromDb is comms_log_from_db);
--                Db/Constraints/* are the functions of mapping/dalConstraints.ts (decideDedup,
--                checkIdempotencyExpiry, validateDeviceWrite, parseContactIdentifiers). Db/Migrations is
--                migrationRunner.ts: Names is parseMigrationFilename, Split is splitSqlStatements, Load is
--                loadMigrationsFromDir, Run is runMigrations on the SQLite connection of Connection.
-- Comms          backend/src/comms. Comms/ContentHash is contentHash.ts. Comms/Idempotency is
--                idempotencyChecker: Plan is pure.ts, Keys holds the SQL statements on idempotency_keys,
--                Gate is executeIdempotencyPlan and checkIdempotency, Link is linkIdempotencyKey, and Trace
--                runs any sequence of calls. Comms/CommsLogWriter is commsLogWriter: Record is the
--                assembler of pure.ts, Table the INSERT with the constraints of
--                backend/migrations/001_phase4_comms.sql, Store is storeCommsLog.
-- Orchestration  backend/src/orchestration. Narrowing is typeUtils.ts, EventClassifier is
--                eventClassifier.ts, OutputRouter is outputRouter.ts, ApprovalGate/Waiter is waitForDecision,
--                sendApprovalRequest and runApprovalGate of approvalGate. Session is sessionPersistence.ts: State
--                holds the types of types.ts, Store the tables session_log and session_states, Cache is
--                parseCachedState, Log writeLogEntry with updateStateObject and closeSession, Replay
--                replaySessionLog, Purge purgeExpiredLogs and Open openSession. Formatters is formatters.ts,
--                and ModelAudit is modelAudit.ts: Prompt is shouldRunModelAudit and buildAuditPrompt,
--                Response parseAuditResponse, and Run runModelAudit. PoSequence is the
--                in-memory store of tools/poSequence.ts, whose counters are numbers below 2 ^ 53.
-- Examples       tests, and each theorem at a concrete input.
--
-- A call of the checker or the writer takes a world (the tables, the log lines, the diagnostic events)
-- and gives its result with the world after. A table is the list of its rows in the order of
-- insertion; a statement that throws changes nothing. The driver's faults are an argument, one for each
-- statement, and so is the emitter, which may reject. Each call runs to its end before the next: the
-- interleaving of two calls at their awaits is not modelled. The clock and the random row ids are
-- arguments.
--
-- The retention of the session log is a whole number of days from 0. A negative number, which puts the
-- cutoff after now, a fraction, and NaN or -Infinity, for which purgeExpiredLogs throws a RangeError
-- outside its try block and openSession after its entry is written, are outside the model. Log entries
-- with equal timestamps, whose order SQL leaves open, are replayed in the order of insertion.
--
-- The client of the migration runner may throw at any call, by the number of the calls before it, and a
-- migration's statements act on the data beside the table schema_migrations and control no transaction.
--
-- Parameters, for code that is not in the repository: SHA-256, JSON.parse with JSON.stringify of general
-- values, String() of such a value, Date.parse, AES-GCM, Node's file system, what SQLite does with a
-- migration's statement, the clients of the output router, and how the race of the audit's API call with
-- its timer ends. The regular expressions that formatForSms strips markdown with, the prompt that
-- configLoader.ts reads for the audit, and the clean-up of a logged message in primaryCall.ts are
-- parameters too.
--
-- The loop of formatForSms runs on fuel, the length of its text, which each turn shortens.
--
-- Not modelled: the feedback submitter of the approval gate, formatDraftForApproval, preflight, the other
-- tools and the prompts of the orchestration, configuration, the SQLite and HTTP wrappers, the
-- benchmark receiver, and the Flutter app.
pub mod Common
pub mod Runtime
pub mod Db
pub mod Comms
pub mod Orchestration
pub mod Examples
