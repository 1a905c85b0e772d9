-- ===== src/Lib.antt =====
-- Schema Guard: the core that decides whether a tool call of a model may run.
--
-- The program. A guard takes a tool's name, its JSON schema, the raw arguments and a policy, and
-- accepts or rejects the call (packages/core/src/engine.ts, `validateToolCall`). It parses the
-- arguments without duplicate keys (strict-json.ts), bounds every value it meets (limits.ts),
-- compiles the schema with Ajv, repairs arguments by a short list of rules (repair.ts), evaluates
-- the policy (policy.ts), and puts hashes of all of it into an audit envelope (audit.ts, hash.ts).
-- An action gate then takes the decision and permits one execution (action.ts): it checks the
-- decision's hashes and receipts, the environment, an approval that is bound to the very arguments
-- where the risk asks for one, and a reservation in a ledger where the action has side effects.
-- Fixtures keep a request with what was decided on it, and replay it (replay.ts), and a report says
-- whether a schema has drifted in a way that breaks its callers (drift.ts). Apart from the guard, a
-- receiver keeps checkpoints of the ledgers that other processes send it, in a chain of keyed hashes
-- (packages/anchor-receiver), and the control plane sends them and its alerts as signed requests
-- (packages/managed/src/webhook.ts). It is there so that a ledger that was rolled back is found out.
--
-- The files, with the code under packages/core/src that each stands for:
--   Base, Base/Lists, Base/Codes   texts as lists of UTF-16 units, Boolean tests, lemmas on lists
--   Json                           JSON values; the entries of an object keep their order
--   Json/Host                      what the code takes from Node and from packages: a record of
--                                  functions that every definition which needs them is given
--   Json/Number, Json/Stringify    doubles as bit patterns; JSON.stringify
--   Json/Canonical                 hash.ts: stable, canonicalJson, sha256
--   Core/Types, Core/Result        types.ts; what a function returns or throws
--   Core/Assoc, Core/Ledger        association lists; action.ts: InMemoryIdempotencyLedger, each
--                                  method from a map to an answer and the map after it
--   Core/Ledger/Lifecycle          the ledger's calls as a step relation
--   Core/Ledger/Automaton          what the interface promises: an automaton for each key
--   Core/Receipt                   repair.ts: repairReceiptHash, verifyRepairReceipt,
--                                  finalizeRepairReceipts
--   Core/Approval                  action.ts: actionBinding, createApprovalChallenge,
--                                  approveChallenge, verifyApprovalEvidence
--   Core/Approval/Roundtrip        from a challenge to the gate's check of its approval
--   Core/Action/Risk, Stages       action.ts: RISK_RANK, resolvedPolicy, the proof checks
--   Core/Action                    action.ts: evaluateActionGate, a function for each stage
--   Core/Action/Grounds, Authorised, Refusals  what a permission rests on, what is refused
--   Core/Pointer                   the escapes of JSON pointers
--   Core/Policy, HasPath, Check    policy.ts: evaluatePolicy, hasPath, policyValidationError
--   Core/Policy/Narrowing          what it means that a policy allows a call
--   Core/Repair/Decimal, Reference, Scalar, Walk  repair.ts: decimalCanonical, localReference,
--                                  scalar, walk and applyRepairs
--   Core/Repair/Scalar/Exact, Walk/Receipts  when a string becomes a number; repairs on record
--   Core/Limits, Objects           limits.ts, over JSON values and over objects that share
--   Core/Limits/Bounds             the safety loop: its end, and what it accepts
--   Core/StrictJson, Tokens        strict-json.ts: UniqueKeyScanner, parseUnambiguousJson
--   Core/Audit                     audit.ts: shape, createAuditEnvelope
--   Core/Engine/Input, OpenObject, Reject  engine.ts: parseArguments, compileSchema, toIssues,
--                                  firstOpenObject, reject
--   Core/Engine                    engine.ts: validateToolCall, a function for each stage
--   Core/Engine/PolicyRejection    engine.ts: rejectAcceptedDecisionByPolicy
--   Core/Engine/Enforced, Enforcement, Narrowed, Integrity  what an accepted call went through
--   Core/Engine/Determinism        what the fresh identifiers and the time leave untouched
--   Core/Replay                    replay.ts: createReplayFixture, assertFixture, compare,
--                                  replayFixture, replaySuite
--   Core/Replay/Roundtrip          from a fixture to its replay
--   Core/Drift/Changes, Constraints, Compare, Detect  drift.ts: add, same, each constraint,
--                                  compare, detectSchemaDrift
--   Core/Adapters, Google          adapters.ts: normalizeTool, normalizeGoogleSchema
--   Core/Drift/Breaking, Report    changes at any depth, and what the report says of them
--   Anchor/Event, Numbers          packages/anchor-receiver/src/store.ts: parseAnchorEvent
--   Anchor/Store                   the same file: AnchorStore, its two tables as lists and each
--                                  method from a store to an answer and the store after it
--   Anchor/Store/Tables, Sound, Steps  the invariant of the tables, and each transaction
--   Anchor/Store/History, Rollback, Retry  every sequence of calls; events that go back; an event
--                                  that is delivered twice
--   Anchor/Store/Boxed             an array in the place of an identifier
--   Anchor/Receiver, Handled       packages/anchor-receiver/src/server.ts: createAnchorReceiver
--                                  and its handler
--   Managed/Webhook, Safe          packages/managed/src/webhook.ts: isPublicIpv4,
--                                  resolveSafeAddress, deliverAlertWebhook, the signature
--   Managed/Dispatch, Delivered    the same file: the workers of dispatchAlertWebhooksOnce, whose
--                                  loop the other three dispatchers have as well
--   Managed/RateLimit, Bound       packages/managed/src/rate-limit.ts: FixedWindowRateLimiter
--   Tests                          a small concrete host, runs, and each theorem at an input
--
-- The model. A function that changes state returns the state after it; one that throws returns
-- `throw`, with the class of the error, which the code asks for by `instanceof`. Fresh identifiers
-- and the time are arguments. SHA-256, HMAC, Date.parse, toISOString, localeCompare, Number,
-- String, JSON.parse, safe-regex2 and Ajv are parameters: nothing is assumed of them but what a
-- theorem names. A request's and an approval's members have the types they are declared with,
-- except those whose type the code checks. The instances of Ajv belong to a module and remember what
-- they compiled: a call is given them as it finds them, and two calls may be given different ones.
-- The receiver takes a string for an identifier, or an array that holds one, which the database
-- driver binds as that string: the model keeps what is bound, and whether it was in an array.
--
-- Fuel. The safety loop has fuel for two rounds more than the nodes it allows: it stops on the
-- first node too many. The walk of the repairs has a unit for each `$ref` string of the schema and
-- one more, since a reference that is being resolved is not entered again. The scanner of strict
-- JSON has two units for each character and two more, since each call consumes a character or
-- turns to an element.
--
-- Databases. A table is a list of rows in the order of its key, and a transaction that throws
-- leaves it as it was. The data version of a database, which other writers move, is an argument.
-- Where the later properties of a schema are read under a name that they do not have, what
-- Object.prototype has is modelled: its methods, and itself under `__proto__`, as an object with no
-- members of its own.
--
-- Not modelled: the contract compiler of the core (compiler.ts); the command line, the HTTP API, the
-- SDKs, the rest of the managed control plane and the shared one (packages/cli, api,
-- sdk-typescript, managed, shared-state), most of which are statements for a database or handlers
-- for a socket; the receiver's access log, the headers of its responses, and the start of its
-- process.
pub mod Base
pub mod Json
pub mod Core
pub mod Anchor
pub mod Managed
pub mod Tests
