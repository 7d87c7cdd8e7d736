-- ===== src/Lib.antt =====
-- CesSpace ARC, a local MCP server through which a coding agent works on a machine under a policy
-- and under the approvals of its owner. This library models parts of its TypeScript code.
--
-- Base              texts, dictionaries, lists, tests and JSON texts that the models share
-- Approval          the approval state manager, packages/policy/src/approval-state.ts with the data
--                   of packages/protocol/src/approval.ts
-- Glob              the path patterns, packages/policy/src/restricted-glob.ts
-- Policy            the declarative policy engine, packages/policy/src/declarative-policy.ts
-- Limiter           the request limiter of the remote gateways,
--                   apps/mcp-server/src/remote-resource-limits.ts
-- Admission         connection admission, apps/mcp-server/src/admission-limiter.ts
-- Peer              the keys of peers, apps/mcp-server/src/remote-resource-limits.ts
-- Trust             the enrolled devices, packages/auth/src/device-identity.ts and trust-store.ts
-- Session           sessions, packages/auth/src/session.ts
-- Patch             unified patches, packages/filesystem/src/patch-engine.ts
--
-- The policy engine decides for a tool call whether it is denied, allowed, or needs an approval,
-- and matches paths and branches by the path patterns; an approval that is needed is requested,
-- decided and redeemed at the approval state manager; the admission limiter, which is built on the
-- request limiter, stands in front of all of it. A remote client comes from an enrolled device of the
-- trust store, whose identity the sessions are bound to. The tool calls that are let through read and
-- change files; a patch is parsed and applied by Patch.
--
-- Approval. A `Manager` is the state of an `ApprovalStateManager`; each public method is a function
-- of the manager that returns its result and the manager after it (State: the constructor and
-- `registerLifecycleSink`; Lifecycle: `checkLazyExpiry`, `transitionToTerminal`, `purgeExpired`;
-- Requests: `createOrReusePending`; Decisions: `approve`, `reject`, `redeemAndConsume`, `clear`;
-- Queries: `inspectPending`, `getRequest`, `listActive`; Summary: `sanitizeReviewSummary`). A
-- thrown error is a value of `Result`, with the reason that is attached to it out of band.
-- `Operations.Call` is one call as a step, `Calls` a sequence of them, and `Reach` a sequence with
-- calls of `clear` in it.
--
-- Glob. Matcher has `validatePathPattern`, `normalizeTargetPath`, `compilePathPattern`,
-- `matchSegment`, `matchCompiledPattern` and `matchPathGlob`, with the rolling rows as lists of
-- Booleans; Language says what a pattern means.
--
-- Policy. Normal is `normalizePolicy`, Engine the compilation of rules and the construction of an
-- engine, Evaluation `evaluate` and `ruleMatches`. The text of an explanation is given by its kind.
-- Meaning says what a document means without a normal form. The canonical hash of a policy and the
-- workspace registry are arguments.
--
-- Limiter. Buckets is `BoundedRequestLimiter`: buckets and the closures that `tryHold` returns are
-- objects of a store, so that a closure that outlives its table entry still has its bucket. A token
-- is 60000 units and a millisecond accrues as many units as there are requests in a minute, where
-- the code has a quotient of floating-point numbers. `Steps` is any sequence of calls.
--
-- Admission. Slots is `AdmissionLimiter`; its closures are those of its table of peers, and its
-- count of live connections is a difference, because it may go below zero. `AdmissionSteps` is any
-- sequence of arrivals, ends and settled handshakes.
--
-- Peer. Addresses has the parsers of IPv4 and IPv6 literals, Keys the canonical texts and
-- `normalizePeerNetwork`, whose results are the keys that the limiters are called with.
-- `net.isIPv4` and `net.isIPv6` are arguments.
--
-- Trust. Devices has the records and their validation, Store the operations of `DeviceTrustStore` in
-- memory; `Runs.apply_calls` is any sequence of them. The generated identifier and the time of an
-- enrollment are arguments.
--
-- Session. Data has the records and `resolveActiveDeviceIdentity`, Bearer `parseBearerCredential`,
-- Manager the housekeeping of `SessionManager`, Requests `issueSession` and `authenticate`, and
-- `Session.Admission` `admitRequest`. `Resolver.resolved` says what a resolution rests on, in the
-- store of Trust. The registry of resolved identities is a list of object references, so that a copy
-- of an identity is another object. `Runs.run_calls` is any sequence of calls, each with its own
-- readings of the clock and its own random draws. The eight attempts at an identifier are a recursion
-- on the attempts that are left.
--
-- Patch. Headers has the forms of lines, Parser and Parsing are `parseUnifiedPatch` with its
-- variables as a `ParseState`, one step for a line; Apply is `applyHunksExact` and
-- `detectTextFileAndNewlines` on decoded texts. Meaning has the relation `Patches`, which says what a
-- patch means. `normalize` of node:path is an argument, and `cumulativeDelta`, which may be negative,
-- is a difference of two sums.
--
-- Choices of the models. A number is a natural number; every counter that the code decrements is
-- positive where it does, but for the one of the admission limiter. A text is the list of its UTF-16
-- code units. A value of a declared TypeScript type is given by its fields, so `typeof` tests on such
-- values are left out. The monotonic clock is a function from the index of a reading within a call to
-- nanoseconds, and the wall clock is one reading for each call, in milliseconds; an ISO string is
-- given by its time.
-- Random identifiers and tokens and SHA-256 are arguments. Observers are numbers, and what is
-- delivered to them is a list. A new request id is assumed to be of no record (`Call.create`).
-- No definition runs on fuel: every loop is over a list or a count that the code has.
--
-- Not modelled: the security kernel and the workspace registry of packages/policy/src/index.ts, the
-- parsing of policy documents, the file of the trust store and the pairing of devices, the file
-- system with the staging and the rollback of `applyPatch`, the process, terminal, git, audit and
-- configuration packages, the server with its gateways, and the command line. They are input and
-- output over Node, or later parts of this library.
pub mod Admission
pub mod Approval
pub mod Base
pub mod Glob
pub mod Limiter
pub mod Patch
pub mod Peer
pub mod Policy
pub mod Session
pub mod Trust
