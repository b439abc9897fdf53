-- ===== src/Lib.antt =====
-- eaim: a verification library beside the AI gateway's Go code.
--
-- The program. AI agents call tools through a gateway. For each call the gateway asks the policy
-- evaluator (eami-policy) for a decision, dispatches the call or refuses it, and writes an entry to
-- a hash-chained audit log (eami-gateway/internal/audit), which the management API verifies
-- (eami-api/internal/store/verify.go). A workflow (eami-gateway/internal/workflow) is a chain of such
-- calls. Before a call and on each of them the registry (eami-gateway/internal/registry) resolves
-- the agent and its liveness. The dispatcher (eami-gateway/cmd/gateway) leads a call through the gates
-- of liveness and licence, resolves its connector, asks the policy, and denies it, sends it or holds it
-- for the approval of a human (eami-gateway/internal/approval), which resumes it. Logins, setup and
-- workflow runs are rate limited.
--
-- The files.
-- - Base and its children: what the others share. Tests has Boolean tests and Result, Go's pair of a
--   value and an error; Lists, Int, Text and Json the data; Sort what sort.Slice promises.
-- - Policy: eami-policy. Types is types.go; Glob is path.Match as structural.go uses it; Scope is
--   detectScopeDrift and Structural matchesRule of structural.go; Evaluator is evaluator.go and
--   semantic.go, with NewEvaluator's sort as an argument. FirstMatch, Floor, Ties, Matching, Drift,
--   DriftOrder and DriftAmbiguous prove.
-- - Audit: Entry and Writer are eami-gateway/internal/audit/writer.go, Verify is VerifyAuditChain of
--   eami-api/internal/store/verify.go. Chain, Valid, Report, Lives and Limits prove.
-- - RateLimit: Limiter is the limiter of eami-api/internal/api/ratelimit.go, which
--   eami-gateway/internal/workflow/ratelimit.go repeats; Middleware is clientKey and
--   ratelimit_login.go, and RunGuard is RateLimitRunMiddleware. Keep, Call, Invariant, Bound, Retry,
--   Return, ClientKey, Login and Runs prove.
-- - Mcp: the context of a call in eami-gateway/internal/mcp/handler.go; Mcp.Sessions is session.go beside
--   it, with the list of the sessions for the map from their IDs. Closing and Unique prove.
-- - Workflow: Types is types.go, Params is params.go, Connector is connector.go, Resolve is resolve.go and Executor is executor.go.
--   Extraction, Trace, FailStop, Resolved and Runs prove.
-- - Registry: Tables, Liveness and Lookup are CheckLive of eami-gateway/internal/registry/liveness.go
--   and LookupByNameAndOrg of registry.go beside it. Refusal, MayCall and Scope prove.
-- - Approval: eami-gateway/internal/approval/router.go. Types has what it exchanges with the rest and
--   the log of what the gateway does; ConfigHash is ComputeConfigHash, Limits the optional interfaces
--   of the licence checker, Resume is dispatchApproved, Outcome is Submit and outcomeFromStatus, and
--   Hold has Hold, resolveHoldTimeout and resolve as steps; Slack is the text of notifySlack. Ticket
--   has what an approval promises. Calls, Resumption, Pin, Outcomes, Once, AtMostOnce and Ticket prove.
-- - Dispatch: eami-gateway/cmd/gateway/dispatcher.go. Target is the resolution of the connector, with
--   resolveDynamicTool and resolveAIProviderTool of main.go beside it; Hooks has the hooks and the
--   audit row, Decide the three branches of the decision, and Gates is Dispatch itself with its
--   rejections. View, Held, Exits, Ends, Finals, Escalated, Safety, Trail, Errors, OrgFloor and Pinned prove.
-- - ToolRouter: Forward is Forward of eami-gateway/internal/toolrouter/router.go. Prepared proves.
-- - The Examples modules instantiate the theorems at small inputs, with the parameters as functions.
--
-- How the code is modelled. A method that changes state takes the state and returns the new one; what
-- the code holds a mutex for is one step. Iteration over a Go map takes its order as an argument.
-- The clock is read into an argument, in the unit that each file names. Database queries, SHA-256,
-- UUIDs, JSON, gjson and the formats of time are parameters: functions, or results that may be errors.
-- Texts are lists of code points, and case folding is that of ASCII. All recursion is structural, so
-- that no fuel is needed. Go's int is an integer without bounds, since the code modelled here only
-- compares and counts with it, and durations are far from overflow.
--
-- The two goroutines of an approval, and the decision on its row, are steps that come in any order; the
-- body of the once is one step, since sync.Once makes a second caller wait. A dispatch takes what Hold
-- does as a function, of which the theorems assume that those steps lead to its outcome. The calls of
-- the static proxy, the tool router and the provider router are one parameter, whose answer is a
-- response or an error. The log of the gateway holds each row that is handed to the audit writer with the
-- error that Write returned; a row with an error is lost. The chain of the rows that are kept is the
-- matter of Audit.
--
-- Not modelled: what net/http does with the request that a router hands to its client, in particular
-- the redirects that it follows, since the tool router sets no CheckRedirect (BUILT.md, B-044); the
-- sending of Slack messages and the connection that listens for notifications; HTTP handlers, SQL and
-- configuration; the endpoint agent and the collector, which are input and output throughout.
pub mod Base
pub mod Mcp
pub mod Policy
pub mod Audit
pub mod RateLimit
pub mod Workflow
pub mod Registry
pub mod Approval
pub mod Dispatch
pub mod ToolRouter
