-- ===== src/Lib.antt =====
-- The intake and delivery pipeline: an issue arrives by webhook (src/db/webhook-deliveries.ts), is
-- fetched and becomes an intake item (src/enrichment/worker.ts, src/intake/repository.ts), has its
-- requirements analysed and goes to a human for approval (src/requirements), gets one run when it is
-- approved (src/orchestrator) and a repository that a human confirms (src/repository-selection) out
-- of the registry (src/repository-registry). The coding agent proposes changes (src/coding-agent), a
-- human reviews the proposal, and an approved one is applied to a local working copy and recorded
-- (src/change-execution). What was executed is published as a branch and a pull request on GitHub
-- (src/github-publish, through src/github-app), which a human merges; the merge is detected and
-- deployed (src/deployment). src/pipeline drives these services and shows a run's progress. The parts
-- share the database and nothing else: each repository file owns one collection, and the audit log is
-- written by all.
--
-- How the code is modelled. An async function is an Action: a world goes in, a result (a value or
-- the thrown error) and a world come out, and what was written before a throw stays written
-- (Effect). Where a repository reads and then writes, or inserts and then looks for the winner,
-- other clients may act: `step` and `step'` are what they do there, arbitrary functions on the
-- world. Elsewhere they do not act: between the calls that a worker or a service makes (around
-- `analyze` of the requirements agent, between two checks of a service, between claiming and ending
-- a deployment) the database is as the last call left it. A service that calls another system works
-- on a Site: the world, and the remote side, whose type is a parameter; each of the remote calls is
-- given what the remote side is at that moment and says what it is afterwards, also where others
-- acted there meanwhile. Clock readings are arguments; runDeployment has one for its claim and its
-- end. An insertion may fail with an error of the driver or a duplicate key; reads and
-- findOneAndUpdate do not fail, so that the outcomes that a result lists are all outcomes but those.
-- The provider and the validator of a deployment do not throw either. Text is the list of its UTF-16
-- code units (Text); a date is its time in milliseconds. Logging is left out.
--
-- Parameters, for code outside the repository and for the calls of parts that are not modelled:
--   Store.Collection   a collection of the MongoDB driver under one unique index: findOne, insertOne
--                      and findOneAndUpdate with their documented behaviour as laws; Store.Memory is
--                      an instance in memory
--   Execution.Disk     node:fs as local-apply.ts calls it; Execution.MemoryDisk is an instance
--   GithubAppClient    the answers of GitHub, which the record lists call by call
--   DeploymentProvider what is deployed to, and the validator that looks at it afterwards
--   quote, sha256      JSON.stringify of a string, createHash of node:crypto
--   get_issue          what the Neutara client answers; analyze: what the analyzer answers or throws
--   latest, active     findLatestByRunId and findActiveByProjectIdentifier, sorted or listing reads
--   access, publish    what the access service answers for a run; the publish service for the queue
--   registry           the active repositories of a project; find_due: the rows that findDueForRetry
--                      returns
--   compute_proposal_hash, hex, to_lower   the proposal hash, toHexString, toLowerCase
--   message            the wording of a failure that is stored with a publication
--
-- Files and code:
--   Prelude, Text, Json, Effect     shared helpers; strings, plain data, awaited code
--   Collections, Documents, Errors  src/db/collections.ts, the document interfaces, the error classes
--   Store, Db, Access, Site         the driver, the database with its unique indexes (INDEXES), the
--                                   insert-or-return-the-winner that the repositories share, and the
--                                   world with a remote side
--   AuditLog                        src/db/audit-log.ts: append
--   Intake.State, Hash, Repository  src/intake/state.ts, hash.ts, repository.ts
--   Runs.Repository, Worker         src/orchestrator/repository.ts, worker.ts
--   Requirements.Repository, Agent  src/requirements/repository.ts; worker.ts, validation.ts and
--                                   approval-transition.ts
--   Selection.Repository            src/repository-selection/repository.ts
--   Selection.Matching, Worker      src/repository-selection/worker.ts: one attempt, and the pass
--   Enrichment.Deliveries, Worker   src/db/webhook-deliveries.ts, src/enrichment/worker.ts
--   Coding.PathSafety, Changes      src/coding-agent/path-safety.ts, changes.ts; Regex runs the patterns
--   Execution.Reviews, Executions   src/change-execution/review-repository.ts, execution-repository.ts
--   Execution.LocalApply            src/change-execution/local-apply.ts
--   Execution.Eligibility           src/change-execution/execution-service.ts, up to the attempt
--   Registry.Records, Branches      src/repository-registry/repository.ts: the entry, its validation
--   GithubApp.Client, Access        src/github-app/client.ts, access.ts
--   Publish.BranchName, Content     src/github-publish/branch-name.ts, pr-content.ts
--   Publish.Records, Publications   src/github-publish/types.ts, publish-repository.ts
--   Publish.Verify                  execute of src/github-publish/publish-service.ts
--   Publish.Build, Push, Attempt    attempt of the same file: the commit, the branch and the pull
--                                   request, and the whole with the record of its outcome
--   Publish.Service                 publishApprovedChanges of the same file
--   Deploy.Records, Deployments     src/deployment/types.ts, deployment-repository.ts
--   Deploy.Service, Detection       src/deployment/deployment-service.ts, pr-merge-detection.ts
--   Pipeline.RunStage               src/pipeline/run-status.ts
--   Pipeline.Queues                 src/pipeline/change-execution-queue.ts, github-publish-queue.ts
-- The other modules of these trees hold the laws; Tests applies them to concrete data.
--
-- Bounds. Loops are structural recursion over the list that the code loops over, and the matcher of
-- Regex is structural in the pattern and the text. One function runs on fuel, the decimal digits of a
-- number (Publish.Content): the number plus one, as each step divides the number by ten. Counters and times are
-- natural numbers without a bound, as the code's numbers stay far below 2^53.
--
-- Not modelled: HTTP and timers (src/api, src/github-app/real-client.ts, src/neutara, schedulers),
-- scripts, logging and configuration; the attempt of src/change-execution/execution-service.ts, once
-- the checks have let the review through; create, update and setStatus of the registry;
-- src/deployment/deployment-queue.ts and the scheduler and trigger of src/pipeline;
-- src/coding-agent/service.ts and plan.ts and src/github-access; the map of calls in flight of the
-- publish service; sorted and paged reads; the schema validators of src/db/collections.ts.
pub mod Prelude
pub mod Text
pub mod Effect
pub mod Store
pub mod Json
pub mod Collections
pub mod Documents
pub mod Db
pub mod Errors
pub mod AuditLog
pub mod Intake
pub mod Access
pub mod Runs
pub mod Selection
pub mod Regex
pub mod Coding
pub mod Publish
pub mod Execution
pub mod Deploy
pub mod Pipeline
pub mod Registry
pub mod GithubApp
pub mod Site
pub mod Requirements
pub mod Enrichment
pub mod Tests
