-- ===== src/Lib.antt =====
-- Models of the incident service sre-agent-v2, and the proofs of its core: the incident registry and
-- the stores of action attempts, verifications, approvals and plans, all of them in memory; and the
-- agent's actions, its policy, its verification worker and its check of Kubernetes, which use them.
--
-- The service watches alerts. `Observe` turns an alert into an incident; workers take turns on an
-- incident by `Claim`, a lease that advances the version of the incident; `Transition` moves it on.
-- An action on the cluster has one attempt, which its owner begins and completes, and which the holder
-- of a larger fencing token may give up. Once the attempt has ended, a verification finds out whether
-- the target has recovered: it is begun and completed through the registry, by whoever passes the
-- fence of the latest claim. `Resolve` closes the incident, on the evidence of a verification that
-- found it recovered. Two schedulers hand out, with a fresh claim, a verification to be done and one
-- on which an incident may be resolved.
--
-- The agent lets a decision of its model pass by a policy, has the plan approved, and takes a waiting
-- incident up again: it looks the plan and the approval up, claims the incident, begins an attempt,
-- deletes the pod, completes the attempt and begins the verification. The verification worker claims
-- what is to be verified or resolved, asks an executor, which looks at the replica set and its pods,
-- completes the verification and resolves the incident, in rounds with a back-off.
--
-- Files and code, the paths from src/sre-agent-v2/internal:
--   Remediation/Keys, Remediation/Attempt, Remediation/Attempt/Store:
--     remediation/action_attempt_store.go (MemoryActionAttemptStore, its commands and keys)
--   Remediation/Verification, Remediation/Verification/Store:
--     remediation/verification_store.go (MemoryVerificationStore and its commands)
--   Incident, Incident/Stores, Incident/Rules, Incident/Registry:
--     incident/registry.go (Registry: Observe, Claim, ClaimHistory, Transition)
--   Incident/Fence: incident/registry.go (Resolve) and the fence of incident/verification_lifecycle.go
--   Incident/Lifecycle: incident/verification_lifecycle.go (BeginFencedVerification,
--     CompleteFencedVerification)
--   Incident/Scheduler: incident/verification_scheduler.go and
--     incident/verification_resolution_scheduler.go
--   Approval: approval/approval.go (plans and the validation of approvals)
--   Approval/Store: approval/store.go (MemoryStore)
--   Approval/PlanStore: approval/plan_store.go (MemoryPlanStore, ValidatePlan)
-- and from src/sre-agent-v2:
--   Agent/Config: config.go (agentConfig)
--   Agent/Evidence: evidence.go and decision.go (what is known of a pod)
--   Agent/Decision, Agent/Policy: decision.go (Decision.Validate), policy.go (EvaluateDecision)
--   Agent/Memory: action_memory.go (Snapshot, Record), with types of configmap_remediation_state.go
--   Agent/Action: agent_verification.go (beginVerification)
--   Agent/Action/Attempting: agent_action_attempt.go (beginActionAttempt, completeActionAttempt)
--   Agent/Action/Resuming: waiting_approval.go (resumeWaitingApproval and what it calls)
--   Agent/Action/Interleaving: the same call in seven parts, between which others may run
--   Agent/Execution, Agent/Execution/Executing: agent_verification.go (executeVerification)
--   Agent/Kubernetes: kubernetes_verification_executor.go (Verify)
--   Agent/Worker: agent_verification_worker.go (runVerificationWorkerOnce)
--   Agent/Worker/Loop, Agent/Worker/Backoff: agent_verification_worker.go (runVerificationWorker)
-- The other files beside them prove; Scenarios runs the code on concrete data; Prelude has what all
-- of them share: tests, texts, maps, machine numbers and methods.
--
-- How the code is read:
--   A method is a function from a state to a result and a state (Prelude/Method). What a method does
--   under its mutex is one step; `Resolve` takes two, since it asks for the evidence before it locks.
--   Orders of calls are lists of calls, and reachability for the registry. A call of
--   resumeWaitingApproval, which holds no lock, may be interrupted between its parts, each of which calls
--   the attempt store or Kubernetes at most once; what else a part calls changes neither of them.
--   A map is a list of entries that is read at the first match. Go ranges over a map in any order; here
--   the order is that of the entries, and what is said of a range is said of every list of entries.
--   Two ranges may meet two orders: where one call of RequireRecovered follows another, the second is
--   on the entries in any order.
--   uint64 is a natural number, whose increment wraps at 2 ^ 64. int64 and int, of 64 bits, are
--   integers whose increment wraps too. A time is the nanoseconds since Go's zero time, so
--   instants before year 1 have no counterpart; a duration is an integer, and where time and
--   duration fall below zero the sum is 0.
--   A context is asked again and again, and may be cancelled at any time: it is a function from the
--   number of the question to the answer. A store that is called gets the rest of the answers.
--   SHA-256 is a parameter: of the digests nothing is assumed. That a new incident's identifier is not
--   taken is a hypothesis of the theorems on histories of the registry, as IsFresh of Incident/Steps.
--   The stores behind the registry are records of methods over a state of their own. Most theorems hold
--   for any store; Incident/Resolution takes the memory store.
--   Errors keep the sentinel and the fixed part of the message. Copies such as cloneVerification are
--   values. A nil receiver is not modelled; a nil context is, where the code tests for it.
--   No loop runs on fuel but the printing of a number in Prelude/Text, whose fuel is the number. The
--   worker's endless loop is run for a given number of rounds, and what is said of it holds for each.
--   The agent's clock, its context, the executor and the answers of Kubernetes are what an action or an
--   item of work gets from without: each call has a reading or an answer of its own, and no two are
--   related. A result that comes with false is an error here, namely the code that it is logged with;
--   nothing else of the logs is modelled. A client, store or clock that may be nil is a flag or an
--   option. What the agent has had Kubernetes delete is kept as the list of the plans.
--   A float64 is its 64 bits, whose comparison is a parameter; int32 counts wrap at 2 ^ 31.
--   Objects of Kubernetes have the fields that are read, and what metav1 makes of a pod's owners and of
--   a selector is part of them.
--
-- Not modelled: the cycle of the agent and the handling of an alert in agent.go, whose direct path also
-- deletes pods (executeApprovedAction of remediation.go), so that what is said of deletions is said of
-- incidents that waited for approval; the parsing of decisions, which is encoding/json's; the
-- PostgreSQL adapters, whose statements the database runs; the state in a ConfigMap; the clients of
-- Kubernetes, Prometheus and Ollama, which are input and output; the validation of the configuration;
-- health, metrics and start-up. Logs and the durations in them are not modelled.
pub mod Prelude
pub mod Remediation
pub mod Incident
pub mod Approval
pub mod Agent
mod Scenarios
