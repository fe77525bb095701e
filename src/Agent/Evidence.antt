-- ===== src/Agent/Evidence.antt =====
-- evidence.go and decision.go: what is known of a pod, as far as the agent's actions read it.
use sre_agent_gitops.Prelude.{String}
use sre_agent_gitops.Remediation.Verification.{VerificationSubject}
use sre_agent_gitops.Approval.{Target}

pub record DecisionTarget : Type 0 where
  pub cluster : String
  pub namespace : String
  pub kind : String
  pub name : String
  pub uid : String

pub record OwnerEvidence : Type 0 where
  pub kind : String
  pub name : String
  pub uid : String

-- the fields that what is modelled reads
pub record PodEvidence : Type 0 where
  pub target : DecisionTarget
  pub owner : OwnerEvidence

-- `verificationSubjectForPod`
abbrev pub subject_for_pod : PodEvidence → VerificationSubject
subject_for_pod evidence = record {
  cluster = evidence.target.cluster;
  namespace = evidence.target.namespace;
  kind = evidence.owner.kind;
  name = evidence.owner.name;
  uid = evidence.owner.uid;
}

-- the target that a plan for the pod has
abbrev pub expected_target : PodEvidence → Target
expected_target evidence = record {
  cluster = evidence.target.cluster;
  namespace = evidence.target.namespace;
  kind = evidence.target.kind;
  name = evidence.target.name;
  uid = evidence.target.uid;
}
