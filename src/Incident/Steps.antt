-- ===== src/Incident/Steps.antt =====
-- internal/incident: the registry as a state machine, over every method that may change it.
use sre_agent_gitops.Incident.Failures.{
  KeepsRegistry, begin_fails, claim_pending_fails, claim_recovered_fails, complete_fails,
}
use sre_agent_gitops.Prelude.Method.{Result, err, final, ok, result}
use sre_agent_gitops.Incident.Fence.{as_resolved, resolve_evidence, resolve_locked}
use sre_agent_gitops.Incident.Scheduling.{
  Scheduled, claim_pending_inv, claim_recovered_inv, first_claimable-IsClaimable,
}
use sre_agent_gitops.Prelude.{
  Bool, Context, Duration, Option, Sha256, String, Time, ap, arith, false, inl, inr, next_u64, none,
  refl, some, sym, text_eq, true, ◌&&◌, ◌∙◌, ◌≡◌, ◌⊎◌,
}
use sre_agent_gitops.Prelude.Dict.{lookup}
use sre_agent_gitops.Incident.{
  Claim, ClaimCommand, Error, Incident, Observation, ResolveCommand, State, TransitionCommand,
  detected, diagnosed, other, resolved, verifying, waiting_approval,
}
use sre_agent_gitops.Incident.Rules.{
  advanced, idempotency_key_for, incident_id_for, is_held_by_other, is_leased, is_valid_transition,
  new_claim, new_incident, transitioned,
}
use sre_agent_gitops.Incident.Registry.{
  Registry, claim, claim_of, incident_of, observe, put_claim, put_incident, retire, transition,
}
use sre_agent_gitops.Incident.Lifecycle.{
  BeginFencedVerificationCommand, CompleteFencedVerificationCommand,
  FencedVerificationCompletionResult, FencedVerificationResult, begin_fenced_verification,
  complete_fenced_verification, verifying_from,
}
use sre_agent_gitops.Incident.Scheduler.{
  ScheduleCommand, VerificationClaim, claim_pending_verification,
  claim_recovered_verification_resolution, is_unresolved,
}
use sre_agent_gitops.Incident.Calls.{begin_inv, complete_inv, evidence_cases, with_store}
use sre_agent_gitops.Incident.Changes.{
  admitted, claim_change, observe_change, resolve_locked_change, transition_change,
}
use mathlib.Core.Path.{subst}
use sre_agent_gitops.Remediation.Verification.{VerificationStatus, other, pending, recovered}

-- The life of an incident.
pub data Edge : State → State → Type 0 where
  diagnose : Edge detected diagnosed
  dismiss : Edge detected resolved
  await : Edge diagnosed waiting_approval
  verify : Edge diagnosed verifying
  close : Edge diagnosed resolved
  resume : Edge waiting_approval verifying
  recover : Edge verifying resolved

ruleset edges = (diagnose, dismiss, await, verify, close, resume)

-- What `Transition` accepts is an edge.
valid-Edge : (a b : State) → is_valid_transition a b ≡ true → Edge a b
unfolding is_valid_transition
valid-Edge detected b h = grind (arith, edges)
valid-Edge diagnosed b h = grind (arith, edges)
valid-Edge waiting_approval b h = grind (arith, edges)
valid-Edge verifying b h = absurd (ground arith)
valid-Edge resolved b h = absurd (ground arith)
valid-Edge (other s) b h = absurd (ground arith)

-- A state change: along an edge, under the next version.
pub record Moves (x y : Incident) : Type 0 where
  pub id : y.id ≡ x.id
  pub key : y.idempotency_key ≡ x.idempotency_key
  pub version : y.version ≡ next_u64 x.version
  pub edge : Edge x.state y.state

verifying-Moves : (x y : Incident) → verifying_from x.state x ≡ some y → (x ≡ y) ⊎ Moves x y
verifying-Moves x y h = go x.state refl h
  where
    go : (s : State) → x.state ≡ s → verifying_from s x ≡ some y → (x ≡ y) ⊎ Moves x y
    go detected e h = absurd (ground arith)
    go diagnosed e h = inr (record {
      id = ground arith;
      key = ground arith;
      version = ground arith;
      edge = subst (λ a. Edge a y.state) (sym e) (subst (Edge diagnosed) (ground arith) verify);
    })
    go waiting_approval e h = inr (record {
      id = ground arith;
      key = ground arith;
      version = ground arith;
      edge =
          subst (λ a. Edge a y.state) (sym e) (subst (Edge waiting_approval) (ground arith) resume);
    })
    go verifying e h = inl (ground arith)
    go resolved e h = absurd (ground arith)
    go (other s) e h = absurd (ground arith)

verifying_from-state :
    (s : State) (x y : Incident) → x.state ≡ s → verifying_from s x ≡ some y → y.state ≡ verifying
verifying_from-state detected x y e h = absurd (ground arith)
verifying_from-state _ x y e h = ground arith

-- Only a resolved incident is retired.
retire_open : {S : Type 0} (y : Incident) (r : Registry S) → y.state ≡ verifying → r ≡ retire y r
retire_open y r h = ground arith

-- A claim does not take a running lease from another holder.
abbrev pub MayClaim : String → Time → Option Claim → Type 0
MayClaim holder now current = (is_held_by_other holder current && is_leased now current) ≡ false

-- The steps of the methods, each of which holds the lock of what it changes. `Resolve` takes two: the
-- evidence is asked for before the lock is taken.
pub data Call : Type 0 where
  observes : Context → Observation → Call
  claims_for : Context → ClaimCommand → Call
  transitions : Context → TransitionCommand → Call
  asks_evidence : Context → ResolveCommand → Call
  resolves : Context → ResolveCommand → Call
  begins : Option Context → BeginFencedVerificationCommand → Call
  completes : Option Context → CompleteFencedVerificationCommand → Call
  schedules_pending : Option Context → ScheduleCommand → Call
  schedules_recovered : Option Context → ScheduleCommand → Call

module _ {S : Type 0} where
  -- The ways in which a method changes the registry, the store behind it apart.
  pub data Change (r t : Registry S) : Type 0 where
    stores : (s : S) → t ≡ with_store s r → Change r t
    admits :
        (x : Incident)
        → x.state ≡ detected
        → lookup x.idempotency_key r.active_by_key ≡ none
        → incident_of x.id r ≡ none
        → t ≡ admitted x r
        → Change r t
    claims :
        (s : S) (id : String) (x : Incident) (holder : String) (now : Time) (lease : Duration)
        → incident_of id r ≡ some x
        → MayClaim holder now (claim_of x.id r)
        → t ≡ put_claim (new_claim (advanced x) holder now lease) now (with_store s r)
        → Change r t
    moves :
        (s : S) (id : String) (x y : Incident)
        → incident_of id r ≡ some x
        → Moves x y
        → t ≡ retire y (put_incident y (with_store s r))
        → Change r t
    rewrites :
        (s : S) (id : String) (x : Incident)
        → incident_of id r ≡ some x
        → t ≡ put_incident x (with_store s r)
        → Change r t

module _ {S : Type 0} (sha : Sha256) where
  unfoldable pub step : Call → Registry S → Registry S
  step (observes ctx o) r = final (observe sha ctx o) r
  step (claims_for ctx c) r = final (claim ctx c) r
  step (transitions ctx c) r = final (transition ctx c) r
  step (asks_evidence ctx c) r = final (resolve_evidence ctx c) r
  step (resolves ctx c) r = final (resolve_locked ctx c) r
  step (begins ctx c) r = final (begin_fenced_verification ctx c) r
  step (completes ctx c) r = final (complete_fenced_verification ctx c) r
  step (schedules_pending ctx c) r = final (claim_pending_verification ctx c) r
  step (schedules_recovered ctx c) r = final (claim_recovered_verification_resolution ctx c) r

  -- The identifier that an observation would give a new incident.
  abbrev pub next_id : Observation → Registry S → String
  next_id o r = incident_id_for sha (idempotency_key_for sha o) (next_u64 r.next_sequence)

  -- A new incident's identifier is not taken: the digests of two keys and sequence numbers differ.
  abbrev pub IsFresh : Call → Registry S → Type 0
  IsFresh (observes ctx o) r = incident_of (next_id o r) r ≡ none
  IsFresh _ r = Unit {0}

  granted-Change :
      (status : VerificationStatus) (eligible : Incident → Bool) (c : ScheduleCommand)
      (r t : Registry S) (out : Option VerificationClaim)
      → Scheduled status eligible c r t out
      → Change r t
  granted-Change status eligible c r t out (none, scan, (e, w)) = stores scan.after w
  granted-Change status eligible c r t out (some (v, x), scan, (e, w)) =
      let p =
        first_claimable-IsClaimable status eligible c.now (with_store scan.after r) scan.listed v x
          scan.found_first in
      claims scan.after v.action_key.incident_id x c.holder_id c.now c.lease_duration p.found
        (ground (arith, p.free)) w

  failed-Change : (r t : Registry S) → KeepsRegistry r t → Change r t
  failed-Change r t h = stores t.store h

  begin-Change :
      (ctx : Option Context) (c : BeginFencedVerificationCommand) (r : Registry S)
      → Change r (final (begin_fenced_verification ctx c) r)
  begin-Change ctx c r = go (result (begin_fenced_verification ctx c) r) refl
    where
      go :
          (o : Result Error FencedVerificationResult)
          → result (begin_fenced_verification ctx c) r ≡ o
          → Change r (final (begin_fenced_verification ctx c) r)
      go (err e) h =
          failed-Change r (final (begin_fenced_verification ctx c) r) (begin_fails ctx c r (rw h))
      go (ok out) h =
          let b = begin_inv ctx c r out h in
          elim (verifying-Moves b.current out.incident b.moved) [
            | inl same ↦ rewrites b.after c.incident_id b.current b.passed.found (rw same b.written)
            | inr m ↦ moves b.after c.incident_id b.current out.incident b.passed.found m (
                b.written
                ∙ retire_open out.incident (put_incident out.incident (with_store b.after r))
                    (verifying_from-state b.current.state b.current out.incident refl b.moved))
          ]

  complete-Change :
      (ctx : Option Context) (c : CompleteFencedVerificationCommand) (r : Registry S)
      → Change r (final (complete_fenced_verification ctx c) r)
  complete-Change ctx c r = go (result (complete_fenced_verification ctx c) r) refl
    where
      go :
          (o : Result Error FencedVerificationCompletionResult)
          → result (complete_fenced_verification ctx c) r ≡ o
          → Change r (final (complete_fenced_verification ctx c) r)
      go (err e) h =
          failed-Change r (final (complete_fenced_verification ctx c) r)
            (complete_fails ctx c r (rw h))
      go (ok out) h = let d = complete_inv ctx c r out h in stores d.after d.kept

  pending-Change :
      (ctx : Option Context) (c : ScheduleCommand) (r : Registry S)
      → Change r (final (claim_pending_verification ctx c) r)
  pending-Change ctx c r = go (result (claim_pending_verification ctx c) r) refl
    where
      go :
          (o : Result Error (Option VerificationClaim))
          → result (claim_pending_verification ctx c) r ≡ o
          → Change r (final (claim_pending_verification ctx c) r)
      go (err e) h =
          failed-Change r (final (claim_pending_verification ctx c) r)
            (claim_pending_fails ctx c r (rw h))
      go (ok out) h =
          granted-Change pending (λ _. true) c r (final (claim_pending_verification ctx c) r) out
            (claim_pending_inv ctx c r out h)

  recovered-Change :
      (ctx : Option Context) (c : ScheduleCommand) (r : Registry S)
      → Change r (final (claim_recovered_verification_resolution ctx c) r)
  recovered-Change ctx c r = go (result (claim_recovered_verification_resolution ctx c) r) refl
    where
      go :
          (o : Result Error (Option VerificationClaim))
          → result (claim_recovered_verification_resolution ctx c) r ≡ o
          → Change r (final (claim_recovered_verification_resolution ctx c) r)
      go (err e) h =
          failed-Change r (final (claim_recovered_verification_resolution ctx c) r)
            (claim_recovered_fails ctx c r (rw h))
      go (ok out) h =
          granted-Change recovered is_unresolved c r
            (final (claim_recovered_verification_resolution ctx c) r) out
            (claim_recovered_inv ctx c r out h)

  -- Whatever a method returns, if a new incident's identifier is not taken, its step changes nothing
  -- but the store behind the registry, or admits a new incident, or grants a claim that takes no
  -- running lease from another holder, or moves an incident along an edge under its next version, or
  -- writes an incident that is there back as it is.
  pub call-Change : (call : Call) (r : Registry S) → IsFresh call r → Change r (step call r)
  unfolding step
  call-Change (observes ctx o) r f =
      observe_change sha (Change r) ctx o r (stores r.store refl) (λ n.
        admits (new_incident sha (idempotency_key_for sha o) (next_u64 r.next_sequence)) refl n f
          refl)
  call-Change (claims_for ctx c) r f =
      claim_change (Change r) ctx c r (stores r.store refl)
        (λ x e v l. claims r.store c.incident_id x c.holder_id c.now c.lease_duration e l refl)
  call-Change (transitions ctx c) r f =
      transition_change (Change r) ctx c r (stores r.store refl) (λ x e v d.
        moves r.store c.incident_id x (transitioned x c) e
          (record { id = refl; key = refl; version = refl; edge = valid-Edge x.state c.to d }) refl)
  call-Change (asks_evidence ctx c) r f = elim (evidence_cases ctx c r) [
    | inl (e, s, h) ↦ stores s (ap (λ o. o.1) h)
    | inr (s, h, e) ↦ stores s (ap (λ o. o.1) e)
  ]
  call-Change (resolves ctx c) r f =
      resolve_locked_change (Change r) ctx c r (stores r.store refl) (λ x y p v.
        moves r.store c.incident_id x (as_resolved x c.verification_id) p.found
          (record {
            id = refl;
            key = refl;
            version = refl;
            edge = subst (λ a. Edge a resolved) (sym v) recover;
          })
          refl)
  call-Change (begins ctx c) r f = begin-Change ctx c r
  call-Change (completes ctx c) r f = complete-Change ctx c r
  call-Change (schedules_pending ctx c) r f = pending-Change ctx c r
  call-Change (schedules_recovered ctx c) r f = recovered-Change ctx c r
