-- ===== src/Api/Equality.antt =====
-- Go's `==` on the comparable structs of api/v1alpha1.
use agenova.Prelude.{Bool, true, ◌&&◌, ◌≡◌, ◌↔◌, Comparable, ◌==◌, string_eq, ==_iff, arith}
use agenova.Api.{Principal, Action, PolicyReference, BackendIdentity, Decision}

pub policy_reference_iff :
    (a b : PolicyReference) → ((a.id == b.id && a.version == b.version) ≡ true) ↔ (a ≡ b)
policy_reference_iff a b = ground (arith, ==_iff a.id b.id, ==_iff a.version b.version)

instance abbrev pub policy_reference_eq : Comparable PolicyReference
policy_reference_eq = record {
  is_same = λ a b. a.id == b.id && a.version == b.version;
  is_same_iff = policy_reference_iff;
}

pub backend_identity_iff :
    (a b : BackendIdentity)
    → ((a.backend == b.backend && a.worker_id == b.worker_id && a.allocation_id == b.allocation_id)
        ≡ true)
      ↔ (a ≡ b)
backend_identity_iff a b = ground (
  arith,
  ==_iff a.backend b.backend,
  ==_iff a.worker_id b.worker_id,
  ==_iff a.allocation_id b.allocation_id,
)

instance abbrev pub backend_identity_eq : Comparable BackendIdentity
backend_identity_eq = record {
  is_same = λ a b.
      a.backend == b.backend && a.worker_id == b.worker_id && a.allocation_id == b.allocation_id;
  is_same_iff = backend_identity_iff;
}

pub principal_iff :
    (a b : Principal)
    → ((a.subject == b.subject
          && a.team == b.team
          && a.authentication_context == b.authentication_context)
        ≡ true)
      ↔ (a ≡ b)
principal_iff a b = ground (
  arith,
  ==_iff a.subject b.subject,
  ==_iff a.team b.team,
  ==_iff a.authentication_context b.authentication_context,
)

instance abbrev pub principal_eq : Comparable Principal
principal_eq = record {
  is_same = λ a b.
      a.subject == b.subject
      && a.team == b.team
      && a.authentication_context == b.authentication_context;
  is_same_iff = principal_iff;
}

pub action_iff :
    (a b : Action)
    → ((a.name == b.name && a.project == b.project && a.template_ref == b.template_ref) ≡ true)
      ↔ (a ≡ b)
action_iff a b =
    ground (
      arith,
      ==_iff a.name b.name,
      ==_iff a.project b.project,
      ==_iff a.template_ref b.template_ref,
    )

instance abbrev pub action_eq : Comparable Action
action_eq = record {
  is_same = λ a b. a.name == b.name && a.project == b.project && a.template_ref == b.template_ref;
  is_same_iff = action_iff;
}

abbrev pub decision_beq : Decision → Decision → Bool
decision_beq a b =
    a.id == b.id
    && a.principal_ref == b.principal_ref
    && a.action == b.action
    && a.result == b.result
    && a.policy_ref == b.policy_ref
    && a.reason == b.reason

pub decision_iff : (a b : Decision) → (decision_beq a b ≡ true) ↔ (a ≡ b)
decision_iff a b = ground (
  arith,
  ==_iff a.id b.id,
  ==_iff a.principal_ref b.principal_ref,
  ==_iff a.action b.action,
  ==_iff a.result b.result,
  ==_iff a.policy_ref b.policy_ref,
  ==_iff a.reason b.reason,
)

instance abbrev pub decision_eq : Comparable Decision
decision_eq = record { is_same = decision_beq; is_same_iff = decision_iff }
