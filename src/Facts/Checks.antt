-- ===== src/Facts/Checks.antt =====
-- internal/facts/journal.go: what `append` demands of a fact before it is recorded, in the order of
-- the source. A check returns the error's message; the last ones return the invocation's new state.
use Prim.Native.String.{len, slice, ◌++◌}
use agenova.Prelude.{
  ℕ, String, Bool, true, false, not, ◌&&◌, ◌||◌, List, [], ◌∷◌, Option, none, some, Result, ok, err,
  ◌>>=◌, ◌>>◌, refuse_if, get_or, ◌==◌, ◌!=◌, string_eq, nat_eq, if◌then◌else◌, ltb, any,
}
use agenova.Prelude.Int.{pos, ltb_ℤ, int_eq}
use agenova.Prelude.Texts.{codes, contains_any, has_prefix}
use agenova.Api.{Principal, Decision, EffectiveAuthority, BackendIdentity}
use agenova.Api.Equality.{policy_reference_eq, backend_identity_eq}
use agenova.Facts.{Fact, Journal, valid_decision}

-- A check that has nothing to say.
abbrev passed : Result String (Unit {0})
passed = ok tt

-- strings.Trim(s, "0123456789abcdef") == ""
abbrev is_hex : ℕ → Bool
is_hex c = any (λ d. c == d) (codes "0123456789abcdef")

all_hex : List ℕ → Bool
all_hex [] = true
all_hex (c ∷ s) = is_hex c && all_hex s

unfoldable pub content_check : Fact → Result String (Unit {0})
unfolding all_hex has_prefix
content_check f =
    if f.content_ref == ""
    then passed
    else refuse_if
        (len f.content_ref != 40
          || not (has_prefix (codes f.content_ref) (codes "content:"))
          || not (all_hex (codes (slice f.content_ref 8 (len f.content_ref)))))
        "invalid activity content reference"

unfoldable pub claim_check : Journal → Fact → Result String (Unit {0})
claim_check j f =
    refuse_if (f.claim_id != "" && get_or "" (j.claims f.claim_id) != f.request_ref)
      "claim/request correlation mismatch"

-- "\r\n\x00"
abbrev line_breaks : List ℕ
line_breaks = 13 ∷ 10 ∷ 0 ∷ []

unfoldable pub action_check : Fact → Result String (Unit {0})
unfolding contains_any has_prefix
action_check f = do
  refuse_if (ltb_ℤ f.turn (pos 0) || ltb_ℤ (pos 1000) f.turn) "invalid action turn"
  if f.action_kind == "" && f.action_tool == "" && f.action_resource == "" then passed else do
    refuse_if
        (f.kind != "WorkerActivity"
          || f.operation != "ActionValidated"
          || ltb_ℤ f.turn (pos 1)
          || not (has_prefix (codes f.reason_code) (codes "agent-action-")))
        "public action requires a validated model action"
    refuse_if
        (f.action_kind != "tool" && f.action_kind != "finish" && f.action_kind != "native_https")
        "invalid public action"
    refuse_if
        (ltb 128 (len f.action_tool)
          || ltb 256 (len f.action_resource)
          || contains_any (codes (f.action_tool ++ f.action_resource)) line_breaks)
        "unbounded public action"
    refuse_if (f.action_kind == "tool" && (f.action_tool == "" || f.action_resource == ""))
        "tool action requires bounded target"
    refuse_if (f.action_kind != "tool" && (f.action_tool != "" || f.action_resource != ""))
        "non-tool action cannot declare tool target"

abbrev pub is_action_of : Fact → Fact → Bool
is_action_of f prior =
    prior.id == f.action_ref
    && prior.request_ref == f.request_ref
    && prior.claim_id == f.claim_id
    && prior.operation == "ActionValidated"
    && prior.action_kind == "tool"
    && prior.action_tool == f.target
    && prior.turn == f.turn

unfoldable pub action_ref_check : Journal → Fact → Result String (Unit {0})
action_ref_check j f =
    refuse_if
      (f.action_ref != "" && (f.kind != "ToolDecision" || not (any (is_action_of f) j.facts)))
      "tool decision/action correlation mismatch"

-- The loop over the earlier reservations of the request: how many there are, if none clashes.
unfoldable pub count_reservations : Fact → List Fact → ℕ → Result String ℕ
count_reservations f [] count = ok count
count_reservations f (prior ∷ rest) count =
    let mine = prior.kind == "ModelBudgetReservation" && prior.request_ref == f.request_ref in
    let next = count_reservations f rest (if mine then ℕ.suc count else count) in
    if mine
      && (prior.invocation_id == f.invocation_id || prior.model_call_limit != f.model_call_limit)
    then err "duplicate or changed budget fact"
    else next

abbrev pub is_bad_reservation : Fact → Bool
is_bad_reservation f =
    f.claim_id == ""
    || f.invocation_id == ""
    || f.operation != "model.invoke"
    || f.reason_code != "model-call-reserved"
    || ltb_ℤ f.model_call_limit (pos 1)
    || ltb_ℤ (pos 1000) f.model_call_limit
    || ltb_ℤ f.model_call_count (pos 1)
    || ltb_ℤ f.model_call_limit f.model_call_count

unfoldable pub reservation_check : Journal → Fact → Result String (Unit {0})
unfolding count_reservations
reservation_check j f = do
  refuse_if (is_bad_reservation f) "invalid budget fact"
  count ← count_reservations f j.facts 0
  refuse_if (f.model_call_count != pos (ℕ.suc count)) "budget count is not monotonic"

unfoldable pub budget_check : Journal → Fact → Result String (Unit {0})
unfolding reservation_check
budget_check j f =
    if f.kind == "ModelBudgetReservation"
    then reservation_check j f
    else refuse_if (f.model_call_count != pos 0 || f.model_call_limit != pos 0)
        "budget fields require reservation"

-- `p` holds of what the pointer names, if it is not nil.
abbrev pub given {ℓ} : {A : Type ℓ} → (A → Bool) → Option A → Bool
given p none = false
given p (some a) = p a

unfoldable pub decision_check : Principal → Fact → Option Decision → Result String (Unit {0})
unfolding valid_decision
decision_check principal f none = passed
decision_check principal f (some d) = do
  refuse_if
      (d.id == ""
        || d.principal_ref != principal.subject
        || d.action == ""
        || d.reason == ""
        || d.policy_ref.id == ""
        || d.policy_ref.version == ""
        || f.reason_code == "")
      "decision correlation and stable reason are required"
  refuse_if (not (valid_decision d.result)) "invalid decision result"
  refuse_if (f.result != "" && f.result != d.result) "decision result mismatch"
  refuse_if (d.result != "Allow" && f.claim_id != "" && f.invocation_id == "")
      "pre-claim decision cannot carry a claim"
  refuse_if (given (λ p. p != d.policy_ref) f.policy_ref) "decision policy correlation mismatch"

unfoldable pub authority_check : Journal → Fact → Result String (Unit {0})
authority_check j f =
    refuse_if
      (given
        (λ (a : EffectiveAuthority).
          f.claim_id == "" || a.id != get_or "" (j.authorities f.claim_id))
        f.authority)
      "authority/claim correlation mismatch"

unfoldable pub backend_check : Journal → Fact → Option BackendIdentity → Result String (Unit {0})
backend_check j f none = passed
backend_check j f (some id) = do
  refuse_if (f.claim_id == "" || id.backend == "" || id.worker_id == "")
      "backend identity requires a resolved claim"
  refuse_if (given (λ previous. previous != id) (j.backends f.claim_id))
      "claim backend identity changed"
  refuse_if (given (λ owner. owner != f.claim_id) (j.backend_owners id))
      "backend identity belongs to another claim"

unfoldable pub invocation_check : Journal → Fact → Result String (Unit {0})
unfolding valid_decision
invocation_check j f = do
  refuse_if (f.result != "" && not (valid_decision f.result)) "invalid result"
  refuse_if (f.invocation_id != "" && f.claim_id == "") "invocation requires a resolved claim"
  refuse_if
      (f.invocation_id != ""
        && given (λ owner. owner != f.claim_id) (j.invocations f.invocation_id))
      "invocation belongs to another claim"
