-- ===== src/Facts/Reserve.antt =====
-- internal/facts/model_budget.go: ReserveModelCall.
use agenova.Prelude.{
  ℕ, String, Bool, true, false, ◌&&◌, ◌||◌, List, [], ◌∷◌, Option, none, Result, ok, err, ◌==◌,
  ◌!=◌, string_eq, nat_eq, if◌then◌else◌,
}
use agenova.Prelude.Int.{ℤ, pos, int_eq, ltb_ℤ, leb_ℤ}
use agenova.Api.Equality.{policy_reference_eq, backend_identity_eq}
use agenova.Facts.{Fact, Journal, for_request}
use agenova.Facts.Append.{Sink, append}

-- The loop of ReserveModelCall over the request's facts.
unfoldable pub count_calls : String → ℤ → List Fact → ℕ → Result String ℕ
count_calls id limit [] count = ok count
count_calls id limit (f ∷ fs) count =
    let mine = f.kind == "ModelBudgetReservation" in
    let next = count_calls id limit fs (if mine then ℕ.suc count else count) in
    if mine && (f.invocation_id == id || f.model_call_limit != limit)
    then err "duplicate or changed model budget reservation"
    else next

abbrev pub reservation : String → String → String → ℤ → ℕ → Fact
reservation ref claim id limit count = record {
  turn = pos 0;
  action_ref = "";
  model_call_count = pos (ℕ.suc count);
  model_call_limit = limit;
  action_kind = "";
  action_tool = "";
  action_resource = "";
  content_ref = "";
  id = "";
  sequence = 0;
  timestamp = 0;
  kind = "ModelBudgetReservation";
  request_ref = ref;
  claim_id = claim;
  invocation_id = id;
  decision = none;
  result = "";
  reason_code = "model-call-reserved";
  reason = "";
  policy_ref = none;
  authority = none;
  authority_changes = [];
  backend_identity = none;
  operation = "model.invoke";
  target = "";
  provider_status = "";
  result_ref = "";
  truncated = false;
}

module _ {W : Type 0} where
  -- `return err == nil, err`
  abbrev pub reserved : Journal × W × Result String Fact → Journal × W × Result String Bool
  reserved (j, w, ok f) = (j, w, ok true)
  reserved (j, w, err e) = (j, w, err e)

  -- What the loop's outcome leads to.
  abbrev pub reserve :
      Option (Sink W)
      → Journal
      → W
      → ℕ
      → String
      → String
      → String
      → ℤ
      → Result String ℕ
      → Journal × W × Result String Bool
  reserve default j w now ref claim id limit (err e) = (j, w, err e)
  reserve default j w now ref claim id limit (ok count) =
      if leb_ℤ limit (pos count)
      then (j, w, ok false)
      else reserved (append default j w now (reservation ref claim id limit count))

  unfoldable pub reserve_model_call :
      Option (Sink W)
      → Journal
      → W
      → ℕ
      → String
      → String
      → String
      → ℤ
      → Journal × W × Result String Bool
  unfolding count_calls append for_request
  reserve_model_call default j w now ref claim id limit =
      if id == "" || ltb_ℤ limit (pos 1) || ltb_ℤ (pos 1000) limit
      then (j, w, err "invalid model budget reservation")
      else reserve default j w now ref claim id limit (count_calls id limit (for_request j ref) 0)
