-- ===== src/Facts/Append.antt =====
-- internal/facts/journal.go: the methods that append a fact.
use Prim.Native.String.{◌++◌}
use agenova.Prelude.{
  ℕ, ◌+◌, ◌%◌, ◌^◌, ◌*◌, String, [], ◌∷◌, Option, none, some, Result, ok, err, ◌>>=◌, ◌>>◌,
  refuse_if, is_some, ◌==◌, string_eq, nat_eq, if◌then◌else◌, leb, length, get_or, update,
}
use mathlib.Core.List
use agenova.Prelude.Decimal.{decimal}
use agenova.Prelude.Int.{int_eq}
use agenova.Api.{Principal, BackendIdentity}
use agenova.Api.Equality.{policy_reference_eq, backend_identity_eq}
use agenova.Facts.{Fact, Journal, InvocationState, no_state, new_journal}
use agenova.Facts.Checks.{
  content_check, claim_check, action_check, action_ref_check, budget_check, decision_check,
  authority_check, backend_check, invocation_check,
}
use agenova.Facts.Advance.{stages}

-- A commit callback writes to the durable store `W`, and may fail.
abbrev pub Sink : Type 0 → Type 0
Sink W = W → Fact → W × Option String

unfoldable pub new_durable_journal : {W : Type 0} → ℕ → Option (Sink W) → Result String Journal
unfolding new_journal
new_durable_journal last none = err "durable fact commit is required"
new_durable_journal last (some commit) = ok (new_journal last)

-- The registered principal, if the fact names its request and has a kind.
abbrev pub requester : Journal → Fact → Result String Principal
requester j f = elim (j.requests f.request_ref) [
  | none ↦ err "registered request and fact kind are required"
  | some principal ↦
      if f.kind == "" then err "registered request and fact kind are required" else ok principal
]

-- Everything that `append` checks before it assigns a sequence.
unfoldable pub validate : Journal → Fact → Result String InvocationState
unfolding stages
validate j f = do
  content_check f
  principal ← requester j f
  claim_check j f
  action_check f
  action_ref_check j f
  budget_check j f
  decision_check principal f f.decision
  authority_check j f
  backend_check j f f.backend_identity
  invocation_check j f
  stages f (get_or no_state (j.invocation_states f.invocation_id))

-- uint64 arithmetic wraps.
abbrev pub u64 : ℕ → ℕ
u64 n = n % 2 ^ 64

unfoldable pub next_sequence : Journal → ℕ
next_sequence j = u64 (u64 (j.start_sequence + u64 (length j.facts)) + 1)

-- Nanoseconds from year 1 to year 10000: time.Time cannot be encoded from there on.
pub year_10000 : ℕ
year_10000 = 3652059 * 86400 * 1000000000

-- cloneFact, the JSON round trip: the fact itself, unless its time has no encoding.
unfoldable pub clone_fact : Fact → Result String Fact
unfolding year_10000
clone_fact f = if leb year_10000 f.timestamp then err "fact is not serializable" else ok f

-- The identity, sequence and time that a fact gets. `now` is what the clock reads.
abbrev pub stamped : Journal → ℕ → Fact → Fact
stamped j now f = record f {
  id = if f.id == "" then "fact:" ++ decimal (next_sequence j) else f.id;
  sequence = next_sequence j;
  timestamp = if f.timestamp == 0 then now else f.timestamp;
}

unfoldable pub stamp : Journal → ℕ → Fact → Result String Fact
unfolding next_sequence clone_fact
stamp j now f = do
  refuse_if (leb (next_sequence j) j.start_sequence) "fact sequence exhausted"
  refuse_if (is_some (j.ids (stamped j now f).id)) "fact ID already exists"
  clone_fact (stamped j now f)

-- The assignments under `if copy.InvocationID != ""`, and under `if copy.BackendIdentity != nil`.
abbrev pub note_backend : Journal → Fact → Option BackendIdentity → Journal
note_backend j f none = j
note_backend j f (some id) = record j {
  backends = update j.backends f.claim_id id;
  backend_owners = update j.backend_owners id f.claim_id;
}

abbrev pub note_invocation : Journal → Fact → InvocationState → Journal
note_invocation j f stage = if f.invocation_id == "" then j else record j {
  invocations = update j.invocations f.invocation_id f.claim_id;
  invocation_states = update j.invocation_states f.invocation_id stage;
}

unfoldable pub publish : Journal → Fact → InvocationState → Journal
publish j f stage =
    let noted = note_backend (note_invocation j f stage) f f.backend_identity in
    record noted { ids = update j.ids f.id tt; facts = List.◌++◌ j.facts (f ∷ []) }

-- What `append` has ready for the commit: the stamped fact and the invocation's new state.
unfoldable pub prepare : Journal → ℕ → Fact → Result String (Fact × InvocationState)
unfolding validate stamp
prepare j now f = do stage ← validate j f; stamped ← stamp j now f; ok (stamped, stage)

module _ {W : Type 0} where
  -- The commit that applies: the override, or the journal's own.
  abbrev pub chosen : Option (Sink W) → Option (Sink W) → Option (Sink W)
  chosen default none = default
  chosen default (some override) = some override

  -- The commit runs after validation and before publication.
  abbrev pub commit_fact : Option (Sink W) → W → Fact → W × Option String
  commit_fact none w f = (w, none)
  commit_fact (some sink) w f = sink w f

  abbrev pub publish_if :
      Journal → Fact → InvocationState → W × Option String → Journal × W × Result String Fact
  publish_if j f stage (w, some e) = (j, w, err e)
  publish_if j f stage (w, none) = (publish j f stage, w, ok f)

  abbrev pub record_fact :
      Option (Sink W)
      → Journal
      → W
      → Result String (Fact × InvocationState)
      → Journal × W × Result String Fact
  record_fact sink j w (err e) = (j, w, err e)
  record_fact sink j w (ok (f, stage)) = publish_if j f stage (commit_fact sink w f)

  -- `append`, with the journal's commit and the override of AppendWithCommit.
  unfoldable pub append_with :
      Option (Sink W) → Option (Sink W) → Journal → W → ℕ → Fact → Journal × W × Result String Fact
  unfolding prepare publish
  append_with default override j w now f =
      record_fact (chosen default override) j w (prepare j now f)

  unfoldable pub append :
      Option (Sink W) → Journal → W → ℕ → Fact → Journal × W × Result String Fact
  unfolding append_with
  append default j w now f = append_with default none j w now f

  unfoldable pub append_with_commit :
      Option (Sink W) → Option (Sink W) → Journal → W → ℕ → Fact → Journal × W × Result String Fact
  unfolding append_with
  append_with_commit default none j w now f = (j, w, err "atomic fact commit is required")
  append_with_commit default (some commit) j w now f = append_with default (some commit) j w now f
