-- ===== src/Policy/Bundle.antt =====
-- internal/policy/bundle.go, and the reference evaluator of evaluator.go.
use Prim.Native.String.{len, ◌++◌}
use agenova.Prelude.{
  ℕ, suc, String, Bool, true, false, ◌&&◌, ◌||◌, List, [], ◌∷◌, Option, none, some, Result, ok, err,
  ◌>>◌, refuse_if, Comparable, ◌==◌, ◌!=◌, string_eq, nat_eq, ltb, length, any, if◌then◌else◌, Map,
  update, empty_map, pair_eq, list_eq,
}
use agenova.Prelude.Texts.{is_blank}
use agenova.Prelude.Decimal.{decimal}
use agenova.Api.{allow, deny}
use agenova.Policy.{
  Attribute, EvaluationContext, Evaluation, Rule, PolicyBundle, Match, PolicyError, message,
  in_rule,
}
use agenova.Policy.Equality.{rule_eq, both}
use agenova.Policy.Check.{Verdict, validate_context, validate_constraints}

-- ruleKey
abbrev pub RuleKey : Type 0
RuleKey = String × (String × (String × (String × String)))

abbrev pub key_of : Rule → RuleKey
key_of rule = (rule.subject, (rule.team, (rule.action, (rule.project, rule.template_ref))))

instance abbrev rule_key_eq : Comparable RuleKey
rule_key_eq = both string_eq (both string_eq (both string_eq (both string_eq string_eq)))

-- seen[key], of the rules before this one and their indices.
first_index : RuleKey → List (RuleKey × ℕ) → Option ℕ
first_index key [] = none
first_index key ((other, i) ∷ seen) = if key == other then some i else first_index key seen

abbrev wrapped : ℕ → Verdict → Verdict
wrapped i (ok u) = ok u
wrapped i (err e) = err (in_rule i e)

abbrev unique_rule : ℕ → Option ℕ → Verdict
unique_rule i none = ok tt
unique_rule i (some first) =
    err (message ("policy rule " ++ decimal i ++ " duplicates rule " ++ decimal first))

rules_from : ℕ → List (RuleKey × ℕ) → List Rule → Verdict
unfolding first_index
rules_from i seen [] = ok tt
rules_from i seen (rule ∷ rules) = do
  refuse_if
      (is_blank rule.team
        || is_blank rule.action
        || is_blank rule.project
        || is_blank rule.template_ref)
      (message ("policy rule " ++ decimal i ++ " requires team, action, project, and templateRef"))
  wrapped i (validate_constraints rule.constraints)
  unique_rule i (first_index (key_of rule) seen)
  rules_from (suc i) ((key_of rule, i) ∷ seen) rules

-- ValidateBundle is this check.
unfoldable pub validate : PolicyBundle → Verdict
unfolding rules_from
validate bundle = do
  refuse_if (is_blank bundle.id) (message "policy bundle ID is required")
  refuse_if (is_blank bundle.version) (message "policy bundle version is required")
  refuse_if (ltb 128 (len bundle.id) || ltb 64 (len bundle.version))
      (message "policy bundle ID or version exceeds the evidence-safe limit")
  rules_from 0 [] bundle.rules

abbrev pub covers : Match → Rule → Bool
covers m rule =
    (rule.subject == "" || rule.subject == m.subject)
    && rule.team == m.team
    && rule.action == m.action
    && rule.project == m.project
    && rule.template_ref == m.template_ref

-- PolicyBundle.Allows
unfoldable pub allows : PolicyBundle → Match → Bool
allows b m =
    if is_blank m.team || is_blank m.action || is_blank m.project || is_blank m.template_ref
    then false
    else any (covers m) b.rules

-- The first value of a one-value attribute of that name.
abbrev pub single_value : List String → Option String
single_value (value ∷ []) = some value
single_value _ = none

unfoldable pub single_attribute : List Attribute → String → Option String
single_attribute [] name = none
single_attribute (attribute ∷ attributes) name =
    let rest = single_attribute attributes name in
    if attribute.name == name && length attribute.values == 1
    then single_value attribute.values
    else rest

-- What the loop of Evaluate skips.
abbrev pub skips : String → String → String → EvaluationContext → Rule → Bool
skips team project template_ref context rule =
    rule.team != team
    || rule.action != context.action
    || rule.project != project
    || rule.template_ref != template_ref
    || rule.subject != "" && rule.subject != context.principal.subject

-- matched == nil || rule.Subject != "" && matched.Subject == ""
abbrev pub is_better : Rule → Option Rule → Bool
is_better rule none = true
is_better rule (some matched) = rule.subject != "" && matched.subject == ""

-- The loop, from the best match so far.
unfoldable pub best_match : (Rule → Bool) → Option Rule → List Rule → Option Rule
best_match skip matched [] = matched
best_match skip matched (rule ∷ rules) =
    best_match skip
      (if skip rule then matched else if is_better rule matched then some rule else matched) rules

-- The rules are searched when all three attributes are there.
abbrev pub matched_rule :
    EvaluationContext → List Rule → Option String → Option String → Option String → Option Rule
matched_rule context rules (some team) (some project) (some template_ref) =
    best_match (skips team project template_ref context) none rules
matched_rule context rules _ _ _ = none

unfoldable pub match_of : PolicyBundle → EvaluationContext → Option Rule
unfolding best_match single_attribute
match_of bundle context =
    matched_rule context bundle.rules (single_attribute context.principal.attributes "team")
      (single_attribute context.resource.attributes "project")
      (single_attribute context.resource.attributes "templateRef")

abbrev pub verdict_of : PolicyBundle → EvaluationContext → Option Rule → Evaluation
verdict_of bundle context none = record {
  context = context;
  decision = deny;
  policy_ref = record { id = bundle.id; version = bundle.version };
  reasons =
      record {
        code = "reference-no-exact-match";
        message = "no exact policy rule matched the trusted principal and requested assignment";
      }
      ∷ [];
  constraints = none;
}
verdict_of bundle context (some rule) = record {
  context = context;
  decision = allow;
  policy_ref = record { id = bundle.id; version = bundle.version };
  reasons =
      record {
        code = "reference-exact-match";
        message = "exact policy rule matched the trusted principal and requested assignment";
      }
      ∷ [];
  constraints = rule.constraints;
}

-- referenceEvaluator.Evaluate
unfoldable pub evaluate : PolicyBundle → EvaluationContext → Result PolicyError Evaluation
unfolding match_of
evaluate bundle context = do
  validate_context context
  ok (verdict_of bundle context (match_of bundle context))

-- An evaluator, behind its interface.
abbrev pub Evaluator : Type 0
Evaluator = EvaluationContext → Result PolicyError Evaluation

unfoldable pub new_reference_evaluator : PolicyBundle → Result PolicyError Evaluator
unfolding validate evaluate
new_reference_evaluator bundle = do validate bundle; ok (evaluate bundle)

pub record Loader : Type 0 where
  pub current : Option PolicyBundle
  pub seen : Map (String × String) (List Rule)

abbrev pub new_loader : Loader
new_loader = record { current = none; seen = empty_map }

-- The write of Load, by what is known of the bundle's identity.
abbrev pub loaded : Loader → PolicyBundle → Option (List Rule) → Loader × Option PolicyError
loaded l bundle (some rules) =
    if rules == bundle.rules then (record l { current = some bundle }, none) else (
      l,
      some (
          message
            ("policy bundle " ++ bundle.id ++ "@" ++ bundle.version ++ " cannot change content")),
    )
loaded l bundle none = (
  record l { seen = update l.seen (bundle.id, bundle.version) bundle.rules; current = some bundle },
  none,
)

abbrev pub load_if : Loader → PolicyBundle → Verdict → Loader × Option PolicyError
load_if l bundle (err e) = (l, some e)
load_if l bundle (ok u) = loaded l bundle (l.seen (bundle.id, bundle.version))

unfoldable pub load : Loader → PolicyBundle → Loader × Option PolicyError
unfolding validate
load l bundle = load_if l bundle (validate bundle)

-- Loader.Snapshot: none stands for `nil, false`.
abbrev pub made : Result PolicyError Evaluator → Option Evaluator
made (ok evaluator) = some evaluator
made (err e) = none

abbrev pub snapshot_of : Option PolicyBundle → Option Evaluator
snapshot_of none = none
snapshot_of (some bundle) = made (new_reference_evaluator bundle)

unfoldable pub snapshot : Loader → Option Evaluator
unfolding new_reference_evaluator
snapshot l = snapshot_of l.current
