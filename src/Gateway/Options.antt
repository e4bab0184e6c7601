-- ===== src/Gateway/Options.antt =====
-- internal/toolgateway/gateway.go: NewGateway and its options; internal/modelgateway/gateway.go has the same.
use agenova.Prelude.{
  ℕ, String, Bool, true, false, ◌||◌, List, [], ◌∷◌, Option, none, some, Result, any, ◌≡◌, refl,
  ◌∙◌, arith,
}
use agenova.Governance.{Lineage}
use agenova.WorkloadIdentity.{Bytes, Identity}
use agenova.Run.Eligibility.{ClaimAuthorityReader}
use agenova.Gateway.Decisions.{GatewayDecision, Outcome, allowed}
use agenova.Gateway.Ports.{Gateway}

-- Option; none is a nil function.
pub data GatewayOption (W R : Type 0) : Type 0 where
  with_observer : Option (R → GatewayDecision → W → W × Option String) → GatewayOption W R
  with_adapter : Option (String → R → W → W × Option String) → GatewayOption W R
  with_id_source : Option (W → W × String) → GatewayOption W R
  with_policy : Option (R → W → W × Outcome) → GatewayOption W R
  with_workload_identity : Option (W → Bytes → String → Result String Identity) → GatewayOption W R

abbrev pub unconfigured_adapter : {W R : Type 0} → String → R → W → W × Option String
unconfigured_adapter id req w = (w, some "no provider adapter configured")

abbrev pub apply_option : {W R : Type 0} → GatewayOption W R → Gateway W R → Gateway W R
apply_option (with_observer observer) g = record g { observer = observer }
apply_option (with_adapter none) g = g
apply_option (with_adapter (some adapter)) g = record g { adapter = adapter }
apply_option (with_id_source none) g = g
apply_option (with_id_source (some ids)) g = record g { ids = ids }
apply_option (with_policy none) g = g
apply_option (with_policy (some policy)) g = record g { policy = policy }
apply_option (with_workload_identity identity) g = record g {
  identity = identity;
  require_identity = true;
}

-- The loop over the options.
abbrev pub apply_options : {W R : Type 0} → List (GatewayOption W R) → Gateway W R → Gateway W R
apply_options [] g = g
apply_options (option ∷ options) g = apply_options options (apply_option option g)

-- NewGateway; the random source of identities, the clock and strconv.Quote are parameters.
unfoldable pub new_gateway :
    {W R : Type 0}
    → (random_id_source : W → W × String) → (clock : W → ℕ) → (quote : String → String)
    → Option (W → ClaimAuthorityReader)
    → Option (W → Lineage)
    → List (GatewayOption W R)
    → Gateway W R
new_gateway random_id_source clock quote claims lineage options = apply_options options (record {
  claims = claims;
  lineage = lineage;
  adapter = unconfigured_adapter;
  ids = random_id_source;
  policy = λ req w. (w, allowed);
  observer = none;
  identity = none;
  require_identity = false;
  clock = clock;
  quote = quote;
})

abbrev pub gives_identity : {W R : Type 0} → GatewayOption W R → Bool
gives_identity (with_observer observer) = false
gives_identity (with_adapter adapter) = false
gives_identity (with_id_source ids) = false
gives_identity (with_policy policy) = false
gives_identity (with_workload_identity identity) = true

-- One option keeps what the gateway reads, and requires identity if it did or the option says so.
apply_option-requires :
    {W R : Type 0} (o : GatewayOption W R) (g : Gateway W R)
    → ((apply_option o g).require_identity ≡ (g.require_identity || gives_identity o))
      × ((apply_option o g).claims ≡ g.claims)
      × ((apply_option o g).lineage ≡ g.lineage)
apply_option-requires (with_observer observer) g = (or_false g.require_identity, refl, refl)
  where
    or_false : (b : Bool) → b ≡ (b || false)
    or_false b = ground arith
apply_option-requires (with_adapter none) g = (ground arith, refl, refl)
apply_option-requires (with_adapter (some adapter)) g = (ground arith, refl, refl)
apply_option-requires (with_id_source none) g = (ground arith, refl, refl)
apply_option-requires (with_id_source (some ids)) g = (ground arith, refl, refl)
apply_option-requires (with_policy none) g = (ground arith, refl, refl)
apply_option-requires (with_policy (some policy)) g = (ground arith, refl, refl)
apply_option-requires (with_workload_identity identity) g = (ground arith, refl, refl)

apply_options-requires :
    {W R : Type 0} (options : List (GatewayOption W R)) (g : Gateway W R)
    → ((apply_options options g).require_identity
        ≡ (g.require_identity || any gives_identity options))
      × ((apply_options options g).claims ≡ g.claims)
      × ((apply_options options g).lineage ≡ g.lineage)
apply_options-requires [] g = (ground arith, refl, refl)
apply_options-requires (o ∷ options) g =
    let (a, b, c) = apply_option-requires o g in
    let (d, e, f) = apply_options-requires options (apply_option o g) in
    (
      joined _ _ g.require_identity (gives_identity o) (any gives_identity options) a d,
      e ∙ b,
      f ∙ c,
    )
  where
    joined : (x y r o rest : Bool) → x ≡ (r || o) → y ≡ (x || rest) → y ≡ (r || (o || rest))
    joined x y r o rest h k = ground (arith, h, k)

-- A new gateway requires identity exactly when one of its options is a workload identity, in whatever order they
-- stand, and no option changes the claims or the lineage that it reads.
pub new_gateway-requires :
    {W R : Type 0} (ids : W → W × String) (clock : W → ℕ) (quote : String → String)
    (claims : Option (W → ClaimAuthorityReader)) (lineage : Option (W → Lineage))
    (options : List (GatewayOption W R))
    → let g = new_gateway ids clock quote claims lineage options in
      (g.require_identity ≡ any gives_identity options)
      × (g.claims ≡ claims)
      × (g.lineage ≡ lineage)
unfolding new_gateway
new_gateway-requires ids clock quote claims lineage options = apply_options-requires options _
