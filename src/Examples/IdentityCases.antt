-- ===== src/Examples/IdentityCases.antt =====
-- Worker tokens and the parents of claims (internal/workloadidentity, internal/governance).
use agenova.Prelude.{
  ℕ, ◌+◌, ◌-◌, ◌≤◌, ◌<◌, ◌*◌, String, Bool, true, false, ◌&&◌, [], ◌∷◌, ◌++◌, some, none, ok, err,
  update, empty_map, ◌==◌, string_eq, nat_eq, contains, count, length, ltb, if◌then◌else◌, ◌≡◌, ◌≢◌,
  ◌↔◌, ◌⊎◌, refl, ap, arith, ==_iff, Bool-cases, inl, inr,
}
use agenova.Prelude.Int.{pos, ltb_ℤ, leb_ℤ, int_eq}
use agenova.WorkloadIdentity.{
  err_invalid, Bytes, Identity, Codec, Service, token_issuer, second, unix, valid_audience, dot,
  header, sign, new_identity, token_of, issue, split, verify, revoke,
}
use agenova.WorkloadIdentity.Tokens.{NoDot, IsLossless, issue-verify}
use agenova.WorkloadIdentity.Trust.{verify-signed, revoke-verify, issue-lifetime}
use agenova.Governance.{Lineage, new_lineage, register_child, parent, children, is_child_of}
use agenova.Governance.Family.{
  built_new, built_register, children-parent, Registering, register_child-Registering,
}

abbrev worker : Identity
worker = new_identity "claim-1" "worker-1" "tool-gateway" second (20 * second) "nonce"

-- Whether an identity is that of `worker`.
abbrev is_worker : Identity → Bool
is_worker i =
    i.claim_id == "claim-1"
    && (i.worker_id == "worker-1"
        && (i.audience == "tool-gateway"
            && (i.issuer == token_issuer
                && (i.issued_at == pos 1 && (i.expires == pos 20 && i.id == "nonce")))))

abbrev shift : Bytes → Bytes
shift [] = []
shift (c ∷ s) = (c + 47) ∷ shift s

abbrev unshift : Bytes → Bytes
unshift [] = []
unshift (c ∷ s) = (c - 47) ∷ unshift s

-- Stands for the codecs: it moves every byte past the dot, and it writes one identity.
abbrev codec : Codec
codec = record {
  base64 = shift;
  unbase64 = λ b. some (unshift b);
  marshal = λ i. if is_worker i then some (7 ∷ []) else none;
  unmarshal = λ b. some worker;
  mac = λ key message. key;
}

shift-NoDot : (b : Bytes) → NoDot (shift b)
shift-NoDot [] = refl
shift-NoDot (c ∷ s) = let n : ((c + 47) == dot) ≡ false = ground arith in rw (n, shift-NoDot s) refl

unshift-shift : (b : Bytes) → unshift (shift b) ≡ b
unshift-shift [] = refl
unshift-shift (c ∷ s) =
    let same : (c + 47) - 47 ≡ c = omega arith in rw (same, unshift-shift s) refl

is_worker-worker : (i : Identity) → is_worker i ≡ true → worker ≡ i
is_worker-worker i h = ground (
  arith,
  h,
  ==_iff i.claim_id "claim-1",
  ==_iff i.worker_id "worker-1",
  ==_iff i.audience "tool-gateway",
  ==_iff i.issuer token_issuer,
  ==_iff i.issued_at (pos 1),
  ==_iff i.expires (pos 20),
  ==_iff i.id "nonce",
)

unmarshal-marshal :
    (i : Identity) (b : Bytes) → codec.marshal i ≡ some b → codec.unmarshal b ≡ some i
unmarshal-marshal i b h = elim (Bool-cases (is_worker i)) [
  | inl y ↦ ap some (is_worker-worker i y)
  | inr n ↦ cc (rw n at h)
]

lossless : IsLossless codec
lossless = record {
  unbase64-base64 = λ b. ap some (unshift-shift b);
  base64-NoDot = shift-NoDot;
  unmarshal-marshal = unmarshal-marshal;
}

abbrev service : Service
service = record { key = 1 ∷ 2 ∷ []; revoked = empty_map }

abbrev token : Bytes
token = token_of codec service (7 ∷ [])

issued :
    issue codec service second (some "nonce") "claim-1" "worker-1" "tool-gateway" (20 * second)
    ≡ ok token
unfolding issue sign
issued = refl

issue-verify_example :
    verify codec service (2 * second) (2 * second) token "tool-gateway"
    ≡ (if ltb 8192 (length token) then err err_invalid else ok worker)
issue-verify_example =
    issue-verify codec service service second (2 * second) (2 * second) "nonce" "claim-1" "worker-1"
      "tool-gateway" (20 * second) token lossless issued refl refl refl (omega arith) (omega arith)

issue-lifetime_example :
    (i : Identity) × (payload : Bytes) × (end : ℕ) × (codec.marshal i ≡ some payload)
    × (token_of codec service payload ≡ token)
    × (i.claim_id ≡ "claim-1")
    × (i.worker_id ≡ "worker-1")
    × (i.audience ≡ "tool-gateway")
    × (i.issued_at ≡ pos (unix second))
    × (i.expires ≡ pos end)
    × (unix second < end)
    × (end ≤ unix second + 300)
    × (end * second ≤ 20 * second)
issue-lifetime_example =
    issue-lifetime codec service second (some "nonce") "claim-1" "worker-1" "tool-gateway"
      (20 * second) token issued

verified : verify codec service (2 * second) (2 * second) token "tool-gateway" ≡ ok worker
unfolding verify split sign
verified = refl

verify-signed_example :
    ((part : Bytes) × (payload : Bytes) × (split token
        ≡ header codec
          ∷ part
          ∷ codec.base64 (codec.mac service.key (header codec ++ dot ∷ part))
          ∷ [])
      × (codec.unbase64 part ≡ some payload)
      × (codec.unmarshal payload ≡ some worker))
    × (valid_audience "tool-gateway" ≡ true)
    × (worker.audience ≡ "tool-gateway")
    × (worker.issuer ≡ token_issuer)
    × (worker.claim_id ≢ "")
    × (worker.worker_id ≢ "")
    × (ltb_ℤ (pos (unix (2 * second))) worker.expires ≡ true)
    × (leb_ℤ worker.issued_at (pos (unix (2 * second))) ≡ true)
    × (service.revoked worker.id ≡ none)
verify-signed_example =
    verify-signed codec service (2 * second) (2 * second) token "tool-gateway" worker verified

abbrev revoking : Service
revoking = record service { revoked = update service.revoked "nonce" tt }

revokes : revoke codec service (2 * second) (2 * second) token "tool-gateway" ≡ (revoking, none)
unfolding revoke verify split sign
revokes = refl

revoke-verify_example :
    ((t u : ℕ) (other : String) (i : Identity) → verify codec revoking t u token other ≢ ok i)
    × (revoking.key ≡ service.key)
    × ((id : Identity) × (verify codec service (2 * second) (2 * second) token "tool-gateway"
          ≡ ok id)
        × ((name : String)
            → (id.id == name) ≡ false
            → revoking.revoked name ≡ service.revoked name))
revoke-verify_example =
    revoke-verify codec service revoking (2 * second) (2 * second) token "tool-gateway" revokes

abbrev family : Lineage
family = (register_child new_lineage "claim-1" "claim-2").0

abbrev parent_name : String
parent_name = "claim-1"

abbrev child_name : String
child_name = "claim-2"

children-parent_example :
    ((contains (children family "claim-1") "claim-2" ≡ true)
      ↔ (parent family "claim-2" ≡ some "claim-1"))
    × (ltb 1 (count (λ x. x == "claim-2") (children family "claim-1")) ≡ false)
    × (parent family "claim-2" ≡ some "claim-1"
        → (parent_name ≢ "") × (child_name ≢ "") × (parent_name ≢ child_name))
    × ((is_child_of family "claim-1" "claim-2" ≡ true) ↔ (
        (parent family "claim-2" ≡ some "claim-1")
        ⊎ ((parent_name ≡ "") × (parent family "claim-2" ≡ none))))
children-parent_example =
    children-parent family (built_register built_new "claim-1" "claim-2") "claim-1" "claim-2"

register_child-Registering_example :
    Registering family "claim-3" "claim-2" (register_child family "claim-3" "claim-2")
register_child-Registering_example = register_child-Registering family "claim-3" "claim-2"
