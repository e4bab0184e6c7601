-- ===== src/WorkloadIdentity.antt =====
-- internal/workloadidentity/token.go: New, Issue, Verify and Revoke. A byte slice is the list of its bytes.
-- Base64, JSON and HMAC-SHA-256 are parameters; a time is its count of nanoseconds since 1970. A
-- method of the service is one step, since the mutex guards the revoked identities.
pub mod Tokens
pub mod Trust
use Prim.Native.Nat.{◌/◌}
use agenova.Prelude.{
  ℕ, ◌+◌, ◌*◌, ◌^◌, String, Bool, true, false, not, ◌||◌, List, [], ◌∷◌, ◌++◌, Option, none, some,
  Result, ok, err, ◌>>=◌, ◌>>◌, refuse_if, is_some, ◌==◌, ◌!=◌, string_eq, nat_eq, list_eq, leb,
  ltb, length, Map, update, empty_map, if◌then◌else◌,
}
use agenova.Prelude.Int.{ℤ, pos, ltb_ℤ, leb_ℤ}
use agenova.Prelude.Texts.{codes}

abbrev pub Bytes : Type 0
Bytes = List ℕ

pub record Identity : Type 0 where
  pub claim_id : String
  pub worker_id : String
  pub audience : String
  pub issuer : String
  pub issued_at : ℤ
  pub expires : ℤ
  pub id : String

-- What encoding/base64, encoding/json and crypto/hmac do; none is an error.
pub record Codec : Type 0 where
  pub base64 : Bytes → Bytes
  pub unbase64 : Bytes → Option Bytes
  pub marshal : Identity → Option Bytes
  pub unmarshal : Bytes → Option Identity
  pub mac : Bytes → Bytes → Bytes

pub record Service : Type 0 where
  pub key : Bytes
  pub revoked : Map String (Unit {0})

abbrev pub err_invalid : String
err_invalid = "invalid workload identity"

abbrev pub token_issuer : String
token_issuer = "agenova-workload"

abbrev pub second : ℕ
second = 10 ^ 9

-- Time.Unix
abbrev pub unix : ℕ → ℕ
unix t = t / second

-- New
unfoldable pub new_service : Bytes → Result String Service
new_service key =
    if ltb (length key) 32
    then err "workload identity key must contain at least 256 bits"
    else ok (record { key = key; revoked = empty_map })

abbrev pub valid_audience : String → Bool
valid_audience audience = audience == "tool-gateway" || audience == "model-gateway"

abbrev pub dot : ℕ
dot = 46

abbrev pub header : Codec → Bytes
header codec = codec.base64 (codes "{\"alg\":\"HS256\",\"typ\":\"JWT\"}")

unfoldable pub sign : Codec → Service → Bytes → Bytes
sign codec s unsigned = codec.base64 (codec.mac s.key unsigned)

abbrev pub earlier : ℕ → ℕ → ℕ
earlier a b = if ltb a b then a else b

-- The end of a token's life: five minutes from now, or the deadline before that.
abbrev pub expiry : (now deadline : ℕ) → ℕ
expiry now deadline = earlier deadline (now + 300 * second)

abbrev pub new_identity : String → String → String → (now deadline : ℕ) → String → Identity
new_identity claim_id worker_id audience now deadline id = record {
  claim_id = claim_id;
  worker_id = worker_id;
  audience = audience;
  issuer = token_issuer;
  issued_at = pos (unix now);
  expires = pos (unix (expiry now deadline));
  id = id;
}

abbrev pub or_invalid {ℓ} : {A : Type ℓ} → Option A → Result String A
or_invalid none = err err_invalid
or_invalid (some a) = ok a

abbrev pub entropy : Option String → Result String String
entropy none = err "workload identity entropy unavailable"
entropy (some nonce) = ok nonce

abbrev pub token_of : Codec → Service → Bytes → Bytes
token_of codec s payload =
    let unsigned = header codec ++ dot ∷ codec.base64 payload in
    unsigned ++ dot ∷ sign codec s unsigned

-- Issue, at the time `now`, with the hexadecimal nonce that crypto/rand gave.
unfoldable pub issue :
    Codec
    → Service
    → (now : ℕ) → (nonce : Option String) → String
    → String
    → String
    → (deadline : ℕ) → Result String Bytes
unfolding sign
issue codec s now nonce claim_id worker_id audience deadline = do
  refuse_if (claim_id == "" || (worker_id == "" || not (valid_audience audience))) err_invalid
  refuse_if (not (ltb now deadline)) err_invalid
  refuse_if (leb (unix (expiry now deadline)) (unix now)) err_invalid
  id ← entropy nonce
  payload ← or_invalid (codec.marshal (new_identity claim_id worker_id audience now deadline id))
  ok (token_of codec s payload)

abbrev pub onto_first : ℕ → List Bytes → List Bytes
onto_first c [] = (c ∷ []) ∷ []
onto_first c (part ∷ parts) = (c ∷ part) ∷ parts

-- strings.Split at the dots.
unfoldable pub split : Bytes → List Bytes
split [] = [] ∷ []
split (c ∷ s) = let parts = split s in if c == dot then [] ∷ parts else onto_first c parts

-- The conditions on a decoded identity; the clock is read once for each bound.
abbrev pub unusable : Identity → String → (now later : ℕ) → Bool
unusable identity audience now later =
    identity.claim_id == ""
    || (identity.worker_id == ""
        || (identity.id == ""
            || (identity.audience != audience
                || (identity.issuer != token_issuer
                    || (leb_ℤ identity.expires identity.issued_at
                        || (leb_ℤ identity.expires (pos (unix now))
                            || ltb_ℤ (pos (unix later)) identity.issued_at))))))

abbrev pub verify_parts :
    Codec → Service → (now later : ℕ) → String → List Bytes → Result String Identity
verify_parts codec s now later audience (first ∷ second_part ∷ third ∷ []) = do
  refuse_if (first != header codec) err_invalid
  refuse_if (third != sign codec s (first ++ dot ∷ second_part)) err_invalid
  payload ← or_invalid (codec.unbase64 second_part)
  identity ← or_invalid (codec.unmarshal payload)
  refuse_if (unusable identity audience now later) err_invalid
  refuse_if (is_some (s.revoked identity.id)) err_invalid
  ok identity
verify_parts codec s now later audience [] = err err_invalid
verify_parts codec s now later audience (a ∷ []) = err err_invalid
verify_parts codec s now later audience (a ∷ b ∷ []) = err err_invalid
verify_parts codec s now later audience (a ∷ b ∷ c ∷ d ∷ rest) = err err_invalid

-- Verify
unfoldable pub verify :
    Codec
    → Service
    → (now later : ℕ) → (token : Bytes) → (audience : String) → Result String Identity
unfolding sign split
verify codec s now later token audience = do
  refuse_if (not (valid_audience audience) || ltb 8192 (length token)) err_invalid
  verify_parts codec s now later audience (split token)

abbrev pub revoke_verified : Service → Result String Identity → Service × Option String
revoke_verified s (err e) = (s, some err_invalid)
revoke_verified s (ok identity) = (record s { revoked = update s.revoked identity.id tt }, none)

-- Revoke
unfoldable pub revoke :
    Codec
    → Service
    → (now later : ℕ) → (token : Bytes) → (audience : String) → Service × Option String
unfolding verify
revoke codec s now later token audience =
    revoke_verified s (verify codec s now later token audience)
