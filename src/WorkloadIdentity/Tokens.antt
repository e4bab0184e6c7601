-- ===== src/WorkloadIdentity/Tokens.antt =====
-- A token that Issue made is the one Verify accepts (internal/workloadidentity/token.go).
use agenova.Prelude.{
  ℕ, ◌≤◌, ◌<◌, if◌then◌else◌, Bool-cases, inl, inr, String, Bool, true, false, not, ◌||◌, [], ◌∷◌,
  ◌++◌, Option, none, some, Result, ok, err, refuse_if, ◌==◌, string_eq, nat_eq, list_eq, leb, ltb,
  length, any, ◌≡◌, refl, sym, ap, ◌∙◌, subst, arith, ==_self, >>=-eq-ok, ok_injective,
}
use agenova.Prelude.Int.{pos, leb_ℤ}
use agenova.WorkloadIdentity.{
  Bytes, Identity, Codec, Service, err_invalid, unix, valid_audience, dot, header, sign, expiry,
  new_identity, or_invalid, entropy, token_of, issue, split, unusable, verify,
}

abbrev pub NoDot : Bytes → Type 0
NoDot s = any (λ c. c == dot) s ≡ false

-- What base64.RawURLEncoding and encoding/json document: decoding gives the encoded value back, and the
-- alphabet of the encoding has no dot.
pub record IsLossless (codec : Codec) : Type 0 where
  pub unbase64-base64 : (b : Bytes) → codec.unbase64 (codec.base64 b) ≡ some b
  pub base64-NoDot : (b : Bytes) → NoDot (codec.base64 b)
  pub unmarshal-marshal :
      (i : Identity) (b : Bytes) → codec.marshal i ≡ some b → codec.unmarshal b ≡ some i

first_dot : (c : ℕ) (s : Bytes) → NoDot (c ∷ s) → (((c == dot) ≡ false) × NoDot s)
first_dot c s h = two (c == dot) (any (λ d. d == dot) s) h
  where
    two : (a b : Bool) → (a || b) ≡ false → (a ≡ false) × (b ≡ false)
    two a b h = ground (arith, h)

split-append : (s t : Bytes) → NoDot s → split (s ++ dot ∷ t) ≡ s ∷ split t
unfolding split
split-append [] t h = refl
split-append (c ∷ s) t h = let (n, m) = first_dot c s h in rw (n, split-append s t m) refl

split-single : (s : Bytes) → NoDot s → split s ≡ s ∷ []
unfolding split
split-single [] h = refl
split-single (c ∷ s) h = let (n, m) = first_dot c s h in rw (n, split-single s m) refl

append_assoc : (a b c : Bytes) → (a ++ b) ++ c ≡ a ++ (b ++ c)
append_assoc [] b c = refl
append_assoc (x ∷ a) b c = ap (λ r. x ∷ r) (append_assoc a b c)

-- A token has its three parts.
split-token_of :
    (codec : Codec) (s : Service) (payload : Bytes)
    → IsLossless codec
    → split (token_of codec s payload)
      ≡ header codec
        ∷ codec.base64 payload
        ∷ sign codec s (header codec ++ dot ∷ codec.base64 payload)
        ∷ []
unfolding sign
split-token_of codec s payload l =
    let p = codec.base64 payload in
    let m = sign codec s (header codec ++ dot ∷ p) in
    ap split (append_assoc (header codec) (dot ∷ p) (dot ∷ m))
    ∙ (split-append (header codec) (p ++ dot ∷ m) (l.base64-NoDot _)
        ∙ ap (λ r. header codec ∷ r)
            (split-append p m (l.base64-NoDot payload)
              ∙ ap (λ r. p ∷ r) (split-single m (l.base64-NoDot _))))

entropy-ok : (o : Option String) (x : String) → entropy o ≡ ok x → o ≡ some x
entropy-ok none x h = cc h
entropy-ok (some y) x h = ap some (ok_injective h)

or_invalid-ok : {A : Type 0} (o : Option A) (a : A) → or_invalid o ≡ ok a → o ≡ some a
or_invalid-ok none a h = cc h
or_invalid-ok (some x) a h = ap some (ok_injective h)

-- What Issue has checked and made when it returns a token.
pub record Issued (codec : Codec) (s : Service) (now : ℕ) (nonce : Option String)
    (claim_id worker_id audience : String) (deadline : ℕ) (token : Bytes) : Type 0 where
  pub id : String
  pub payload : Bytes
  pub drawn : nonce ≡ some id
  pub named : (claim_id == "" || (worker_id == "" || not (valid_audience audience))) ≡ false
  pub ahead : ltb now deadline ≡ true
  pub lives : leb (unix (expiry now deadline)) (unix now) ≡ false
  pub marshalled :
      codec.marshal (new_identity claim_id worker_id audience now deadline id) ≡ some payload
  pub shape : token_of codec s payload ≡ token

pub passed :
    {E : Type 0} (b : Bool) (u : E) → ◌≡◌ {A = Result E Unit} (refuse_if b u) (ok tt) → b ≡ false
passed true u h = cc h
passed false u h = refl

not-false : (b : Bool) → not b ≡ false → b ≡ true
not-false b h = ground (arith, h)

pub issue-Issued :
    (codec : Codec) (s : Service) (now : ℕ) (nonce : Option String)
    (claim_id worker_id audience : String) (deadline : ℕ) (token : Bytes)
    → issue codec s now nonce claim_id worker_id audience deadline ≡ ok token
    → Issued codec s now nonce claim_id worker_id audience deadline token
unfolding issue
issue-Issued codec s now nonce claim_id worker_id audience deadline token h =
    let (_, n, h₁) =
      >>=-eq-ok
        (refuse_if (claim_id == "" || (worker_id == "" || not (valid_audience audience)))
          err_invalid)
        h in
    let (_, o, h₂) = >>=-eq-ok (refuse_if (not (ltb now deadline)) err_invalid) h₁ in
    let (_, l, h₃) =
      >>=-eq-ok (refuse_if (leb (unix (expiry now deadline)) (unix now)) err_invalid) h₂ in
    let (id, e, h₄) = >>=-eq-ok (entropy nonce) h₃ in
    let identity = new_identity claim_id worker_id audience now deadline id in
    let (payload, m, h₅) = >>=-eq-ok (or_invalid (codec.marshal identity)) h₄ in
    record {
      id = id;
      payload = payload;
      drawn = entropy-ok nonce id e;
      named = passed _ _ n;
      ahead = not-false (ltb now deadline) (passed _ _ o);
      lives = passed _ _ l;
      marshalled = or_invalid-ok (codec.marshal identity) payload m;
      shape = ok_injective h₅;
    }

-- The claim, the worker and the audience that Issue accepts.
named_parts : (a b c : Bool) → (a || (b || not c)) ≡ false → (a ≡ false) × (b ≡ false) × (c ≡ true)
named_parts a b c h = ground (arith, h)

later_first : (a b : ℕ) → leb a b ≡ false → leb_ℤ (pos a) (pos b) ≡ false
later_first a b h = ground (arith, h)

new_identity-usable :
    (claim_id worker_id audience id : String) (start deadline now later : ℕ)
    → (claim_id == "") ≡ false
    → (worker_id == "") ≡ false
    → (id == "") ≡ false
    → leb (unix (expiry start deadline)) (unix start) ≡ false
    → unix now < unix (expiry start deadline)
    → unix start ≤ unix later
    → unusable (new_identity claim_id worker_id audience start deadline id) audience now later
      ≡ false
new_identity-usable claim_id worker_id audience id start deadline now later c w i l before after =
    let k : leb_ℤ (pos (unix (expiry start deadline))) (pos (unix start)) ≡ false =
      later_first _ _ l in
    let e : leb_ℤ (pos (unix (expiry start deadline))) (pos (unix now)) ≡ false =
      later_first _ _ (ground (arith, before)) in
    let f : ltb (unix later) (unix start) ≡ false = ground (arith, after) in
    rw (c, w, i, ==_self audience, k, e, f) refl

module _ (codec : Codec) (s later_service : Service) (start now later : ℕ)
    (id claim_id worker_id audience : String) (deadline : ℕ) (token : Bytes) where
  abbrev identity : Identity
  identity = new_identity claim_id worker_id audience start deadline id

  short_token :
      IsLossless codec
      → Issued codec s start (some id) claim_id worker_id audience deadline token
      → ltb 8192 (length token) ≡ false
      → (id == "") ≡ false
      → later_service.key ≡ s.key
      → later_service.revoked id ≡ none
      → unix now < unix (expiry start deadline)
      → unix start ≤ unix later
      → verify codec later_service now later token audience ≡ ok identity
  unfolding verify sign
  short_token l p small named same fresh before after =
      let (c, w, a) =
        named_parts (claim_id == "") (worker_id == "") (valid_audience audience) p.named in
      let drawn : id ≡ p.id = cc p.drawn in
      let marshalled : codec.marshal identity ≡ some p.payload =
        subst
          (λ n.
            codec.marshal (new_identity claim_id worker_id audience start deadline n)
            ≡ some p.payload)
          (sym drawn) p.marshalled in
      let parts = ap split (sym p.shape) ∙ split-token_of codec s p.payload l in
      let usable =
        new_identity-usable claim_id worker_id audience id start deadline now later c w named
          p.lives before after in
      rw (a, small, parts)
        (rw
          (
            same,
            ==_self (header codec),
            ==_self (codec.base64 (codec.mac s.key (header codec ++ dot ∷ codec.base64 p.payload))),
            l.unbase64-base64 p.payload,
            l.unmarshal-marshal identity p.payload marshalled,
            usable,
            fresh,
          )
          refl)

  long_token :
      Issued codec s start (some id) claim_id worker_id audience deadline token
      → ltb 8192 (length token) ≡ true
      → verify codec later_service now later token audience ≡ err err_invalid
  unfolding verify
  long_token p big =
      let (_, _, a) =
        named_parts (claim_id == "") (worker_id == "") (valid_audience audience) p.named in
      rw (a, big) refl

  -- A token that Issue made is accepted by Verify when it has at most 8192 bytes, and refused when it has more,
  -- which Issue does not prevent. This is for the audience it was made for, by every service with the same key, from
  -- the second of its issue and before that of its expiry, while its identity is not revoked; and what is read of an
  -- accepted token is the identity it was issued for. The nonce is not empty, and base64 and JSON decode what they
  -- encode.
  pub issue-verify :
      IsLossless codec
      → issue codec s start (some id) claim_id worker_id audience deadline ≡ ok token
      → (id == "") ≡ false
      → later_service.key ≡ s.key
      → later_service.revoked id ≡ none
      → unix now < unix (expiry start deadline)
      → unix start ≤ unix later
      → verify codec later_service now later token audience ≡ (
          if ltb 8192 (length token)
          then err err_invalid
          else ok (new_identity claim_id worker_id audience start deadline id))
  issue-verify l h named same fresh before after =
      let p = issue-Issued codec s start (some id) claim_id worker_id audience deadline token h in
      elim (Bool-cases (ltb 8192 (length token))) [
        | inl big ↦ long_token p big ∙ rw big refl
        | inr small ↦ short_token l p small named same fresh before after ∙ rw small refl
      ]
