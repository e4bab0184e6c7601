-- ===== src/WorkloadIdentity/Trust.antt =====
-- What an accepted token proves, and that a revoked one is not accepted (internal/workloadidentity/token.go).
use agenova.Prelude.{
  ℕ, ◌+◌, ◌*◌, ◌≤◌, ◌<◌, String, Bool, true, false, not, ◌||◌, List, [], ◌∷◌, ◌++◌, Option, none,
  some, Result, ok, err, refuse_if, is_some, ◌==◌, ◌!=◌, string_eq, nat_eq, list_eq, ltb, length,
  update, update_self, ◌≡◌, ◌≢◌, refl, sym, ap, ◌∙◌, subst, arith, Bool-cases, inl, inr, ==_iff,
  false_ne, >>=-eq-ok, ok_injective,
}
use agenova.Prelude.Int.{pos, ltb_ℤ, leb_ℤ}
use agenova.WorkloadIdentity.{
  Bytes, Identity, Codec, Service, err_invalid, token_issuer, second, unix, valid_audience, dot,
  header, sign, expiry, new_identity, or_invalid, token_of, issue, split, unusable, verify_parts,
  verify, revoke_verified, revoke,
}
use agenova.WorkloadIdentity.Tokens.{issue-Issued, passed}

-- What Verify has established of a token and the identity it reads from it.
pub record Trusted (codec : Codec) (s : Service) (now later : ℕ) (token : Bytes) (audience : String)
    (identity : Identity) : Type 0 where
  pub addressed : valid_audience audience ≡ true
  pub part : Bytes
  pub payload : Bytes
  pub signed : split token ≡ header codec ∷ part ∷ sign codec s (header codec ++ dot ∷ part) ∷ []
  pub decoded : codec.unbase64 part ≡ some payload
  pub unmarshalled : codec.unmarshal payload ≡ some identity
  pub usable : unusable identity audience now later ≡ false
  pub live : s.revoked identity.id ≡ none

or_invalid-ok : {A : Type 0} (o : Option A) (a : A) → or_invalid o ≡ ok a → o ≡ some a
or_invalid-ok none a h = cc h
or_invalid-ok (some x) a h = ap some (ok_injective h)

absent : {A : Type 0} (o : Option A) → is_some o ≡ false → o ≡ none
absent none h = refl
absent (some a) h = cc h

same_bytes : (a b : Bytes) → (a != b) ≡ false → a ≡ b
same_bytes a b h = (==_iff a b).0 (ground (arith, h))

module _ (codec : Codec) (s : Service) (now later : ℕ) (audience : String) where
  three_parts :
      (token first part third : Bytes) (identity : Identity)
      → valid_audience audience ≡ true
      → split token ≡ first ∷ part ∷ third ∷ []
      → verify_parts codec s now later audience (first ∷ part ∷ third ∷ []) ≡ ok identity
      → Trusted codec s now later token audience identity
  three_parts token first part third identity a e h =
      let (_, f, h₁) = >>=-eq-ok (refuse_if (first != header codec) err_invalid) h in
      let (_, m, h₂) =
        >>=-eq-ok (refuse_if (third != sign codec s (first ++ dot ∷ part)) err_invalid) h₁ in
      let (payload, d, h₃) = >>=-eq-ok (or_invalid (codec.unbase64 part)) h₂ in
      let (i, u, h₄) = >>=-eq-ok (or_invalid (codec.unmarshal payload)) h₃ in
      let (_, n, h₅) = >>=-eq-ok (refuse_if (unusable i audience now later) err_invalid) h₄ in
      let (_, r, h₆) = >>=-eq-ok (refuse_if (is_some (s.revoked i.id)) err_invalid) h₅ in
      let same = ok_injective h₆ in
      let head = same_bytes first (header codec) (passed _ _ f) in
      let tail = same_bytes third (sign codec s (first ++ dot ∷ part)) (passed _ _ m) in
      record {
        addressed = a;
        part = part;
        payload = payload;
        signed =
            e
            ∙ (ap (λ t. first ∷ part ∷ t ∷ []) tail
                ∙ ap (λ f. f ∷ part ∷ sign codec s (f ++ dot ∷ part) ∷ []) head);
        decoded = or_invalid-ok (codec.unbase64 part) payload d;
        unmarshalled = or_invalid-ok (codec.unmarshal payload) i u ∙ ap some same;
        usable = subst (λ x. unusable x audience now later ≡ false) same (passed _ _ n);
        live =
            subst (λ (x : Identity). s.revoked x.id ≡ none) same
              (absent (s.revoked i.id) (passed _ _ r));
      }

  verify_parts-Trusted :
      (token : Bytes) (parts : List Bytes) (identity : Identity)
      → valid_audience audience ≡ true
      → split token ≡ parts
      → verify_parts codec s now later audience parts ≡ ok identity
      → Trusted codec s now later token audience identity
  verify_parts-Trusted token [] identity a e h = cc h
  verify_parts-Trusted token (x ∷ []) identity a e h = cc h
  verify_parts-Trusted token (x ∷ y ∷ []) identity a e h = cc h
  verify_parts-Trusted token (x ∷ y ∷ z ∷ []) identity a e h =
      three_parts token x y z identity a e h
  verify_parts-Trusted token (x ∷ y ∷ z ∷ w ∷ rest) identity a e h = cc h

  addressed_parts : (a b : Bool) → (not a || b) ≡ false → a ≡ true
  addressed_parts a b h = ground (arith, h)

  pub verify-Trusted :
      (token : Bytes) (identity : Identity)
      → verify codec s now later token audience ≡ ok identity
      → Trusted codec s now later token audience identity
  unfolding verify
  verify-Trusted token identity h =
      let (_, a, h₁) =
        >>=-eq-ok (refuse_if (not (valid_audience audience) || ltb 8192 (length token)) err_invalid)
          h in
      verify_parts-Trusted token (split token) identity (addressed_parts _ _ (passed _ _ a)) refl h₁

-- A token that Verify accepts has three parts, the first the fixed header, the third the encoded HMAC of the first
-- two under the service's key, and the identity is what the second part decodes to. That identity is for the audience
-- that asks, names a claim and a worker, is read before it expires and not before it was issued, and is not
-- revoked.
pub verify-signed :
    (codec : Codec) (s : Service) (now later : ℕ) (token : Bytes) (audience : String)
    (identity : Identity)
    → verify codec s now later token audience ≡ ok identity
    → ((part : Bytes) × (payload : Bytes) × (split token
          ≡ header codec ∷ part ∷ codec.base64 (codec.mac s.key (header codec ++ dot ∷ part)) ∷ [])
        × (codec.unbase64 part ≡ some payload)
        × (codec.unmarshal payload ≡ some identity))
      × (valid_audience audience ≡ true)
      × (identity.audience ≡ audience)
      × (identity.issuer ≡ token_issuer)
      × (identity.claim_id ≢ "")
      × (identity.worker_id ≢ "")
      × (ltb_ℤ (pos (unix now)) identity.expires ≡ true)
      × (leb_ℤ identity.issued_at (pos (unix later)) ≡ true)
      × (s.revoked identity.id ≡ none)
unfolding sign
verify-signed codec s now later token audience identity h =
    let t = verify-Trusted codec s now later audience token identity h in
    let (c, w, a, i, e, f) =
      usable_parts (identity.claim_id == "") (identity.worker_id == "") (identity.id == "")
        (identity.audience == audience) (identity.issuer == token_issuer)
        (leb_ℤ identity.expires identity.issued_at) (ltb_ℤ (pos (unix now)) identity.expires)
        (ltb_ℤ (pos (unix later)) identity.issued_at) t.usable in
    (
      (t.part, t.payload, t.signed, t.decoded, t.unmarshalled),
      t.addressed,
      (==_iff identity.audience audience).0 a,
      (==_iff identity.issuer token_issuer).0 i,
      false_ne identity.claim_id "" c,
      false_ne identity.worker_id "" w,
      e,
      f,
      t.live,
    )
  where
    usable_parts :
        (c w d a i x e l : Bool)
        → (c || (w || (d || (not a || (not i || (x || (not e || l))))))) ≡ false
        → (c ≡ false) × (w ≡ false) × (a ≡ true) × (i ≡ true) × (e ≡ true) × (not l ≡ true)
    usable_parts c w d a i x e l h = ground (arith, h)

some_not_none : {A : Type 0} (o : Option A) (a : A) → o ≡ some a → o ≢ none
some_not_none o a h k = cc (h, k)

second_of : {a b c d e f : Bytes} → ◌≡◌ {A = List Bytes} (a ∷ b ∷ c ∷ []) (d ∷ e ∷ f ∷ []) → b ≡ e
second_of h = cc h

revoked_service :
    (s s' : Service) (r : Result String Identity)
    → revoke_verified s r ≡ (s', none)
    → (i : Identity) × (r ≡ ok i) × (record s { revoked = update s.revoked i.id tt } ≡ s')
revoked_service s s' (err e) h =
    absurd (some_not_none (some err_invalid) err_invalid refl (ap (λ p. p.1) h))
revoked_service s s' (ok i) h = (i, refl, ap (λ p. p.0) h)

-- When Revoke succeeds, the service never again accepts the token, at any time and for any audience; it
-- keeps its key, and no identity with another name is revoked.
pub revoke-verify :
    (codec : Codec) (s s' : Service) (now later : ℕ) (token : Bytes) (audience : String)
    → revoke codec s now later token audience ≡ (s', none)
    → ((t u : ℕ) (other : String) (i : Identity) → verify codec s' t u token other ≢ ok i)
      × (s'.key ≡ s.key)
      × ((id : Identity) × (verify codec s now later token audience ≡ ok id)
          × ((name : String) → (id.id == name) ≡ false → s'.revoked name ≡ s.revoked name))
unfolding revoke
revoke-verify codec s s' now later token audience h =
    let (id, v, e) = revoked_service s s' (verify codec s now later token audience) h in
    let p = verify-Trusted codec s now later audience token id v in
    let revoked : s'.revoked id.id ≡ some tt =
      sym (ap (λ (x : Service). x.revoked id.id) e) ∙ update_self s.revoked id.id tt in
    (
      λ t u other i k.
          let q = verify-Trusted codec s' t u other token i k in
          let part : p.part ≡ q.part = second_of (sym p.signed ∙ q.signed) in
          let payload : p.payload ≡ q.payload = cc (p.decoded, q.decoded, ap codec.unbase64 part) in
          let same : id ≡ i = cc (p.unmarshalled, q.unmarshalled, ap codec.unmarshal payload) in
          some_not_none (s'.revoked id.id) tt revoked
            (ap (λ (x : Identity). s'.revoked x.id) same ∙ q.live),
      sym (ap (λ (x : Service). x.key) e),
      (id, v, λ name n. sym (ap (λ (x : Service). x.revoked name) e) ∙ rw n refl),
    )

-- The token that Issue makes is the signed encoding of an identity of the given claim, worker and audience, issued in
-- the current second, that expires at the start of a later second, at most 300 seconds later and not after the
-- deadline. Counted from the nanosecond of its issue its life can be shorter than a second.
pub issue-lifetime :
    (codec : Codec) (s : Service) (now : ℕ) (nonce : Option String)
    (claim_id worker_id audience : String) (deadline : ℕ) (token : Bytes)
    → issue codec s now nonce claim_id worker_id audience deadline ≡ ok token
    → (i : Identity) × (payload : Bytes) × (end : ℕ) × (codec.marshal i ≡ some payload)
      × (token_of codec s payload ≡ token)
      × (i.claim_id ≡ claim_id)
      × (i.worker_id ≡ worker_id)
      × (i.audience ≡ audience)
      × (i.issued_at ≡ pos (unix now))
      × (i.expires ≡ pos end)
      × (unix now < end)
      × (end ≤ unix now + 300)
      × (end * second ≤ deadline)
issue-lifetime codec s now nonce claim_id worker_id audience deadline token h =
    let p = issue-Issued codec s now nonce claim_id worker_id audience deadline token h in
    (
      new_identity claim_id worker_id audience now deadline p.id,
      p.payload,
      unix (expiry now deadline),
      p.marshalled,
      p.shape,
      refl,
      refl,
      refl,
      refl,
      refl,
      ground (arith, p.lives),
      before_expiry now deadline,
      before_deadline now deadline,
    )
  where
    before_expiry : (now deadline : ℕ) → unix (expiry now deadline) ≤ unix now + 300
    before_expiry now deadline = elim (Bool-cases (ltb deadline (now + 300 * second))) [
      | inl e ↦ let lt : deadline < now + 300 * second = ground (arith, e) in rw e (omega arith)
      | inr e ↦ rw e (omega arith)
    ]

    before_deadline : (now deadline : ℕ) → unix (expiry now deadline) * second ≤ deadline
    before_deadline now deadline = elim (Bool-cases (ltb deadline (now + 300 * second))) [
      | inl e ↦ rw e (omega arith)
      | inr e ↦ let ge : now + 300 * second ≤ deadline = ground (arith, e) in rw e (omega arith)
    ]
