-- ===== src/Facts/Published.antt =====
-- The journal's fields after a fact is published.
use agenova.Prelude.{
  String, [], ◌∷◌, ◌++◌, Option, none, some, Map, update, ◌==◌, string_eq, if◌then◌else◌, ◌≡◌, refl,
  ap, Bool-cases, inl, inr,
}
use agenova.Api.{BackendIdentity}
use agenova.Api.Equality.{backend_identity_eq}
use agenova.Facts.{Fact, Journal, InvocationState}
use agenova.Facts.Append.{publish, note_invocation, note_backend}

module _ (j : Journal) (g : Fact) (stage : InvocationState) where
  pub publish-facts : (publish j g stage).facts ≡ j.facts ++ g ∷ []
  unfolding publish
  publish-facts = refl

  pub publish-ids : (publish j g stage).ids ≡ update j.ids g.id tt
  unfolding publish
  publish-ids = refl

  noted : Journal
  noted = note_invocation j g stage

  abbrev SameButInvocations : Journal → Type 0
  SameButInvocations n =
      (n.start_sequence ≡ j.start_sequence)
      × (n.requests ≡ j.requests)
      × (n.claims ≡ j.claims)
      × (n.request_claims ≡ j.request_claims)
      × (n.invocations ≡ (
          if g.invocation_id == ""
          then j.invocations
          else update j.invocations g.invocation_id g.claim_id))
      × (n.invocation_states ≡ (
          if g.invocation_id == ""
          then j.invocation_states
          else update j.invocation_states g.invocation_id stage))

  note_fields :
      SameButInvocations noted
      × (noted.backends ≡ j.backends)
      × (noted.backend_owners ≡ j.backend_owners)
  unfolding noted
  note_fields = elim (Bool-cases (g.invocation_id == "")) [
    | inl e ↦ rw e ((refl, refl, refl, refl, refl, refl), refl, refl)
    | inr n ↦ rw n ((refl, refl, refl, refl, refl, refl), refl, refl)
  ]

  backend_fields : (b : Option BackendIdentity) → SameButInvocations (note_backend noted g b)
  backend_fields none = note_fields.0
  backend_fields (some id) = note_fields.0

  -- What the assignments leave, map by map.
  pub publish_fields : SameButInvocations (publish j g stage)
  unfolding publish noted
  publish_fields = backend_fields g.backend_identity

  abbrev pub backends_after : Option BackendIdentity → Map String BackendIdentity
  backends_after none = j.backends
  backends_after (some id) = update j.backends g.claim_id id

  abbrev pub owners_after : Option BackendIdentity → Map BackendIdentity String
  owners_after none = j.backend_owners
  owners_after (some id) = update j.backend_owners id g.claim_id

  noted_backends :
      (b : Option BackendIdentity)
      → ((note_backend noted g b).backends ≡ backends_after b)
        × ((note_backend noted g b).backend_owners ≡ owners_after b)
  noted_backends none = (note_fields.1, note_fields.2)
  noted_backends (some id) = (
    ap (λ (m : Map String BackendIdentity). update m g.claim_id id) note_fields.1,
    ap (λ (m : Map BackendIdentity String). update m id g.claim_id) note_fields.2,
  )

  pub publish_backends :
      ((publish j g stage).backends ≡ backends_after g.backend_identity)
      × ((publish j g stage).backend_owners ≡ owners_after g.backend_identity)
  unfolding publish noted
  publish_backends = noted_backends g.backend_identity
