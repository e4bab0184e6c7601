-- ===== src/Api/Credentials.antt =====
-- api/v1alpha1/credential_fields.go: the names of fields that would carry a credential.
use agenova.Prelude.{
  ℕ, String, Bool, ◌||◌, List, [], ◌∷◌, ◌==◌, nat_eq, list_eq, any, Option, none, some,
  if◌then◌else◌,
}
use agenova.Prelude.Texts.{codes, to_lower}

-- The keys of the map reservedCredentialFieldNames.
unfoldable pub reserved_credential_field_names : List String
reserved_credential_field_names =
    "token" ∷ "githubtoken" ∷ "ghtoken" ∷ "ghenterprisetoken" ∷ "githubenterprisetoken" ∷ "npmtoken"
    ∷ "gitlabtoken" ∷ "sshprivatekey" ∷ "auth" ∷ "authtoken" ∷ "accesstoken" ∷ "refreshtoken"
    ∷ "clientsecret" ∷ "azureclientsecret" ∷ "apikey" ∷ "openaiapikey" ∷ "anthropicapikey"
    ∷ "azureopenaiapikey" ∷ "accesskey" ∷ "awsaccesskeyid" ∷ "awssecretaccesskey"
    ∷ "awssessiontoken" ∷ "secretkey" ∷ "privatekey" ∷ "password" ∷ "secret" ∷ "credential"
    ∷ "credentials" ∷ "authorization" ∷ "googleapplicationcredentials" ∷ []

-- The replacer that takes every '-' and '_' away.
abbrev pub without_dashes : List ℕ → List ℕ
without_dashes [] = []
without_dashes (c ∷ s) =
    let rest = without_dashes s in if c == b'-' || c == b'_' then rest else c ∷ rest

unfoldable pub normalize_credential_field_name : String → List ℕ
unfolding to_lower
normalize_credential_field_name name = without_dashes (to_lower (codes name))

unfoldable pub reserved_credential_field_name : String → Bool
unfolding reserved_credential_field_names normalize_credential_field_name
reserved_credential_field_name name =
    any (λ reserved. codes reserved == normalize_credential_field_name name)
      reserved_credential_field_names

-- FindReservedCredentialFieldName, of a Go map given by its entries in the lexical order of their keys:
-- the lexically first reserved key, if there is one.
unfoldable pub find_reserved_credential_field_name : List (String × String) → Option String
unfolding reserved_credential_field_name
find_reserved_credential_field_name [] = none
find_reserved_credential_field_name ((key, value) ∷ values) =
    let rest = find_reserved_credential_field_name values in
    if reserved_credential_field_name key then some key else rest
