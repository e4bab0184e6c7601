-- ===== src/Api/TaskInput.antt =====
-- api/v1alpha1/claim_request.go: validateTaskInputValue, on the tree that reflection walks. A Go value
-- is told apart as far as the code tells it apart; a tree has no cycles, so the error for a cyclic
-- value does not arise. A mapping lists its keys in the sorted order in which the code visits them.
use Prim.Native.String.{◌++◌}
use agenova.Prelude.{
  ℕ, suc, String, Bool, not, ok, err, ◌>>◌, refuse_if, ◌==◌, string_eq, if◌then◌else◌,
}
use agenova.Prelude.Texts.{place}
use agenova.Api.Errors.{Check, invalid, validation_error, secret_value}
use agenova.Api.Credentials.{reserved_credential_field_name}

mutual
  pub data TaskValue : Type 0 where
    marshaler : TaskValue
    null : TaskValue
    text : String → TaskValue
    boolean : Bool → TaskValue
    integer : TaskValue
    float : (finite : Bool) → TaskValue
    bytes : TaskValue
    sequence : TaskItems → TaskValue
    mapping : (string_keys : Bool) → TaskFields → TaskValue
    other : TaskValue

  pub data TaskItems : Type 0 where
    no_items : TaskItems
    item : TaskValue → TaskItems → TaskItems

  pub data TaskFields : Type 0 where
    no_fields : TaskFields
    field : String → TaskValue → TaskFields → TaskFields

unfoldable pub join_path : String → String → String
join_path parent name = if parent == "$" then name else parent ++ "." ++ name

unfoldable mutual
  unfolding join_path reserved_credential_field_name

  pub validate_task_input_value : String → TaskValue → Check
  validate_task_input_value path marshaler =
      err (invalid path "custom JSON representations are not allowed in task input")
  validate_task_input_value path null = ok tt
  validate_task_input_value path (text s) = ok tt
  validate_task_input_value path (boolean b) = ok tt
  validate_task_input_value path integer = ok tt
  validate_task_input_value path (float finite) =
      refuse_if (not finite) (invalid path "floats must be finite JSON numbers")
  validate_task_input_value path bytes =
      err (invalid path "value has no consistent JSON representation")
  validate_task_input_value path (sequence items) = validate_task_items path 0 items
  validate_task_input_value path (mapping string_keys fields) = do
    refuse_if (not string_keys) (invalid path "mapping keys must be strings")
    validate_task_fields path fields
  validate_task_input_value path other =
      err (invalid path "value has no consistent JSON representation")

  pub validate_task_items : String → ℕ → TaskItems → Check
  validate_task_items path i no_items = ok tt
  validate_task_items path i (item value items) = do
    validate_task_input_value (place path i) value
    validate_task_items path (suc i) items

  pub validate_task_fields : String → TaskFields → Check
  validate_task_fields path no_fields = ok tt
  validate_task_fields path (field key value fields) = do
    refuse_if (reserved_credential_field_name key) (
        validation_error secret_value (join_path path key)
          "credential-bearing fields are not allowed in task input")
    validate_task_input_value (join_path path key) value
    validate_task_fields path fields
