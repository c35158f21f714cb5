-- ===== src/Schema/References.antt =====
-- Circular references in validateSchemaValueAt of internal/engine/tool_validation.go.
use ergo_agent.Prelude.{ℕ, zero, suc, String, Bool, ◌≡◌, refl, none, some}
use ergo_agent.Json.{Value, str, Fields, get}
use ergo_agent.Schema.{PathTo, validate, check_call}
use ergo_agent.Schema.Values.{resolve_local_schema_ref}

module _ (matches : String → String → Bool) where
  -- At a schema whose reference is resolved to the schema itself, validateSchemaValueAt returns at
  -- no depth of calls, whatever the value.
  pub validate-circular :
      (root schema : Fields) (reference : String) (v : Value) (path : PathTo) (fuel : ℕ)
      → get "$ref" schema ≡ some (str reference)
      → resolve_local_schema_ref root reference ≡ some schema
      → validate matches fuel root schema v path ≡ none
  unfolding validate check_call
  validate-circular root schema reference v path zero h r = refl
  validate-circular root schema reference v path (suc fuel) h r =
      cc (h, r, validate-circular root schema reference v path fuel h r)
