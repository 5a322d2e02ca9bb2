-- ===== src/Server/Json.antt =====
-- The values that `json.dumps` writes into a column: what the payloads of the records are.
use quail.Prelude.{ℕ}
use Prim.Native.String.{String}

mutual
  pub data Json : Type 0 where
    null : Json
    number : ℕ → Json
    text : String → Json
    object : Fields → Json

  pub data Fields : Type 0 where
    end : Fields
    field : String → Json → Fields → Fields

-- `{"name": name, "message": message, "recorded_at": now}`
abbrev pub phase_of : String → String → ℕ → Json
phase_of name message now = object (
    field "name" (text name)
      (field "message" (text message) (field "recorded_at" (number now) end)))

-- `{"type": type, "message": message}`
abbrev pub error_of : String → String → Json
error_of kind message = object (field "type" (text kind) (field "message" (text message) end))
