-- ===== src/Json.antt =====
-- JSON values, as encoding/json builds them from the maps and structs of the code. A body is kept
-- as a value, not as bytes: the database stores bodies in jsonb columns, which keep values only.
use go_hermes.Base.{ℕ, Bool, String, Option, none, some}
use go_hermes.Base.Int.{ℤ}

mutual
  pub data Json : Type 0 where
    null : Json
    text : String → Json
    num : ℤ → Json
    flag : Bool → Json
    -- A time.Time, which marshals to its RFC 3339 text.
    instant : ℕ → Json
    obj : Fields → Json

  pub data Fields : Type 0 where
    end : Fields
    field : String → Json → Fields → Fields

-- A pointer to a string: null if it is nil.
abbrev pub text_or_null : Option String → Json
text_or_null none = null
text_or_null (some s) = text s
