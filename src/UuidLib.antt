-- ===== src/UuidLib.antt =====
-- What the code uses of github.com/google/uuid, as a parameter of the definitions that call it.
use go_hermes.Base.{String, Bool, Option}
use go_hermes.Entity.{Uuid}

pub record UuidLib : Type 0 where
  -- `uuid.Parse`, `UUID.String` and Go's `<` on the texts of two UUIDs.
  pub parse : String → Option Uuid
  pub text : Uuid → String
  pub text_lt : Uuid → Uuid → Bool
