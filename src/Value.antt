-- ===== src/Value.antt =====
-- The Python values that reach the package through an `Any`, as far as its code tells them apart.
use policyengine_observabili.Base.{ℕ, Text, ℤ, Float, Bool, Option}

-- `str` and `int` are the instances of these types, so that a member of a `StrEnum` or an `IntEnum` is
-- among them, as the text or the number that it is; `enum` is a member of any other `Enum`, with its
-- `value`; `object` is any other object that can be hashed.
pub data Value : Type 0 where
  null : Value
  bool : Bool → Value
  int : ℤ → Value
  float : Float → Value
  str : Text → Value
  enum : Value → Value
  object : ℕ → Value

-- An exception as the code looks at it: the name of its type, and its message and its formatted
-- stack, which are `none` where `str` or `traceback` raise.
pub record Failure : Type 0 where
  pub type_name : Text
  pub message : Option Text
  pub stack : Option Text
