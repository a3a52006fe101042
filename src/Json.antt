-- ===== src/Json.antt =====
-- The calls of the JSON library, as the program makes them: a parameter of the model.
use Prim.Native.String.{String}
use lightning_cast_endpoint.Base.{ℕ, List, Option, none, some, ℤ, Run, done, thrown}

-- What the program assigns to a member.
pub data Scalar : Type 0 where
  number : ℤ → Scalar
  text : List ℕ → Scalar

pub record JsonCpp : Type 1 where
  pub Value : Type 0
  -- Reader::parse(text, root, false); `none` for a text that it refuses.
  pub parse : List ℕ → Option Value
  -- root[key].asInt(); `none` where it throws, for a type that does not convert or a number that is no int. For a
  -- missing member it is 0.
  pub int_at : Value → String → Option ℤ
  -- root[key].asString(); `none` where it throws, for an array or an object. For a missing member it is empty.
  pub string_at : Value → String → Option (List ℕ)
  -- FastWriter::write of a value with these members, assigned in this order.
  pub write : List (String × Scalar) → List ℕ

module _ (json : JsonCpp) where
  open json use {Value, int_at, string_at}

  -- root[key].asInt() in a function with state `S`.
  abbrev pub int_member : {S : Type 0} → Value → String → Run S ℤ
  int_member root key s = elim (int_at root key) [ some n ↦ done (n, s) | none ↦ thrown ]

  abbrev pub string_member : {S : Type 0} → Value → String → Run S (List ℕ)
  string_member root key s = elim (string_at root key) [ some t ↦ done (t, s) | none ↦ thrown ]
