-- ===== src/Json.antt =====
-- What the program uses of serde_json: values, their parse, and their members.
use honeybeepf_llm.Prelude.{Bool, Option, none, some, List, Bytes, bytes_eq, is_some}
pub use honeybeepf_llm.Prelude.Maps.{Map, lookup, insert, remove}

-- The fields of `SseChunkDelta` in types.rs, which serde reads from an object of these members.
pub record SseChunkDelta {ℓ} (V : Type ℓ) : Type ℓ where
  pub usage : Option V
  pub message : Option V
  pub response : Option V
  pub interaction : Option V

-- Values, and what serde_json and the derived readers make of a text.
pub record Json : Type 1 where
  pub Value : Type 0
  pub from_str : Bytes → Option Value
  pub chunk_delta : Bytes → Option (SseChunkDelta Value)
  pub is_null : Value → Bool
  pub as_str : Value → Option Bytes
  pub as_array : Value → Option (List Value)
  pub as_object : Value → Option (Map Value)
  pub object : Map Value → Value
  pub array : List Value → Value

abbrev pub and_then {ℓ κ} : {A : Type ℓ} {B : Type κ} → Option A → (A → Option B) → Option B
and_then none f = none
and_then (some x) f = f x

-- `Option::is_some_and`
abbrev pub is_some_and {ℓ} : {A : Type ℓ} → Option A → (A → Bool) → Bool
is_some_and none test = Bool.false
is_some_and (some x) test = test x

module _ (J : Json) where
  -- `Value::get` with a key.
  abbrev pub get : Bytes → J.Value → Option J.Value
  get key v = and_then (J.as_object v) (lookup key)

  abbrev pub has : Bytes → J.Value → Bool
  has key v = is_some (get key v)

  -- `v.get(key).and_then(Value::as_str) == Some(text)`
  abbrev pub text_is : Bytes → Bytes → J.Value → Bool
  text_is key text v = is_some_and (and_then (get key v) J.as_str) (bytes_eq text)
