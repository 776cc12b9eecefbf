-- ===== src/Hpack/Types.antt =====
-- The types of h2/hpack.rs, and the effects its functions have.
use Prim.Native.Char.{code}
use Prim.Native.String.{String}
use honeybeepf_llm.Prelude.{ℕ, Bool, Option, none, some, List, [], ◌∷◌, ◌++◌, Bytes, ◌*◌}

-- The bytes of an ASCII literal.
abbrev pub codes : String → Bytes
codes String.[] = []
codes (String.◌∷◌ c s) = code c ∷ codes s

pub data HpackError : Type 0 where
  truncated integer_overflow huffman bad_index table_size : HpackError

-- Rust's `Result<A, HpackError>`. `stuck` is no value of the program: a loop that ran out of fuel.
pub data Outcome {ℓ} (A : Type ℓ) : Type ℓ where
  ok : A → Outcome A
  err : HpackError → Outcome A
  stuck : Outcome A

-- `?` on a result that carries no state.
abbrev pub and_then {ℓ κ} : {A : Type ℓ} {B : Type κ} → Outcome A → (A → Outcome B) → Outcome B
and_then (ok a) f = f a
and_then (err e) f = err e
and_then stuck f = stuck

abbrev pub ok_or {ℓ} : {A : Type ℓ} → Option A → HpackError → Outcome A
ok_or none e = err e
ok_or (some a) e = ok a

pub data Text : Type 0 where
  known : Bytes → Text
  unknown : Text

pub record Field : Type 0 where
  pub name : Text
  pub value : Text

pub record Entry : Type 0 where
  pub name : Option Bytes
  pub value : Bytes

pub record Decoder : Type 0 where
  pub entries : List Entry
  pub size : ℕ
  pub max_size : ℕ
  pub limit : ℕ
  pub forgotten : Bool
  pub name : Bytes
  pub value : Bytes

abbrev pub max_table_size : ℕ
max_table_size = 64 * 1024

abbrev pub default_table_size : ℕ
default_table_size = 4096

abbrev pub entry_overhead : ℕ
entry_overhead = 32

-- What a `&mut self` method that reports fields through a callback changes: the decoder, and the
-- fields passed to the callback so far, in order.
pub record Run : Type 0 where
  pub decoder : Decoder
  pub fields : List Field

abbrev pub M {ℓ} : Type ℓ → Type ℓ
M A = Run → Outcome A × Run

abbrev pub continue {ℓ κ} :
    {A : Type ℓ} {B : Type κ} → Outcome A × Run → (A → M B) → Outcome B × Run
continue (ok a, s) f = f a s
continue (err e, s) f = (err e, s)
continue (stuck, s) f = (stuck, s)

infixl 5 ◌>>=◌ ◌>>◌
abbrev pub ◌>>=◌ {ℓ κ} : {A : Type ℓ} {B : Type κ} → M A → (A → M B) → M B
◌>>=◌ m f s = continue (m s) f

abbrev pub ◌>>◌ {ℓ} : {B : Type ℓ} → M (Unit {0}) → M B → M B
m >> k = m >>= λ _. k

abbrev pub lift {ℓ} : {A : Type ℓ} → Outcome A → M A
lift r s = (r, s)

abbrev pub get : M Run
get s = (ok s, s)

abbrev pub modify : (Decoder → Decoder) → M (Unit {0})
modify f s = (ok tt, record s { decoder = f s.decoder })

-- A call of the callback `on`.
abbrev pub on : Field → M (Unit {0})
on f s = (ok tt, record s { fields = s.fields ++ f ∷ [] })
