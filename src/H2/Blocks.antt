-- ===== src/H2/Blocks.antt =====
-- http/h2/conn.rs: what is read from a request's and from a response's header block.
use honeybeepf_llm.Prelude.{
  ℕ, Bool, false, ◌&&◌, Option, none, some, List, [], ◌∷◌, ◌++◌, Bytes, length, bytes_eq, ltb, ◌==◌,
  if◌then◌else◌,
}
use honeybeepf_llm.Hpack.Types.{
  codes, Outcome, ok, err, stuck, Text, known, unknown, Field, Decoder, Run,
}
use honeybeepf_llm.Hpack.Decode.{decode}
use honeybeepf_llm.Utf8.{is_utf8}
use honeybeepf_llm.Json.{and_then}

-- What the callback of `match_request` gathers.
pub record Request : Type 0 where
  pub is_post : Bool
  pub authority : Option Bytes
  pub path : Option Bytes

abbrev pub gather_known : Request → Bytes → Bytes → Request
gather_known q name value =
    if bytes_eq name (codes ":method")
    then record q { is_post = bytes_eq value (codes "POST") }
    else if bytes_eq name (codes ":authority")
    then record q { authority = some value }
    else if bytes_eq name (codes ":path")
    then record q { path = some value }
    else q

abbrev pub gather_texts : Request → Text → Text → Request
gather_texts q (known name) (known value) = gather_known q name value
gather_texts q (known name) unknown = q
gather_texts q unknown value = q

unfoldable pub gather_request : Request → List Field → Request
gather_request q [] = q
gather_request q (field ∷ fields) = gather_request (gather_texts q field.name field.value) fields

-- `path.split_once('?')`, its first part, or the path.
unfoldable pub before_query : Bytes → Bytes
before_query [] = []
before_query (b ∷ bs) = let rest = before_query bs in if b == 63 then [] else b ∷ rest

abbrev pub utf8 : Bytes → Option Bytes
utf8 text = if is_utf8 text then some text else none

-- What the callback of `collect_response` gathers.
pub record Response : Type 0 where
  pub content_type : Option Bytes
  pub coding : Bytes

abbrev pub max_coding : ℕ
max_coding = 256

abbrev pub add_coding : Bytes → Bytes → Bytes
add_coding [] value = value
add_coding (b ∷ bs) value = (b ∷ bs) ++ 44 ∷ value

abbrev pub collect_known : Response → Bytes → Bytes → Response
collect_known a name value =
    if bytes_eq name (codes "content-type")
    then record a { content_type = some value }
    else if bytes_eq name (codes "content-encoding") && ltb (length a.coding) max_coding
    then record a { coding = add_coding a.coding value }
    else a

abbrev pub collect_texts : Response → Text → Text → Response
collect_texts a (known name) (known value) = collect_known a name value
collect_texts a (known name) unknown = a
collect_texts a unknown value = a

unfoldable pub collect_fields : Response → List Field → Response
collect_fields a [] = a
collect_fields a (field ∷ fields) = collect_fields (collect_texts a field.name field.value) fields

-- A block's outcome, the decoder it leaves and the fields it reported.
abbrev pub decode_block : Decoder → Bytes → Outcome (Unit {0}) × Run
decode_block decoder block = decode block (record { decoder = decoder; fields = [] })

abbrev pub collected : Outcome (Unit {0}) × Run → Response × Decoder
collected (ok u, run) =
    (collect_fields (record { content_type = none; coding = [] }) run.fields, run.decoder)
collected (err e, run) = (record { content_type = none; coding = [] }, run.decoder)
collected (stuck, run) = (record { content_type = none; coding = [] }, run.decoder)

unfoldable pub collect_response : Decoder → Bytes → Response × Decoder
unfolding decode collect_fields
collect_response decoder block = collected (decode_block decoder block)

-- `serves` is `find_provider(host, path).is_some()` of the registry.
module _ (serves : Bytes → Bytes → Bool) where
  abbrev pub served : Request → Option Bytes
  served q =
      if q.is_post
      then and_then q.authority (λ a. and_then (utf8 a) (λ authority. and_then q.path (λ p.
        and_then (utf8 p)
          (λ path. if serves authority path then some (before_query path) else none))))
      else none

  abbrev pub matched : Outcome (Unit {0}) × Run → Option Bytes × Decoder
  matched (ok u, run) = (
    served (gather_request (record { is_post = false; authority = none; path = none }) run.fields),
    run.decoder,
  )
  matched (err e, run) = (none, run.decoder)
  matched (stuck, run) = (none, run.decoder)

  unfoldable pub match_request : Decoder → Bytes → Option Bytes × Decoder
  unfolding decode gather_request before_query
  match_request decoder block = matched (decode_block decoder block)
