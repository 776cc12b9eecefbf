-- ===== src/Sse.antt =====
-- http/sse.rs: a server-sent event stream read line by line, its usage merged across events.
pub mod Split
use honeybeepf_llm.Prelude.{
  ℕ, zero, suc, ◌+◌, Bool, true, false, not, ◌&&◌, ◌||◌, Option, none, some, List, [], ◌∷◌, ◌++◌,
  Bytes, length, take, drop, bytes_eq, ltb, ◌==◌, is_some, if◌then◌else◌, map,
}
use honeybeepf_llm.Hpack.Types.{codes}
use honeybeepf_llm.ByteUtils.Search.{starts_with, contains_pattern}
use honeybeepf_llm.Text.{from_utf8_lossy, lines, trim}
use honeybeepf_llm.Json.{
  Map, lookup, insert, SseChunkDelta, Json, and_then, is_some_and, get, has, text_is,
}

abbrev pub sse_end_markers : List Bytes
sse_end_markers =
    codes "\"finish_reason\""
    ∷ codes "\"message_stop\""
    ∷ codes "\"finishReason\""
    ∷ codes "\"blockReason\""
    ∷ codes "\"response.completed\""
    ∷ codes "\"response.failed\""
    ∷ codes "\"response.incomplete\""
    ∷ codes "\"interaction.completed\""
    ∷ []

abbrev pub max_fallback_blocks : ℕ
max_fallback_blocks = 64

abbrev pub done_line : Bytes
done_line = codes "data: [DONE]"

abbrev pub data_prefix : Bytes
data_prefix = codes "data: "

unfoldable pub any_marker : List Bytes → Bytes → Bool
any_marker [] line = false
any_marker (marker ∷ markers) line = contains_pattern line marker || any_marker markers line

pub record SseCursor (V : Type 0) : Type 0 where
  pub partial : Bytes
  pub ended : Bool
  pub done : Bool
  pub acc : Option V
  pub fallbacks : List V

-- `SseCursor::default()`
abbrev pub default : {V : Type 0} → SseCursor V
default = record { partial = []; ended = false; done = false; acc = none; fallbacks = [] }

-- The place of the last newline.
unfoldable pub last_newline : Bytes → Option ℕ
last_newline [] = none
last_newline (b ∷ bs) = elim (last_newline bs) [
  | some i ↦ some (i + 1)
  | none ↦ if b == 10 then some 0 else none
]

abbrev pub partial_len : {V : Type 0} → SseCursor V → ℕ
partial_len c = length c.partial

module _ (J : Json) where
  -- `SseChunkDelta::has_usage`
  unfoldable pub has_usage : SseChunkDelta J.Value → Bool
  has_usage chunk =
      is_some chunk.usage
      || is_some_and chunk.message (has J (codes "usage"))
      || is_some_and chunk.response
          (λ r. is_some_and (get J (codes "usage") r) (λ u. not (J.is_null u)))
      || is_some_and chunk.interaction
          (λ i. is_some_and (get J (codes "usage") i) (λ u. not (J.is_null u)))

  -- body.rs
  unfoldable pub is_responses_event : J.Value → Bool
  is_responses_event val =
      not (has J (codes "usage") val)
      && is_some_and (get J (codes "response") val) (λ r. is_some (J.as_object r))

  -- The members of a later object that are not null, over those of an earlier one.
  unfoldable pub extend_not_null : Map J.Value → Map J.Value → Map J.Value
  extend_not_null prev [] = prev
  extend_not_null prev ((key, value) ∷ next) =
      extend_not_null (if J.is_null value then prev else insert key value prev) next

  abbrev pub overlay : Option J.Value → J.Value → J.Value
  overlay none value = value
  overlay (some slot) value = elim (J.as_object slot) [
    | none ↦ value
    | some prev ↦ elim (J.as_object value) [
      | none ↦ value
      | some next ↦ J.object (extend_not_null prev next)
    ]
  ]

  unfoldable pub merge_members : Map J.Value → Map J.Value → Map J.Value
  unfolding extend_not_null
  merge_members acc [] = acc
  merge_members acc ((key, value) ∷ update) =
      merge_members (insert key (overlay (lookup key acc) value) acc) update

  unfoldable pub merge_sse_event : J.Value → J.Value → J.Value
  unfolding merge_members
  merge_sse_event acc update = elim (J.as_object acc) [
    | none ↦ acc
    | some members ↦ elim (J.as_object update) [
      | none ↦ acc
      | some later ↦ J.object (merge_members members later)
    ]
  ]

  abbrev pub member_or : Bytes → J.Value → J.Value
  member_or key val = elim (get J key val) [ none ↦ val | some inner ↦ inner ]

  -- The value that an event nests under a member, or the event itself.
  unfoldable pub unwrapped : J.Value → J.Value
  unfolding is_responses_event
  unwrapped val =
      if is_some_and (get J (codes "message") val) (has J (codes "usage"))
      then member_or (codes "message") val
      else if is_responses_event val
      then member_or (codes "response") val
      else if is_some_and (get J (codes "interaction") val) (has J (codes "usage"))
      then member_or (codes "interaction") val
      else val

  unfoldable pub merge_usage_event : Option J.Value → J.Value → Option J.Value
  unfolding unwrapped merge_sse_event
  merge_usage_event none val = some (unwrapped val)
  merge_usage_event (some prev) val = some (merge_sse_event prev (unwrapped val))

  -- The line that ends a stream and the end markers.
  abbrev pub read_end : SseCursor J.Value → Bytes → SseCursor J.Value
  read_end c line =
      if bytes_eq line done_line
      then record c { ended = true; done = true }
      else if not c.ended && any_marker sse_end_markers line
      then record c { ended = true }
      else c

  -- The fallback block that a content_block_start event carries.
  unfoldable pub fallback_block : Bytes → Option J.Value
  fallback_block text =
      if contains_pattern text (codes "\"fallback\"")
      then and_then (J.from_str text) (λ v.
        if text_is J (codes "type") (codes "content_block_start") v
        then and_then (get J (codes "content_block") v) (λ block.
          if text_is J (codes "type") (codes "fallback") block then some block else none)
        else none)
      else none

  abbrev pub push_fallback : SseCursor J.Value → Option J.Value → SseCursor J.Value
  push_fallback c none = c
  push_fallback c (some block) = record c { fallbacks = c.fallbacks ++ block ∷ [] }

  abbrev pub read_fallback : SseCursor J.Value → Bytes → SseCursor J.Value
  read_fallback c text =
      if ltb (length c.fallbacks) max_fallback_blocks
      then push_fallback c (fallback_block text)
      else c

  unfoldable pub is_usage_event : Bytes → Bool
  unfolding has_usage
  is_usage_event text = is_some_and (J.chunk_delta text) (λ chunk.
      has_usage chunk || is_some_and chunk.response (text_is J (codes "status") (codes "failed")))

  abbrev pub merged : SseCursor J.Value → Option J.Value → SseCursor J.Value
  merged c none = c
  merged c (some val) = record c { acc = merge_usage_event c.acc val }

  abbrev pub read_usage : SseCursor J.Value → Bytes → SseCursor J.Value
  read_usage c text = if is_usage_event text then merged c (J.from_str text) else c

  abbrev pub read_data : SseCursor J.Value → Bytes → SseCursor J.Value
  read_data c line =
      let text = drop (length data_prefix) line in
      if c.done || not (starts_with line data_prefix)
      then c
      else read_usage (read_fallback c text) text

  -- One round of the loop, on a line as `lines` gives it.
  unfoldable pub read_line : SseCursor J.Value → Bytes → SseCursor J.Value
  unfolding any_marker fallback_block is_usage_event merge_usage_event trim
  read_line c line = read_data (read_end c (trim line)) (trim line)

  unfoldable pub read_each : SseCursor J.Value → List Bytes → SseCursor J.Value
  unfolding read_line
  read_each c [] = c
  read_each c (line ∷ later) = read_each (read_line c line) later

  unfoldable pub read_lines : SseCursor J.Value → Bytes → SseCursor J.Value
  unfolding read_each
  read_lines c bytes = read_each c (lines (from_utf8_lossy bytes))

  abbrev pub hold : SseCursor J.Value → Bytes → SseCursor J.Value
  hold c bytes = record c { partial = c.partial ++ bytes }

  -- `partial` is taken for the join, and given back cleared.
  abbrev pub read_complete : Bytes → SseCursor J.Value → Bytes → SseCursor J.Value
  read_complete [] c complete = read_lines c complete
  read_complete (b ∷ bs) c complete =
      record (read_lines (record c { partial = [] }) ((b ∷ bs) ++ complete)) { partial = [] }

  abbrev pub feed_at : SseCursor J.Value → Bytes → Option ℕ → SseCursor J.Value
  feed_at c bytes none = hold c bytes
  feed_at c bytes (some last) =
      hold (read_complete c.partial c (take (suc last) bytes)) (drop (suc last) bytes)

  unfoldable pub feed : SseCursor J.Value → Bytes → SseCursor J.Value
  unfolding last_newline read_lines
  feed c bytes = feed_at c bytes (last_newline bytes)

  abbrev pub with_content : List J.Value → Map J.Value → J.Value
  with_content blocks acc = elim (and_then (lookup (codes "content") acc) J.as_array) [
    | some content ↦ J.object (insert (codes "content") (J.array (content ++ blocks)) acc)
    | none ↦ J.object (insert (codes "content") (J.array blocks) acc)
  ]

  -- `parse_response_json_value` stands for body.rs: the usage that a response object reports.
  unfoldable pub usage : {U : Type 0} → (J.Value → Option U) → SseCursor J.Value → Option U
  usage parse_response_json_value c = if not c.ended then none else elim c.fallbacks [
    | [] ↦ and_then c.acc parse_response_json_value
    | block ∷ blocks ↦
        and_then (and_then c.acc J.as_object)
          (λ acc. parse_response_json_value (with_content (block ∷ blocks) acc))
  ]

  unfoldable pub parse_sse_body : {U : Type 0} → (J.Value → Option U) → Bytes → Option U
  unfolding feed usage
  parse_sse_body parse_response_json_value body =
      usage parse_response_json_value (feed default body)
