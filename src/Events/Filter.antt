-- ===== src/Events/Filter.antt =====
-- conn_filter.rs: the filter of foreign hosts leaves calls in progress alone.
use honeybeepf_llm.Prelude.{
  ◌≡◌, ap, ◌∙◌, Bool, true, false, Bool-cases, inl, inr, not, ◌||◌, some, Bytes, bytes_eq,
  bytes_eq→eq, arith,
}
use honeybeepf_llm.Prelude.Maps
use honeybeepf_llm.Prelude.Maps.{Map, lookup-remove_other}
use honeybeepf_llm.Processor.Types.{Http, StreamProcessor, is_llm}
use honeybeepf_llm.Events.Loop.{
  EventHeader, key_of, System, in_progress, opens_foreign_request, skip_if_foreign,
}

module _ (H : Http) (has_foreign_host : Bytes → Bool) where
  removed_other :
      (k key : Bytes) (p : StreamProcessor H) (m : Map (StreamProcessor H))
      → Maps.lookup k m ≡ some p
      → is_llm H p ≡ true
      → in_progress H (Maps.lookup key m) ≡ false
      → Maps.lookup k (Maps.remove key m) ≡ some p
  removed_other k key p m found llm idle = elim (Bool-cases (bytes_eq key k)) [
    | inl same ↦
        let busy =
          ap (in_progress H) (ap (λ (j : Bytes). Maps.lookup j m) (bytes_eq→eq key k same) ∙ found)
          ∙ llm in
        absurd cc
    | inr other ↦ lookup-remove_other k key m other ∙ found
  ]

  or_right : (a b : Bool) → (a || b) ≡ false → b ≡ false
  or_right a b e = ground arith

  -- The filter of foreign hosts leaves every stream with an LLM call in progress as it is,
  -- whatever the event, also where it is one of the same connection.
  pub skip_if_foreign-lookup :
      (header : EventHeader) (bytes : Bytes) (s : System H) (k : Bytes) (p : StreamProcessor H)
      → Maps.lookup k s.streams ≡ some p
      → is_llm H p ≡ true
      → Maps.lookup k (System.streams (skip_if_foreign H has_foreign_host header bytes s).1)
        ≡ some p
  unfolding skip_if_foreign
  skip_if_foreign-lookup header bytes s k p found llm =
      elim (Bool-cases (
        not (opens_foreign_request H has_foreign_host header bytes)
        || in_progress H (Maps.lookup (key_of header) s.streams))) [
          | inl stays ↦ rw stays found
          | inr skips ↦
              rw skips (removed_other k (key_of header) p s.streams found llm (or_right _ _ skips))
        ]
