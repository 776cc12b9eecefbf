-- ===== src/Processor/Sound/Event.antt =====
-- processor.rs: buffering, detection and parsing keep a connection sound.
use mathlib.Core.Path.{subst}
use honeybeepf_llm.Prelude.{
  ℕ, ◌+◌, ◌^◌, ◌≤◌, ◌<◌, ◌≡◌, refl, sym, Bool, true, false, Bool-cases, inl, inr, Option, none,
  some, [], if◌then◌else◌, ◌++◌, Bytes, length, length-append, ltb, ltb→ge, arith, is_some, not,
  ◌&&◌,
}
use honeybeepf_llm.Prelude.Maps.{Map}
use honeybeepf_llm.Background.Calls.{PendingCall}
use honeybeepf_llm.H2.Stream.{max_response_buffer_size}
use honeybeepf_llm.Processor.Types.{
  max_request_buffer_size, detection_buffer_threshold, LlmDirection, is_read, Http, PastLimit,
  ProcessorState, detecting, processing_request, processing_response, http2, finished,
  StreamProcessor,
}
use honeybeepf_llm.Processor.Event.{
  Buffered, kept, ignored, overflow, past_start, past_feed, reset, reset_finished, appended_write,
  buffer_write, followed, follow, follow_from, buffer_response, buffer_read_by, buffer_read,
  detect_rest, detect_poll, detect_by, detect, buffer,
}
use honeybeepf_llm.Processor.Sound.Invariant.{
  StartsWithin, KeepsNone, IsFresh, Held, StateOk, IsSound,
}

module _ (H : Http) where
  -- What a buffered fragment leaves to be acted on.
  abbrev pub Ready : LlmDirection → ProcessorState H → StreamProcessor H → Type 0
  Ready d detecting p = IsFresh H p × (p.continuation ≡ none)
  Ready d (processing_request start parser) p = is_read d ≡ false → IsFresh H p
  Ready d (processing_response start parser) p = Unit
  Ready d (http2 conn) p = StateOk H (http2 conn) p
  Ready d finished p = p.continuation ≡ none

  abbrev pub BufferedOk : LlmDirection → StreamProcessor H × Buffered → Type 0
  BufferedOk d (p, kept) = Held H p × Ready d p.state p
  BufferedOk d (p, ignored) = IsSound H p
  BufferedOk d (p, overflow reason) = p.frag_next < 2 ^ 32

  pub reset-IsSound : (p : StreamProcessor H) → p.frag_next < 2 ^ 32 → IsSound H (reset H p)
  unfolding reset
  reset-IsSound p lt = record {
    held = (omega arith, omega arith, lt, tt, tt);
    state_ok = ((refl, refl, refl), refl);
  }

  reset_finished-IsSound :
      (s : ProcessorState H) (p : StreamProcessor H)
      → IsSound H p
      → IsSound H (reset_finished H s p)
  reset_finished-IsSound finished p ok = reset-IsSound p ok.held.2
  reset_finished-IsSound detecting p ok = ok
  reset_finished-IsSound (processing_request start parser) p ok = ok
  reset_finished-IsSound (processing_response start parser) p ok = ok
  reset_finished-IsSound (http2 conn) p ok = ok

  written_Ready :
      (d : LlmDirection) (s : ProcessorState H) (p : StreamProcessor H) (w : Bytes)
      → StateOk H s p
      → Ready d s (record p { write_buf = w })
  written_Ready d detecting p w h = h
  written_Ready d (processing_request start parser) p w h = λ _. h
  written_Ready d (processing_response start parser) p w h = tt
  written_Ready d (http2 conn) p w h = h
  written_Ready d finished p w h = h

  longer_StartsWithin :
      (o : Option (ℕ × ℕ)) (w bytes : Bytes) → StartsWithin o w → StartsWithin o (w ++ bytes)
  longer_StartsWithin none w bytes h = tt
  longer_StartsWithin (some (at, start)) w bytes h = omega (arith, length-append w bytes)

  appended_write-BufferedOk :
      (d : LlmDirection) (bytes : Bytes) (p : StreamProcessor H)
      → IsSound H p
      → BufferedOk d (appended_write H bytes p)
  appended_write-BufferedOk d bytes p ok =
      elim (Bool-cases (ltb max_request_buffer_size (length p.write_buf + length bytes))) [
        | inl over ↦ rw over ok.held.2
        | inr fits ↦ rw fits (
          (
            omega (arith, ltb→ge _ _ fits, length-append p.write_buf bytes),
            ok.held.1,
            ok.held.2,
            ok.held.3,
            longer_StartsWithin p.next_request p.write_buf bytes ok.held.4,
          ),
          written_Ready d p.state p (p.write_buf ++ bytes) ok.state_ok,
        )
      ]

  abbrev is_idle : ProcessorState H → Bool
  is_idle detecting = true
  is_idle finished = true
  is_idle _ = false

  -- A response byte came in: the request is over.
  response_Ready :
      (s : ProcessorState H) (p q : StreamProcessor H)
      → StateOk H s p
      → is_idle s ≡ false
      → Ready LlmDirection.read_side s q
  response_Ready detecting p q h e = cc
  response_Ready (processing_request start parser) p q h e = λ f. cc
  response_Ready (processing_response start parser) p q h e = tt
  response_Ready (http2 conn) p q h e = h
  response_Ready finished p q h e = cc

  followed-BufferedOk :
      (p : StreamProcessor H) (fed : PastLimit H × Bool)
      → Held H p
      → p.read_buf ≡ []
      → Ready LlmDirection.read_side p.state (record p { past_limit = some fed.0 })
      → BufferedOk LlmDirection.read_side (followed H p fed)
  followed-BufferedOk p (limit, true) h e r = ((h.0, h.1, h.2, e, h.4), r)
  followed-BufferedOk p (limit, false) h e r = h.2

  follow-BufferedOk :
      (o : Option (PastLimit H)) (bytes : Bytes) (p : StreamProcessor H)
      → IsSound H p
      → is_idle p.state ≡ false
      → p.past_limit ≡ o
      → (o ≡ none → length p.read_buf + length bytes ≤ max_response_buffer_size)
      → BufferedOk LlmDirection.read_side (follow H o bytes p)
  follow-BufferedOk none bytes p ok busy e fits = (
    (
      ok.held.0,
      omega (arith, fits refl, length-append p.read_buf bytes),
      ok.held.2,
      subst (λ (o : Option (PastLimit H)). KeepsNone H o (p.read_buf ++ bytes)) (sym e) tt,
      ok.held.4,
    ),
    response_Ready p.state p (record p { read_buf = p.read_buf ++ bytes }) ok.state_ok busy,
  )
  follow-BufferedOk (some limit) bytes p ok busy e fits =
      followed-BufferedOk p (past_feed H limit bytes) ok.held
        (subst (λ (o : Option (PastLimit H)). KeepsNone H o p.read_buf) e ok.held.3)
        (response_Ready p.state p _ ok.state_ok busy)

  follow_from-BufferedOk :
      (o : Option (PastLimit H)) (bytes : Bytes) (p : StreamProcessor H)
      → IsSound H p
      → is_idle p.state ≡ false
      → p.past_limit ≡ none
      → BufferedOk LlmDirection.read_side (follow_from H o bytes p)
  follow_from-BufferedOk none bytes p ok busy e = ok.held.2
  follow_from-BufferedOk (some limit) bytes p ok busy e =
      followed-BufferedOk (record p { read_buf = []; read_progress = H.default_progress })
        (past_feed H limit bytes)
        (
          ok.held.0,
          omega arith,
          ok.held.2,
          subst (λ (o : Option (PastLimit H)). KeepsNone H o []) (sym e) tt,
          ok.held.4,
        )
        refl (response_Ready p.state p _ ok.state_ok busy)

  chosen-BufferedOk :
      (o : Option (PastLimit H)) (over : Bool) (bytes : Bytes) (p : StreamProcessor H)
      → IsSound H p
      → is_idle p.state ≡ false
      → p.past_limit ≡ o
      → (not (is_some o) && ltb max_response_buffer_size (length p.read_buf + length bytes)) ≡ over
      → BufferedOk LlmDirection.read_side
          (if over then follow_from H (past_start H p.read_buf) bytes p else follow H o bytes p)
  chosen-BufferedOk (some limit) true bytes p ok busy e h = absurd (cc)
  chosen-BufferedOk (some limit) false bytes p ok busy e h =
      follow-BufferedOk (some limit) bytes p ok busy e (λ h. cc)
  chosen-BufferedOk none true bytes p ok busy e h =
      follow_from-BufferedOk (past_start H p.read_buf) bytes p ok busy e
  chosen-BufferedOk none false bytes p ok busy e h =
      follow-BufferedOk none bytes p ok busy e (λ _. ltb→ge _ _ h)

  buffer_response-BufferedOk :
      (bytes : Bytes) (p : StreamProcessor H)
      → IsSound H p
      → is_idle p.state ≡ false
      → BufferedOk LlmDirection.read_side (buffer_response H bytes p)
  buffer_response-BufferedOk bytes p ok busy =
      chosen-BufferedOk p.past_limit _ bytes p ok busy refl refl

  answered-IsSound :
      (answers : Bool) (p : StreamProcessor H)
      → p.state ≡ detecting
      → IsSound H p
      → IsSound H (if answers then record p { write_buf = [] } else p)
  answered-IsSound false p e ok = ok
  answered-IsSound true p e ok =
      let fresh = subst (λ (s : ProcessorState H). StateOk H s p) e ok.state_ok in
      record {
        held = (
          omega arith,
          ok.held.1,
          ok.held.2,
          ok.held.3,
          subst (λ (o : Option (ℕ × ℕ)). StartsWithin o []) (sym fresh.0.2) tt,
        );
        state_ok =
            subst (λ (s : ProcessorState H). StateOk H s (record p { write_buf = [] })) (sym e)
              fresh;
      }

  buffer_read-BufferedOk :
      (s : ProcessorState H) (bytes : Bytes) (p : StreamProcessor H)
      → p.state ≡ s
      → IsSound H p
      → BufferedOk LlmDirection.read_side (buffer_read_by H s bytes p)
  buffer_read-BufferedOk finished bytes p e ok = ok
  buffer_read-BufferedOk detecting bytes p e ok = answered-IsSound _ p e ok
  buffer_read-BufferedOk (processing_request start parser) bytes p e ok =
      buffer_response-BufferedOk bytes p ok (rw e refl)
  buffer_read-BufferedOk (processing_response start parser) bytes p e ok =
      buffer_response-BufferedOk bytes p ok (rw e refl)
  buffer_read-BufferedOk (http2 conn) bytes p e ok =
      buffer_response-BufferedOk bytes p ok (rw e refl)

  pub buffer-BufferedOk :
      (d : LlmDirection) (bytes : Bytes) (p : StreamProcessor H)
      → IsSound H p
      → BufferedOk d (buffer H d bytes p)
  unfolding buffer_write buffer_read
  buffer-BufferedOk LlmDirection.write_side bytes p ok =
      appended_write-BufferedOk LlmDirection.write_side bytes (reset_finished H p.state p)
        (reset_finished-IsSound p.state p ok)
  buffer-BufferedOk LlmDirection.read_side bytes p ok =
      buffer_read-BufferedOk p.state bytes p refl ok
  buffer-BufferedOk LlmDirection.handshake bytes p ok = ok
  buffer-BufferedOk LlmDirection.unknown bytes p ok = ok

  -- A next state, with what else detection leaves.
  abbrev pub DetectedOk : StreamProcessor H × ProcessorState H → Type 0
  DetectedOk (p, state) = Held H p × StateOk H state p

  detect_rest-DetectedOk :
      (o : Option Bytes) (now : ℕ) (p : StreamProcessor H)
      → Held H p
      → IsFresh H p × (p.continuation ≡ none)
      → DetectedOk (detect_rest H o now p)
  detect_rest-DetectedOk (some path) now p h fresh = (h, fresh.0)
  detect_rest-DetectedOk none now p h fresh =
      elim (Bool-cases (ltb detection_buffer_threshold (length p.write_buf))) [
        | inl big ↦ rw big (h, fresh.1)
        | inr small ↦ rw small (h, fresh)
      ]

  detect_poll-DetectedOk :
      (o : Option Bytes) (now : ℕ) (p : StreamProcessor H)
      → Held H p
      → IsFresh H p × (p.continuation ≡ none)
      → DetectedOk (detect_poll H o now p)
  detect_poll-DetectedOk (some id) now p h fresh = (h, fresh.0)
  detect_poll-DetectedOk none now p h fresh = detect_rest-DetectedOk _ now p h fresh

  detect_by-DetectedOk :
      (o : Option Bytes) (calls : Map (PendingCall H.Pod)) (now : ℕ) (p : StreamProcessor H)
      → Held H p
      → IsFresh H p × (p.continuation ≡ none)
      → DetectedOk (detect_by H o calls now p)
  detect_by-DetectedOk (some path) calls now p h fresh = (h, fresh.0)
  detect_by-DetectedOk none calls now p h fresh = detect_poll-DetectedOk _ now p h fresh

  pub detect-DetectedOk :
      (calls : Map (PendingCall H.Pod)) (now : ℕ) (p : StreamProcessor H)
      → Held H p
      → IsFresh H p × (p.continuation ≡ none)
      → DetectedOk (detect H calls now p)
  unfolding detect
  detect-DetectedOk calls now p h fresh = detect_by-DetectedOk _ calls now p h fresh
