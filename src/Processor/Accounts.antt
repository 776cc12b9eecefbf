-- ===== src/Processor/Accounts.antt =====
-- processor.rs: the calls that were settled, are open, are ahead, or wait in the background, as one
-- number.
pub mod Settle
pub mod Event
pub mod Handled
pub mod Fragment
use honeybeepf_llm.Prelude.{
  ℕ, ◌+◌, ◌≤◌, ◌≡◌, false, Option, none, some, List, [], ◌∷◌, ◌++◌, length, arith,
}
use honeybeepf_llm.Processor.Types.{Http, Note, Node, Outcome, StreamProcessor}
use honeybeepf_llm.Processor.Ahead.{is_http2}
use honeybeepf_llm.Processor.Closed.{open_of}

module _ {Pod : Type 0} where
  abbrev pub settles : Note Pod → ℕ
  settles (Note.request usage start pid pod) = 1
  settles (Note.unparsed_call reason pid pod) = 1
  settles _ = 0

  -- The calls recorded or counted as unparsed.
  abbrev pub settled : List (Note Pod) → ℕ
  settled [] = 0
  settled (note ∷ notes) = settles note + settled notes

  pub settled-append :
      (notes : List (Note Pod)) (note : Note Pod)
      → settled (notes ++ note ∷ []) ≡ settled notes + settles note
  settled-append [] note = omega arith
  settled-append (other ∷ notes) note = omega (arith, settled-append notes note)

  -- Settled, or waiting in the background.
  abbrev pub known : Node Pod → ℕ
  known node = settled node.notes + length node.calls

-- A request written ahead of a response.
abbrev pub ahead : Option (ℕ × ℕ) → ℕ
ahead none = 0
ahead (some at) = 1

module _ (H : Http) where
  abbrev pub accounted : StreamProcessor H → Node H.Pod → ℕ
  accounted p node = known node + open_of H p.state p.continuation + ahead p.next_request

  -- No more calls than `n`, on a connection that is not HTTP/2.
  abbrev pub AtMost : ℕ → StreamProcessor H × Node H.Pod × Outcome → Type 0
  AtMost n (p, node, outcome) = (accounted p node ≤ n) × (is_http2 H p.state ≡ false)
