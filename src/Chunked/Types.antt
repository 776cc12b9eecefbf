-- ===== src/Chunked/Types.antt =====
-- chunked.rs: the rules of a walk, its states, and what a line's end is.
use honeybeepf_llm.Prelude.{ℕ, ◌-◌, ◌^◌, Bool, false}

pub record ChunkRules : Type 0 where
  pub extensions : Bool
  pub utf8_line : Bool
  pub data_crlf : Bool
  pub max_size : ℕ
  pub bare_lf_breaks : Bool
  pub max_line : ℕ

-- `usize::MAX` of a 64-bit machine.
abbrev pub usize_max : ℕ
usize_max = 2 ^ 64 - 1

unfoldable pub basic : ChunkRules
basic = record {
  extensions = false;
  utf8_line = false;
  data_crlf = false;
  max_size = usize_max;
  bare_lf_breaks = false;
  max_line = usize_max;
}

pub data ChunkState : Type 0 where
  size data_end trailer ended broken : ChunkState
  chunk skip : ℕ → ChunkState

pub data Line : Type 0 where
  cut bad : Line
  ends_at : ℕ → Line
