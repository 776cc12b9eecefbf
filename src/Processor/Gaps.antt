-- ===== src/Processor/Gaps.antt =====
-- processor.rs: the gaps of an HTTP/2 direction, and the tests on a fragment's first bytes.
use honeybeepf_llm.Prelude.{
  ℕ, ◌+◌, ◌-◌, Bool, false, not, ◌&&◌, ◌||◌, [], ◌∷◌, Bytes, ltb, leb, ◌==◌, if◌then◌else◌,
}
use honeybeepf_llm.H2.Types.{H2Gap}
use honeybeepf_llm.Processor.Types.{LlmDirection, Http, StreamProcessor}

abbrev pub is_ascii_uppercase : ℕ → Bool
is_ascii_uppercase b = leb 65 b && leb b 90

unfoldable pub starts_ascii_upper : Bytes → Bytes → Bool
starts_ascii_upper (b ∷ buffered) bytes = is_ascii_uppercase b
starts_ascii_upper [] (b ∷ bytes) = is_ascii_uppercase b
starts_ascii_upper [] [] = false

unfoldable pub skip_empty_lines : Bytes → Bytes
skip_empty_lines [] = []
skip_empty_lines (b ∷ buf) = if (b == 13) || (b == 10) then skip_empty_lines buf else b ∷ buf

module _ (H : Http) where
  unfoldable pub set_h2_gap : LlmDirection → H2Gap → StreamProcessor H → StreamProcessor H
  set_h2_gap LlmDirection.write_side gap p = record p { h2_gap_client = gap }
  set_h2_gap LlmDirection.read_side gap p = record p { h2_gap_server = gap }
  set_h2_gap _ gap p = p

  unfoldable pub take_h2_gap : LlmDirection → StreamProcessor H → H2Gap × StreamProcessor H
  take_h2_gap LlmDirection.write_side p =
      (p.h2_gap_client, record p { h2_gap_client = H2Gap.no_gap })
  take_h2_gap LlmDirection.read_side p =
      (p.h2_gap_server, record p { h2_gap_server = H2Gap.no_gap })
  take_h2_gap _ p = (H2Gap.no_gap, p)

  abbrev pub lost_before : ℕ → StreamProcessor H → StreamProcessor H
  lost_before offset p =
      if (offset == 0) && not (p.frag_next == 0) then set_h2_gap p.frag_dir H2Gap.resync p else p

  abbrev pub lost_now : LlmDirection → ℕ → StreamProcessor H → H2Gap × StreamProcessor H
  lost_now direction offset p =
      if not (offset == 0) && ltb p.frag_next offset
      then (H2Gap.skip (offset - p.frag_next), p)
      else take_h2_gap direction p

  abbrev pub lost_after : LlmDirection → Bool → ℕ → StreamProcessor H → StreamProcessor H
  lost_after direction truncated lost p =
      if truncated && ltb 0 lost then set_h2_gap direction (H2Gap.skip lost) p else p

  -- The gap to act on before the fragment's bytes.
  unfoldable pub h2_loss :
      LlmDirection → ℕ → ℕ → ℕ → Bool → StreamProcessor H → H2Gap × StreamProcessor H
  unfolding set_h2_gap take_h2_gap
  h2_loss direction offset len data_len truncated p =
      let (now, p') = lost_now direction offset (lost_before offset p) in
      (now, lost_after direction truncated (len - (offset + data_len)) p')
