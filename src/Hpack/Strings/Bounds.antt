-- ===== src/Hpack/Strings/Bounds.antt =====
-- What `decode_string` takes, and what it leaves in `out`.
use honeybeepf_llm.Prelude.{
  ℕ, ◌+◌, ◌≤◌, ◌≡◌, ◌≢◌, refl, inl, inr, Bool, true, false, [], ◌++◌, Bytes, length, take, drop,
  take-append, leb, if◌then◌else◌, arith, Bool-cases, leb→le,
}
use honeybeepf_llm.Hpack.Types.{Outcome, ok, err, stuck, HpackError}
use honeybeepf_llm.Hpack.Integer.{decode_int}
use honeybeepf_llm.Hpack.Integer.Bounds.{decode_int_takes, decode_int-ne-stuck}
use honeybeepf_llm.Hpack.Strings.{
  decode_string, huffman_flag, append_huffman, append_literal, with_length,
}
use honeybeepf_llm.Hpack.Huffman
use honeybeepf_llm.Hpack.Huffman.{Walk, going, failed, Canonical, canonical, finish, push_bytes}
use honeybeepf_llm.Hpack.Huffman.Code.{behind}
use honeybeepf_llm.Hpack.Huffman.Encode.{bits, push_bytes-push_bits, push_bits-from}

-- What `out` held stays in front, whether the text decodes or not.
abbrev after : Bytes → Bytes × Outcome (Unit {0}) → Bytes × Outcome (Unit {0})
after out (text, r) = (out ++ text, r)

finish-behind : (out : Bytes) (w : Walk) → finish (behind out w) ≡ after out (finish w)
unfolding finish behind
finish-behind out (failed text) = refl
finish-behind out (going code len text) = ground arith

decode-after : (input out : Bytes) → Huffman.decode input out ≡ after out (Huffman.decode input [])
unfolding Huffman.decode
decode-after input out =
    rw (push_bytes-push_bits, push_bits-from out (bits input), finish-behind)
      (rw push_bytes-push_bits)

finish-ne-stuck : (w : Walk) → (finish w).1 ≢ stuck
unfolding finish
finish-ne-stuck (failed out) = ground arith
finish-ne-stuck (going code len out) = ground arith

huffman-ne-stuck : (input out : Bytes) → (Huffman.decode input out).1 ≢ stuck
unfolding Huffman.decode
huffman-ne-stuck input out = finish-ne-stuck (push_bytes canonical input (going 0 0 out))

-- What `decode_string` may come to, at the length and position that `decode_int` gave.
record Sound (input out : Bytes) (r : Bytes × Outcome ℕ) : Type 0 where
  takes : (used : ℕ) → r.1 ≡ ok used → (1 ≤ used) × (used ≤ length input)
  keeps : (e : HpackError) → r.1 ≡ err e → r.0 ≡ out
  ends : r.1 ≢ stuck

huffman-Sound :
    (input out : Bytes) (end : ℕ) (r : Bytes × Outcome (Unit {0}))
    → 1 ≤ end
    → end ≤ length input
    → r.1 ≢ stuck
    → Sound input out (append_huffman (after out r) out end)
huffman-Sound input out end (text, ok _) lo hi ne = record {
  takes = λ used e. ground arith;
  keeps = λ e h. absurd (ground arith);
  ends = ground arith;
}
huffman-Sound input out end (text, err e) lo hi ne = record {
  takes = λ used e. absurd (ground arith);
  keeps = λ e h. take-append out text;
  ends = ground arith;
}
huffman-Sound input out end (text, stuck) lo hi ne = absurd (ne refl)

inside-Sound :
    (coded : Bool) (input out bytes : Bytes) (end : ℕ)
    → 1 ≤ end
    → end ≤ length input
    → Sound input out (
        if coded then append_huffman (Huffman.decode bytes out) out end else (out ++ bytes, ok end))
inside-Sound true input out bytes end lo hi =
    rw (decode-after bytes out)
      (huffman-Sound input out end (Huffman.decode bytes []) lo hi (huffman-ne-stuck bytes []))
inside-Sound false input out bytes end lo hi = record {
  takes = λ used e. ground arith;
  keeps = λ e h. absurd (ground arith);
  ends = ground arith;
}

literal-Sound :
    (coded : Bool) (input out : Bytes) (len used : ℕ)
    → 1 ≤ used
    → Sound input out (append_literal coded input out len used)
literal-Sound coded input out len used lo = elim (Bool-cases (leb (used + len) (length input))) [
  | inl inside ↦ rw inside (
      inside-Sound coded input out (take len (drop used input)) (used + len) (omega arith)
        (leb→le _ _ inside))
  | inr past ↦
      rw past (record {
        takes = λ used e. absurd (ground arith);
        keeps = λ e h. refl;
        ends = ground arith;
      })
]

with_length-Sound :
    (coded : Bool) (input out : Bytes) (r : Outcome (ℕ × ℕ))
    → r ≢ stuck
    → ((len used : ℕ) → r ≡ ok (len, used) → 1 ≤ used)
    → Sound input out (with_length coded input out r)
with_length-Sound coded input out (ok (len, used)) ne h =
    literal-Sound coded input out len used (h len used refl)
with_length-Sound coded input out (err e) ne h = record {
  takes = λ used e. absurd (ground arith);
  keeps = λ e h. refl;
  ends = ground arith;
}
with_length-Sound coded input out stuck ne h = absurd (ne refl)

decode_string-Sound : (input out : Bytes) → Sound input out (decode_string input out)
unfolding decode_string
decode_string-Sound input out =
    with_length-Sound (huffman_flag input) input out (decode_int input 7)
      (decode_int-ne-stuck input 7) (λ len used e. (decode_int_takes input 7 (omega arith) e).1)

-- Where `decode_string` fails, the output is what it was before.
pub decode_string-error :
    (input out : Bytes) {e : HpackError}
    → (decode_string input out).1 ≡ err e
    → (decode_string input out).0 ≡ out
decode_string-error input out {e} h = (decode_string-Sound input out).keeps e h

-- Where `decode_string` succeeds, it takes one byte at least and no more than the input has.
pub decode_string_takes :
    (input out : Bytes) {used : ℕ}
    → (decode_string input out).1 ≡ ok used
    → (1 ≤ used) × (used ≤ length input)
decode_string_takes input out {used} h = (decode_string-Sound input out).takes used h

pub decode_string-ne-stuck : (input out : Bytes) → (decode_string input out).1 ≢ stuck
decode_string-ne-stuck input out = (decode_string-Sound input out).ends
