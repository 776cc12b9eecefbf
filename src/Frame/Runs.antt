-- ===== src/Frame/Runs.antt =====
-- h2/frame.rs: runs of valid frame heads in a scan, told on the bytes by RFC 9113, section 6.
use honeybeepf_llm.Prelude.{
  ℕ, zero, suc, ◌+◌, ◌*◌, ◌^◌, ◌≤◌, ◌<◌, ◌≡◌, refl, ap, ◌∙◌, Bool, true, false, ◌&&◌, ◌||◌, List,
  [], ◌∷◌, Bytes, length, take, drop, get_or, length-drop, ltb, leb, ◌==◌, if◌then◌else◌, bit_and,
  arith,
}
use honeybeepf_llm.Frame.Types.{FrameReader}
use honeybeepf_llm.Frame.Heads.{payload_len, stream_id}
use honeybeepf_llm.Frame.Scan.{HeadScan, ok, bad, short, plausible_head, head_at, head_scan}

-- Who may own a frame of a type: a stream that the client opened, the connection, or either.
abbrev is_client : ℕ → Bool
is_client stream = bit_and stream 1 == 1

abbrev is_connection : ℕ → Bool
is_connection stream = stream == 0

abbrev is_either : ℕ → Bool
is_either stream = stream == 0 || bit_and stream 1 == 1

abbrev none_of : ℕ → ℕ → Bool
none_of undefined flags = bit_and flags undefined == 0

abbrev is_zero : ℕ → Bool
is_zero flags = flags == 0

-- A type, the flags that it may have, and its owners.
pub record HeadRule : Type 0 where
  pub kind : ℕ
  pub allows : ℕ → Bool
  pub owns : ℕ → Bool

abbrev rule : ℕ → (ℕ → Bool) → (ℕ → Bool) → HeadRule
rule kind allows owns = record { kind = kind; allows = allows; owns = owns }

-- DATA, HEADERS, PRIORITY, RST_STREAM, SETTINGS, PING, GOAWAY, WINDOW_UPDATE and CONTINUATION; a pushed
-- response is none of the client's.
abbrev pub head_rules : List HeadRule
head_rules =
    rule 0 (none_of 0xf6) is_client
    ∷ rule 1 (none_of 0xd2) is_client
    ∷ rule 2 (none_of 0xff) is_client
    ∷ rule 3 (none_of 0xff) is_client
    ∷ rule 4 (none_of 0xfe) is_connection
    ∷ rule 6 (none_of 0xfe) is_connection
    ∷ rule 7 (none_of 0xff) is_connection
    ∷ rule 8 is_zero is_either
    ∷ rule 9 (none_of 0xfb) is_client
    ∷ []

abbrev pub allowed_by : List HeadRule → ℕ → ℕ → ℕ → Bool
allowed_by [] kind flags stream = false
allowed_by (r ∷ rules) kind flags stream =
    if kind == r.kind then r.allows flags && r.owns stream else allowed_by rules kind flags stream

plausible-allowed :
    (kind flags stream : ℕ)
    → plausible_head kind flags stream ≡ allowed_by head_rules kind flags stream
unfolding plausible_head
plausible-allowed kind flags stream = ground arith

-- The 24-bit length of the head at a place, and its 31-bit stream.
abbrev pub len_at : Bytes → ℕ → ℕ
len_at bytes at =
    get_or bytes at 0 * 2 ^ 16 + get_or bytes (at + 1) 0 * 2 ^ 8 + get_or bytes (at + 2) 0

abbrev pub stream_at : Bytes → ℕ → ℕ
stream_at bytes at =
    bit_and
      (get_or bytes (at + 5) 0 * 2 ^ 24
        + get_or bytes (at + 6) 0 * 2 ^ 16
        + get_or bytes (at + 7) 0 * 2 ^ 8
        + get_or bytes (at + 8) 0)
      0x7fff_ffff

abbrev pub is_allowed : Bytes → ℕ → Bool
is_allowed bytes at =
    allowed_by head_rules (get_or bytes (at + 3) 0) (get_or bytes (at + 4) 0) (stream_at bytes at)

-- The nine bytes at a place are there and make a head with a length within the maximum.
abbrev pub IsHead : ℕ → Bytes → ℕ → Type 0
IsHead max bytes at =
    (at + 9 ≤ length bytes) × (len_at bytes at ≤ max) × (is_allowed bytes at ≡ true)

-- So many heads in a row, each where the payload of the one before ends.
abbrev pub IsRun : ℕ → ℕ → Bytes → ℕ → Type 0
IsRun zero max bytes at = Unit
IsRun (suc heads) max bytes at =
    IsHead max bytes at × IsRun heads max bytes (at + (9 + len_at bytes at))

get_or-drop : (n i : ℕ) (xs : Bytes) → get_or (drop n xs) i 0 ≡ get_or xs (n + i) 0
get_or-drop n i xs = shifted n i (n + i) xs refl
  where
    shifted : (n i k : ℕ) (xs : Bytes) → n + i ≡ k → get_or (drop n xs) i 0 ≡ get_or xs k 0
    shifted zero i k xs e = ap (λ j. get_or xs j 0) (omega arith)
    shifted (suc n) i k [] e = refl
    shifted (suc n) i zero (x ∷ xs) e = absurd (omega arith)
    shifted (suc n) i (suc k) (x ∷ xs) e = shifted n i k xs (omega arith)

get_or-take : (n i : ℕ) (xs : Bytes) → i < n → get_or (take n xs) i 0 ≡ get_or xs i 0
get_or-take zero i xs h = absurd (omega arith)
get_or-take (suc n) i [] h = refl
get_or-take (suc n) zero (x ∷ xs) h = refl
get_or-take (suc n) (suc i) (x ∷ xs) h = get_or-take n i xs (omega arith)

at_head :
    (off i : ℕ) (xs : Bytes) → i < 9 → get_or (take 9 (drop off xs)) i 0 ≡ get_or xs (off + i) 0
at_head off i xs h = get_or-take 9 i (drop off xs) h ∙ get_or-drop off i xs

-- What a head says, told on the bytes.
abbrev pub seen : ℕ → Bytes → ℕ → HeadScan
seen max bytes off =
    if ltb (length bytes) (off + 9)
    then short
    else if leb (len_at bytes off) max && is_allowed bytes off
    then ok (len_at bytes off)
    else bad

room_same : (off : ℕ) (xs : Bytes) → ltb (length (drop off xs)) 9 ≡ ltb (length xs) (off + 9)
room_same off xs = ground (arith, length-drop off xs)

len_same : (off : ℕ) (xs : Bytes) → payload_len (take 9 (drop off xs)) ≡ len_at xs off
unfolding payload_len
len_same off xs = omega (
  arith,
  at_head off 0 xs (omega arith),
  at_head off 1 xs (omega arith),
  at_head off 2 xs (omega arith),
  ap (λ j. get_or xs j 0) (plus_zero off),
)
  where
    plus_zero : (n : ℕ) → n + 0 ≡ n
    plus_zero n = omega arith

stream_same : (off : ℕ) (xs : Bytes) → stream_id (take 9 (drop off xs)) 5 ≡ stream_at xs off
unfolding stream_id
stream_same off xs =
    rw
      (
        at_head off 5 xs (omega arith),
        at_head off 6 xs (omega arith),
        at_head off 7 xs (omega arith),
        at_head off 8 xs (omega arith),
      )
      refl

allowed_same :
    (off : ℕ) (xs : Bytes)
    → plausible_head
        (get_or (take 9 (drop off xs)) 3 0)
        (get_or (take 9 (drop off xs)) 4 0)
        (stream_id (take 9 (drop off xs)) 5)
      ≡ is_allowed xs off
allowed_same off xs =
    rw (at_head off 3 xs (omega arith), at_head off 4 xs (omega arith), stream_same off xs)
      (plausible-allowed _ _ _)

pub head_scan-seen :
    (r : FrameReader) (off : ℕ) → head_scan r off ≡ seen r.max_frame_size r.scan off
unfolding head_scan head_at
head_scan-seen r off = rw (room_same off r.scan, len_same off r.scan, allowed_same off r.scan) refl
