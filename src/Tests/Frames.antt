-- ===== src/Tests/Frames.antt =====
-- Runs of h2/frame.rs.
use honeybeepf_llm.Prelude.{ℕ, ◌≡◌, refl, Option, none, some, List, [], ◌∷◌, ◌++◌, Bytes}
use honeybeepf_llm.Frame.Types.{Frame, Step, preface_bytes}
use honeybeepf_llm.Frame.Heads.{server, client, resync}
use honeybeepf_llm.Frame.Read.{read}

abbrev frame : ℕ → ℕ → ℕ → Bytes → ℕ → Bytes
frame kind flags stream payload len = 0 ∷ 0 ∷ len ∷ kind ∷ flags ∷ 0 ∷ 0 ∷ 0 ∷ stream ∷ payload

abbrev events : Option Step → Option (List Frame)
events none = none
events (some (r, fs)) = some fs

-- Padded HEADERS, its CONTINUATION, DATA with END_STREAM.
abbrev exchange : Bytes
exchange =
    frame 1 0x8 1 (2 ∷ 7 ∷ 8 ∷ 0 ∷ 0 ∷ []) 5
    ++ (frame 9 0x4 1 (9 ∷ []) 1 ++ frame 0 0x1 1 (5 ∷ 6 ∷ []) 2)

exchange-events :
    events (read client (preface_bytes ++ exchange))
    ≡ some (
        Frame.headers 1 (7 ∷ 8 ∷ 9 ∷ [])
        ∷ Frame.data_bytes 1 (5 ∷ 6 ∷ [])
        ∷ Frame.stream_end 1
        ∷ [])
unfolding read client
exchange-events = refl

resynced :
    events (
      read
        (resync server)
        (3 ∷ 0 ∷ (frame 6 0 0 [] 0 ++ (frame 4 1 0 [] 0 ++ frame 0 0 3 (1 ∷ []) 1))))
    ≡ some (Frame.data_bytes 3 (1 ∷ []) ∷ [])
unfolding read server resync
resynced = refl
