-- ===== src/JsonEnds/Ends.antt =====
-- What `JsonEnds::feed` keeps are the body's two ends, however the body was cut.
use honeybeepf_llm.Prelude.{
  ℕ, zero, suc, ◌+◌, ◌-◌, ◌*◌, ◌<◌, ◌≤◌, ◌≡◌, refl, sym, ap, ◌∙◌, ◌⊎◌, inl, inr, true, false, List,
  [], ◌∷◌, ◌++◌, append-nil, append_assoc, Bytes, length, take, drop, ltb, if◌then◌else◌, min,
  arith, Bool-cases, length-append, length-drop, ltb→lt, ltb→ge,
}
use honeybeepf_llm.Chunked.Lines.{drop-append_le}
use honeybeepf_llm.Chunked.Seen.{concat, drop-drop}
use honeybeepf_llm.JsonEnds.Walk.{head_keep, tail_keep, keep, keep_all, last_bytes}

take-append : (n : ℕ) (xs ys : Bytes) → take n (xs ++ ys) ≡ take n xs ++ take (n - length xs) ys
take-append zero xs ys = let e : 0 ≡ 0 - length xs = omega arith in ap (λ k. take k ys) e
take-append (suc n) [] ys = let e : suc n ≡ suc n - 0 = omega arith in ap (λ k. take k ys) e
take-append (suc n) (x ∷ xs) ys =
    ap (◌∷◌ x) (take-append n xs ys ∙ ap (λ k. take n xs ++ take k ys) (minus_suc n (length xs)))
  where
    minus_suc : (a b : ℕ) → a - b ≡ suc a - suc b
    minus_suc a b = omega arith

drop-append_past : (n : ℕ) (xs ys : Bytes) → drop (length xs + n) (xs ++ ys) ≡ drop n ys
drop-append_past n [] ys = ap (λ k. drop k ys) (omega arith)
drop-append_past n (x ∷ xs) ys =
    ap (λ k. drop k (x ∷ (xs ++ ys))) (suc_more (length xs) n) ∙ drop-append_past n xs ys
  where
    suc_more : (k n : ℕ) → suc k + n ≡ suc (k + n)
    suc_more k n = omega arith

take_nil : (n : ℕ) → take {A = ℕ} n [] ≡ []
take_nil zero = refl
take_nil (suc n) = refl

take-min : (n : ℕ) (xs : Bytes) → take (min n (length xs)) xs ≡ take n xs
take-min n [] = take_nil (min n 0) ∙ sym (take_nil n)
take-min zero (x ∷ xs) =
    let e : min 0 (length (x ∷ xs)) ≡ 0 = omega arith in ap (λ k. take k (x ∷ xs)) e
take-min (suc n) (x ∷ xs) =
    ap (λ k. take k (x ∷ xs)) (suc_min n (length xs)) ∙ ap (◌∷◌ x) (take-min n xs)
  where
    suc_min : (a b : ℕ) → min (suc a) (suc b) ≡ suc (min a b)
    suc_min a b = omega arith

length-take-min : (n : ℕ) (xs : Bytes) → length (take n xs) ≡ min n (length xs)
length-take-min zero xs = omega arith
length-take-min (suc n) [] = omega arith
length-take-min (suc n) (x ∷ xs) = omega (arith, length-take-min n xs)

head_grows :
    (body x : Bytes)
    → take head_keep body ++ take (min (head_keep - length (take head_keep body)) (length x)) x
      ≡ take head_keep (body ++ x)
head_grows body x =
    ap (λ ys. take head_keep body ++ ys)
      (take-min (head_keep - length (take head_keep body)) x
        ∙ ap (λ k. take k x) (omega (arith, length-take-min head_keep body)))
    ∙ sym (take-append head_keep body x)

old_tail : Bytes → Bytes → Bytes
old_tail tail x =
    let cut = length x - tail_keep in
    if ltb 0 cut
    then []
    else if ltb (2 * tail_keep) (length tail + length x)
    then drop (length tail - tail_keep) tail
    else tail

-- A piece of the end, with the new bytes behind it.
record Piece (body tail : Bytes) : Type 0 where
  pub from : ℕ
  pub tail_eq : tail ≡ drop from body
  pub from_le : from ≤ length body - tail_keep
  pub tail_le : length tail ≤ 2 * tail_keep

no_cut : (x : Bytes) → length x - tail_keep ≤ 0 → drop (length x - tail_keep) x ≡ x
no_cut x z = let e : length x - tail_keep ≡ 0 = omega arith in ap (λ k. drop k x) e

tail_grows :
    (body x tail : Bytes)
    → Piece body tail
    → Piece (body ++ x) (old_tail tail x ++ drop (length x - tail_keep) x)
unfolding old_tail
tail_grows body x tail p = elim (Bool-cases (ltb 0 (length x - tail_keep))) [
  | inl e ↦ rw e (record {
    from = length body + (length x - tail_keep);
    tail_eq = sym (drop-append_past (length x - tail_keep) body x);
    from_le = omega (arith, length-append body x, ltb→lt _ _ e);
    tail_le = omega (arith, length-drop (length x - tail_keep) x);
  })
  | inr e ↦ rw e (
      with_old (ltb→ge _ _ e) (elim (Bool-cases (ltb (2 * tail_keep) (length tail + length x))) [
        | inl f ↦ inl (f, ltb→lt _ _ f)
        | inr f ↦ inr (f, ltb→ge _ _ f)
      ]))
]
  where
    with_old :
        length x - tail_keep ≤ 0
        → ((ltb (2 * tail_keep) (length tail + length x) ≡ true)
            × (2 * tail_keep < length tail + length x))
          ⊎ ((ltb (2 * tail_keep) (length tail + length x) ≡ false)
              × (length tail + length x ≤ 2 * tail_keep))
        → Piece (body ++ x) (
            (if ltb (2 * tail_keep) (length tail + length x)
              then drop (length tail - tail_keep) tail
              else tail)
            ++ drop (length x - tail_keep) x)
    with_old z (inl (f, lt)) =
        let le : p.from + (length tail - tail_keep) ≤ length body =
          omega (arith, p.from_le, ap length p.tail_eq, length-drop p.from body) in
        rw (f, no_cut x z)
          (record {
            from = p.from + (length tail - tail_keep);
            tail_eq =
                ap (λ ys. drop (length tail - tail_keep) ys ++ x) p.tail_eq
                ∙ ap (λ ys. ys ++ x) (sym (drop-drop p.from (length tail - tail_keep) body))
                ∙ sym (drop-append_le (p.from + (length tail - tail_keep)) body x le);
            from_le = omega (
              arith,
              p.from_le,
              ap length p.tail_eq,
              length-drop p.from body,
              length-append body x,
            );
            tail_le = omega (
              arith,
              z,
              length-append (drop (length tail - tail_keep) tail) x,
              length-drop (length tail - tail_keep) tail,
            );
          })
    with_old z (inr (f, le)) =
        rw (f, no_cut x z)
          (record {
            from = p.from;
            tail_eq =
                ap (λ ys. ys ++ x) p.tail_eq
                ∙ sym (drop-append_le p.from body x (omega (arith, p.from_le)));
            from_le = omega (arith, p.from_le, length-append body x);
            tail_le = omega (arith, length-append tail x);
          })

-- Of the body so far: its start, and a piece of its end that holds the last bytes.
record Keeps (body : Bytes) (kept : Bytes × Bytes) : Type 0 where
  pub head_eq : kept.0 ≡ take head_keep body
  pub piece : Piece body kept.1

keep-Keeps :
    (body x : Bytes) (kept : Bytes × Bytes) → Keeps body kept → Keeps (body ++ x) (keep kept x)
unfolding keep old_tail
keep-Keeps body x (head, tail) k = record {
  head_eq =
      ap (λ h. h ++ take (min (head_keep - length h) (length x)) x) k.head_eq ∙ head_grows body x;
  piece = tail_grows body x tail k.piece;
}

keep_all-Keeps :
    (body : Bytes) (slices : List Bytes) (kept : Bytes × Bytes)
    → Keeps body kept
    → Keeps (body ++ concat slices) (keep_all kept slices)
unfolding keep_all
keep_all-Keeps body [] kept k = rw (append-nil body) k
keep_all-Keeps body (x ∷ slices) kept k =
    rw⁻¹ (append_assoc body x (concat slices))
      (keep_all-Keeps (body ++ x) slices (keep kept x) (keep-Keeps body x kept k))

last_of_Piece : (body tail : Bytes) → Piece body tail → last_bytes tail ≡ last_bytes body
last_of_Piece body tail p =
    ap last_bytes p.tail_eq
    ∙ sym (drop-drop p.from (length (drop p.from body) - tail_keep) body)
    ∙ ap (λ k. drop k body) (omega (arith, p.from_le, length-drop p.from body))

-- Whatever slices the body of a response comes in, the kept head is the body's first 64 KiB, the
-- last 64 KiB of the kept tail are the body's last 64 KiB, and the tail never holds more than 128
-- KiB.
pub keep_all-last_bytes :
    (slices : List Bytes)
    → let (head, tail) = keep_all ([], []) slices in
      (head ≡ take head_keep (concat slices))
      × (last_bytes tail ≡ last_bytes (concat slices))
      × (length tail ≤ 2 * tail_keep)
keep_all-last_bytes slices =
    let start : Keeps [] ([], []) = record {
      head_eq = sym (take_nil head_keep);
      piece = record { from = 0; tail_eq = refl; from_le = omega arith; tail_le = omega arith };
    } in
    let k = keep_all-Keeps [] slices ([], []) start in
    (k.head_eq, last_of_Piece (concat slices) (keep_all ([], []) slices).1 k.piece, k.piece.tail_le)
