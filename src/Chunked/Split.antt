-- ===== src/Chunked/Split.antt =====
-- A walk does not depend on where the input is cut: what the first part leaves unused is walked again
-- before the second part.
use honeybeepf_llm.Prelude.{
  ℕ, zero, suc, ◌+◌, ◌*◌, ◌≤◌, ◌≡◌, refl, sym, ap, ◌∙◌, Option, none, some, List, [], ◌++◌,
  append-nil, Bytes, length, drop, arith,
}
use mathlib.Core.Path.{subst}
use honeybeepf_llm.Chunked.Types.{ChunkRules, ChunkState}
use honeybeepf_llm.Chunked.Lines.{drop-append_le}
use honeybeepf_llm.Chunked.Ends.{UsesAtMost, walk_ends, after_round}
use honeybeepf_llm.Chunked.Walk.{stop, go, round, Walked, behind, walk_loop, walk}
use honeybeepf_llm.Chunked.Seen.{
  concat, concat-append, Seen, seen, later, walk_on, seen-behind, later-later, drop-append_more,
  drop-drop, drop_all, later_nothing, Extends, later-Extends, more_rounds,
}
use honeybeepf_llm.Chunked.Meets.{Meets, meets, stops, same, over_end, over}

-- `round` as the loop's first round.
loop_stop :
    (t : ℕ) (rules : ChunkRules) (s : ChunkState) (rest : Bytes)
    → round rules s rest ≡ stop
    → walk_loop (suc t) rules s rest ≡ some (s, 0, [])
unfolding walk_loop
loop_stop t rules s rest e = ap (after_round t rules s rest) e

loop_go :
    (t : ℕ) (rules : ChunkRules) (s s' : ChunkState) (rest : Bytes) (n : ℕ) (slices : List Bytes)
    → round rules s rest ≡ go s' n slices
    → walk_loop (suc t) rules s rest ≡ behind n slices (walk_loop t rules s' (drop n rest))
unfolding walk_loop
loop_go t rules s s' rest n slices e = ap (after_round t rules s rest) e

walk_on-behind :
    (w : ChunkState → Bytes → Option Walked) (a b : Bytes) (n : ℕ) (slices : List Bytes)
    (out : Option Walked)
    → walk_on w a b (behind n slices out) ≡ later n (concat slices) (walk_on w (drop n a) b out)
walk_on-behind w a b n slices none = refl
walk_on-behind w a b n slices (some (s, used, more)) =
    rw
      (
        drop-drop n used a,
        concat-append slices more,
        later-later n used (concat slices) (concat more) (seen (w s (drop used (drop n a) ++ b))),
      )
      refl

-- The two walks from a state, with `n`, `m` and `t` rounds.
abbrev Joins : ℕ → ℕ → ℕ → ChunkRules → ChunkState → Bytes → Bytes → Type 0
Joins n m t rules s a b =
    Extends (walk_on (walk_loop m rules) a b (walk_loop n rules s a))
      (seen (walk_loop t rules s (a ++ b)))

join_stop :
    (n m t : ℕ) (rules : ChunkRules) (s : ChunkState) (a b : Bytes)
    → m ≤ t
    → round rules s a ≡ stop
    → Joins (suc n) m t rules s a b
join_stop n m t rules s a b le e =
    rw (loop_stop n rules s a e, later_nothing (seen (walk_loop m rules s (a ++ b))))
      (more_rounds m t rules s (a ++ b) le)

join_same :
    (n m t : ℕ) (rules : ChunkRules) (s s' : ChunkState) (k : ℕ) (slices : List Bytes) (a b : Bytes)
    → round rules s a ≡ go s' k slices
    → round rules s (a ++ b) ≡ go s' k slices
    → k ≤ length a
    → Joins n m t rules s' (drop k a) b
    → Joins (suc n) m (suc t) rules s a b
join_same n m t rules s s' k slices a b e e' le h =
    rw
      (
        loop_go n rules s s' a k slices e,
        loop_go t rules s s' (a ++ b) k slices e',
        walk_on-behind (walk_loop m rules) a b k slices (walk_loop n rules s' (drop k a)),
        seen-behind k slices (walk_loop t rules s' (drop k (a ++ b))),
        drop-append_le k a b le,
      )
      (later-Extends k (concat slices) _ _ h)

-- The walk of the first part runs to its end in one round, in a state that waits for more.
over_first :
    (n m : ℕ) (rules : ChunkRules) (s s' : ChunkState) (slices : List Bytes) (a b : Bytes)
    → round rules s a ≡ go s' (length a) slices
    → round rules s' [] ≡ stop
    → walk_on (walk_loop m rules) a b (walk_loop (suc (suc n)) rules s a)
      ≡ later (length a) (concat slices) (seen (walk_loop m rules s' b))
over_first n m rules s s' slices a b e z =
    rw
      (
        loop_go (suc n) rules s s' a (length a) slices e,
        walk_on-behind (walk_loop m rules) a b (length a) slices
            (walk_loop (suc n) rules s' (drop (length a) a)),
        drop_all a,
        loop_stop n rules s' [] z,
        later_nothing (seen (walk_loop m rules s' b)),
      )
      refl

join_over_end :
    (n m t : ℕ) (rules : ChunkRules) (s s' : ChunkState) (slices : List Bytes) (a : Bytes)
    → round rules s a ≡ go s' (length a) slices
    → round rules s' [] ≡ stop
    → m ≤ t
    → Joins (suc n) m (suc t) rules s a []
unfolding walk_loop
join_over_end zero m t rules s s' slices a e z le =
    rw (loop_go zero rules s s' a (length a) slices e) tt
join_over_end (suc n) m t rules s s' slices a e z le =
    rw
      (
        over_first n m rules s s' slices a [] e z,
        append-nil a,
        loop_go t rules s s' a (length a) slices e,
        seen-behind (length a) slices (walk_loop t rules s' (drop (length a) a)),
        drop_all a,
      )
      (later-Extends (length a) (concat slices) _ _ (more_rounds m t rules s' [] le))

join_over :
    (n m t : ℕ) (rules : ChunkRules) (s s' s'' : ChunkState) (k : ℕ)
    (slices more whole : List Bytes) (a b : Bytes)
    → round rules s a ≡ go s' (length a) slices
    → round rules s' [] ≡ stop
    → round rules s' b ≡ go s'' k more
    → round rules s (a ++ b) ≡ go s'' (length a + k) whole
    → concat whole ≡ concat slices ++ concat more
    → m ≤ t
    → Joins (suc n) m (suc t) rules s a b
unfolding walk_loop
join_over zero m t rules s s' s'' k slices more whole a b e z e1 e2 c le =
    rw (loop_go zero rules s s' a (length a) slices e) tt
join_over (suc n) zero t rules s s' s'' k slices more whole a b e z e1 e2 c le =
    rw (over_first n zero rules s s' slices a b e z) tt
join_over (suc n) (suc m) t rules s s' s'' k slices more whole a b e z e1 e2 c le =
    rw
      (
        over_first n (suc m) rules s s' slices a b e z,
        loop_go m rules s' s'' b k more e1,
        seen-behind k more (walk_loop m rules s'' (drop k b)),
        later-later (length a) k (concat slices) (concat more)
            (seen (walk_loop m rules s'' (drop k b))),
        loop_go t rules s s'' (a ++ b) (length a + k) whole e2,
        seen-behind (length a + k) whole (walk_loop t rules s'' (drop (length a + k) (a ++ b))),
        drop-append_more k a b,
        c,
      )
      (later-Extends (length a + k) (concat slices ++ concat more) _ _
        (more_rounds m t rules s'' (drop k b) (omega arith)))

splits :
    (n m t : ℕ) (rules : ChunkRules) (s : ChunkState) (a b : Bytes)
    → n + m ≤ t
    → Joins n m t rules s a b
unfolding walk_loop
splits zero m t rules s a b le = tt
splits (suc n) m zero rules s a b le = absurd (omega arith)
splits (suc n) m (suc t) rules s a b le =
    split_at (meets rules s a b) (λ s' k. splits n m t rules s' (drop k a) b (omega arith))
  where
    split_at :
        Meets rules s a b
        → ((s' : ChunkState) (k : ℕ) → Joins n m t rules s' (drop k a) b)
        → Joins (suc n) m (suc t) rules s a b
    split_at (stops e) h = join_stop n m (suc t) rules s a b (omega arith) e
    split_at (same s' k slices e e' fits) h =
        join_same n m t rules s s' k slices a b e e' fits (h s' k)
    split_at (over_end s' slices e z nil) h =
        subst (λ b. Joins (suc n) m (suc t) rules s a b) (sym nil)
          (join_over_end n m t rules s s' slices a e z (omega arith))
    split_at (over s' s'' k slices more whole e z e1 e2 c) h =
        join_over n m t rules s s' s'' k slices more whole a b e z e1 e2 c (omega arith)

agree :
    (x y : Option Walked) (k l n : ℕ) (bytes : Bytes) (r : Option Seen)
    → UsesAtMost k x
    → UsesAtMost l y
    → Extends (later n bytes (seen x)) r
    → Extends (seen y) r
    → seen y ≡ later n bytes (seen x)
agree none y k l n bytes r hx hy e f = elim hx [ ]
agree (some x) none k l n bytes r hx hy e f = elim hy [ ]
agree (some x) (some y) k l n bytes r hx hy e f = sym f ∙ e

-- Walking a first part, and then what it left unused with a second part behind it, from the state
-- that the first walk ended in, comes to the same state, uses the same number of bytes and passes
-- on the same data as one walk of both parts, under all rules and from every state.
pub walk-append :
    (rules : ChunkRules) (s : ChunkState) (a b : Bytes)
    → seen (walk rules s (a ++ b)) ≡ walk_on (walk rules) a b (walk rules s a)
unfolding walk
walk-append rules s a b = join_out (walk rules s a) refl (walk_ends rules s a)
  where
    join_out :
        (out : Option Walked)
        → walk rules s a ≡ out
        → UsesAtMost (length a) out
        → seen (walk rules s (a ++ b)) ≡ walk_on (walk rules) a b out
    join_out none e h = elim h [ ]
    join_out (some (s', used, slices)) e h =
        let rest = drop used a ++ b in
        let n = 4 * length a + 4 in
        let m = 4 * length rest + 4 in
        let t = n + m + (4 * length (a ++ b) + 4) in
        agree (walk rules s' rest) (walk rules s (a ++ b)) (length rest) (length (a ++ b)) used
          (concat slices) (seen (walk_loop t rules s (a ++ b))) (walk_ends rules s' rest)
          (walk_ends rules s (a ++ b))
          (subst
            (λ out.
              Extends (walk_on (walk_loop m rules) a b out) (seen (walk_loop t rules s (a ++ b))))
            e (splits n m t rules s a b (omega arith)))
          (more_rounds (4 * length (a ++ b) + 4) t rules s (a ++ b) (omega arith))
