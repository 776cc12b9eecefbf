-- ===== src/Hpack/Reference/Rules.antt =====
-- One computation follows another: whenever the reference succeeds, the decoder does, and their
-- results and states are related.
use honeybeepf_llm.Prelude.{Option, none, some}
use honeybeepf_llm.Hpack.Types.{Outcome, ok, err, stuck, Run, M, continue}
use honeybeepf_llm.Hpack.Reference.{State, D, next}

-- What holds of two results and the two states after them.
abbrev pub Post : Type 0 → Type 0 → Type 1
Post A B = A → B → Run → State → Type 0

-- Given what the reference returns, the decoder returns something related.
abbrev pub FollowsAt : {A B : Type 0} → Post A B → Outcome A × Run → Option (B × State) → Type 0
FollowsAt P r none = Unit
FollowsAt P (ok a, s) (some (b, t)) = P a b s t
FollowsAt P (err e, s) (some (b, t)) = ⊥
FollowsAt P (stuck, s) (some (b, t)) = ⊥

module _ {A B A' B' : Type 0} (P : Post A B) (Q : Post A' B') where
  follows_next :
      (r : Outcome A × Run) (r' : Option (B × State)) (f : A → M A') (g : B → D B')
      → FollowsAt P r r'
      → ((a : A) (b : B) (s : Run) (t : State) → P a b s t → FollowsAt Q (f a s) (g b t))
      → FollowsAt Q (continue r f) (next r' g)
  follows_next r none f g h k = tt
  follows_next (ok a, s) (some (b, t)) f g h k = k a b s t h
  follows_next (err e, s) (some (b, t)) f g h k = absurd h
  follows_next (stuck, s) (some (b, t)) f g h k = absurd h

  pub follows_bind :
      (m : M A) (m' : D B) (f : A → M A') (g : B → D B') (s : Run) (t : State)
      → FollowsAt P (m s) (m' t)
      → ((a : A) (b : B) (s : Run) (t : State) → P a b s t → FollowsAt Q (f a s) (g b t))
      → FollowsAt Q (continue (m s) f) (next (m' t) g)
  follows_bind m m' f g s t h k = follows_next (m s) (m' t) f g h k
