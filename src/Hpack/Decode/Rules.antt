-- ===== src/Hpack/Decode/Rules.antt =====
-- Rules for the effects of `decode`: what holds after each outcome.
use honeybeepf_llm.Hpack.Types.{Outcome, ok, err, stuck, Run, M, continue, ◌>>=◌}

-- `P` of a result and the state it leaves, `E` of the state that an error leaves; never stuck.
abbrev pub Ends {ℓ} : {A : Type ℓ} → (A → Run → Type 0) → (Run → Type 0) → Outcome A × Run → Type 0
Ends P E (ok a, s) = P a s
Ends P E (err e, s) = E s
Ends P E (stuck, s) = ⊥

module _ {A B : Type 0} (P : A → Run → Type 0) (Q : B → Run → Type 0) (E : Run → Type 0) where
  continue-Ends :
      (r : Outcome A × Run) (f : A → M B)
      → Ends P E r
      → ((a : A) (t : Run) → P a t → Ends Q E (f a t))
      → Ends Q E (continue r f)
  continue-Ends (ok a, s) f h k = k a s h
  continue-Ends (err e, s) f h k = h
  continue-Ends (stuck, s) f h k = absurd h

  pub bind-Ends :
      (m : M A) (f : A → M B) (s : Run)
      → Ends P E (m s)
      → ((a : A) (t : Run) → P a t → Ends Q E (f a t))
      → Ends Q E ((m >>= f) s)
  bind-Ends m f s h k = continue-Ends (m s) f h k
