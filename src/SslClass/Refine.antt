-- ===== src/SslClass/Refine.antt =====
-- ssl_class.rs keeps the state machine of SslClass/Spec.antt.
use honeybeepf_llm.Prelude.{
  ℕ, ◌<◌, ◌≡◌, refl, ap, ◌∙◌, Bool, true, false, ◌&&◌, ◌||◌, List, [], ◌∷◌, Bytes, ltb, ◌==◌, arith,
  ==→eq, All,
}
use honeybeepf_llm.SslClass.Entry.{
  ClassEntry, word, post, pri, preface_tail, http, get, any_method, after_write, after_read,
}
use honeybeepf_llm.SslClass.Spec.{Standing, Call, step}
use honeybeepf_llm.SslClass.Standings.{Keeps, begins, write_head, word_eq}
use honeybeepf_llm.SslClass.Arms.{
  low-Keeps, and_true, and_four, entry_after, entry_after-Keeps, head_of, arms_lem,
}

-- The tests on words of the code are the tests on text.
module _ (a b c d e f g h : ℕ) (ha : a < 256) (hb : b < 256) (hc : c < 256) (hd : d < 256)
    (he : e < 256) (hf : f < 256) (hg : g < 256) (hh : h < 256) where
  abbrev head : Bytes
  head = a ∷ b ∷ c ∷ d ∷ e ∷ f ∷ g ∷ h ∷ []

  four :
      (p q r s : ℕ)
      → p < 256
      → q < 256
      → r < 256
      → s < 256
      → (word a b c d == word p q r s) ≡ begins (p ∷ q ∷ r ∷ s ∷ []) head
  four p q r s hp hq hr hs = word_eq a b c d p q r s ha hb hc hd hp hq hr hs

  post_text : (word a b c d == post && e == 32) ≡ begins (80 ∷ 79 ∷ 83 ∷ 84 ∷ 32 ∷ []) head
  post_text =
      rw (four 80 79 83 84 (omega arith) (omega arith) (omega arith) (omega arith))
        (and_four (a == 80) (b == 79) (c == 83) (d == 84) (e == 32) _ (and_true _))

  preface_text :
      (word a b c d == pri && word e f g h == preface_tail)
      ≡ begins (80 ∷ 82 ∷ 73 ∷ 32 ∷ 42 ∷ 32 ∷ 72 ∷ 84 ∷ []) head
  preface_text =
      rw
        (
          four 80 82 73 32 (omega arith) (omega arith) (omega arith) (omega arith),
          word_eq e f g h 42 32 72 84 he hf hg hh (omega arith) (omega arith) (omega arith)
              (omega arith),
        )
        (and_four (a == 80) (b == 82) (c == 73) (d == 32) _ _ refl)

  response_text :
      (word a b c d == http && (e == 47 && (f == 49 && g == 46)))
      ≡ begins (72 ∷ 84 ∷ 84 ∷ 80 ∷ 47 ∷ 49 ∷ 46 ∷ []) head
  response_text = rw (four 72 84 84 80 (omega arith) (omega arith) (omega arith) (omega arith)) (
      and_four (a == 72) (b == 84) (c == 84) (d == 80) _ _
        (ap (λ x. e == 47 && (f == 49 && x)) (and_true (g == 46))))

  method_text : any_method (word a b c d) ≡ (
      begins (71 ∷ 69 ∷ 84 ∷ 32 ∷ []) head
      || begins (80 ∷ 85 ∷ 84 ∷ 32 ∷ []) head
      || begins (72 ∷ 69 ∷ 65 ∷ 68 ∷ []) head
      || begins (68 ∷ 69 ∷ 76 ∷ 69 ∷ []) head
      || begins (80 ∷ 65 ∷ 84 ∷ 67 ∷ []) head
      || begins (79 ∷ 80 ∷ 84 ∷ 73 ∷ []) head
      || begins (67 ∷ 79 ∷ 78 ∷ 78 ∷ []) head)
  method_text =
      rw
        (
          four 71 69 84 32 (omega arith) (omega arith) (omega arith) (omega arith),
          four 80 85 84 32 (omega arith) (omega arith) (omega arith) (omega arith),
          four 72 69 65 68 (omega arith) (omega arith) (omega arith) (omega arith),
          four 68 69 76 69 (omega arith) (omega arith) (omega arith) (omega arith),
          four 80 65 84 67 (omega arith) (omega arith) (omega arith) (omega arith),
          four 79 80 84 73 (omega arith) (omega arith) (omega arith) (omega arith),
          four 67 79 78 78 (omega arith) (omega arith) (omega arith) (omega arith),
        )
        refl

  get_text : (word a b c d == get) ≡ begins (71 ∷ 69 ∷ 84 ∷ 32 ∷ []) head
  get_text = four 71 69 84 32 (omega arith) (omega arith) (omega arith) (omega arith)

  cut_text : (a == 13 && b == 10) ≡ begins (13 ∷ 10 ∷ []) head
  cut_text = ap (λ x. a == 13 && x) (and_true (b == 10))

  -- The handler is the arms, after what the Write begins with.
  after_write_arms :
      (entry : ClassEntry) (len : ℕ) (gets_response : Bool)
      → after_write entry head len gets_response
        ≡ entry_after (write_head head len gets_response) entry
  unfolding after_write write_head
  after_write_arms entry len gets_response =
      arms_lem entry (ltb len 8 || (a == 13 && b == 10)) (word a b c d == post && e == 32)
        (word a b c d == pri && word e f g h == preface_tail) (word a b c d == http) (e == 47)
        (f == 49) (g == 46) (word a b c d == get && gets_response) (any_method (word a b c d))
        (λ q. rw (==→eq _ _ q) (refl, refl))
      ∙ ap (λ k. entry_after k entry)
          (λ i.
            head_of (ltb len 8 || cut_text i) (post_text i) (preface_text i) (response_text i)
              (get_text i && gets_response) (method_text i))

  pub after_write-Keeps :
      (entry : ClassEntry) (s : Standing) (time len : ℕ) (gets_response : Bool)
      → Keeps entry s time
      → Keeps
          (after_write entry head len gets_response)
          (step s (Call.write (write_head head len gets_response)))
          time
  after_write-Keeps entry s time len gets_response k =
      rw (after_write_arms entry len gets_response)
        (entry_after-Keeps s (write_head head len gets_response) entry time k)

pub after_read-Keeps :
    (entry : ClassEntry) (s : Standing) (time : ℕ)
    → Keeps entry s time
    → Keeps (after_read entry) (step s Call.read) time
unfolding after_read step
after_read-Keeps entry Standing.fresh time k = rw (low-Keeps Standing.fresh time entry k) k
after_read-Keeps entry (Standing.sent false) time k =
    rw (low-Keeps (Standing.sent false) time entry k) (omega (arith, k))
after_read-Keeps entry (Standing.sent true) time k =
    rw (low-Keeps (Standing.sent true) time entry k) k
after_read-Keeps entry Standing.other_request time k =
    rw (low-Keeps Standing.other_request time entry k) k
after_read-Keeps entry Standing.server_or_unserved time k =
    rw (low-Keeps Standing.server_or_unserved time entry k) k
after_read-Keeps entry Standing.http2 time k = rw (low-Keeps Standing.http2 time entry k) k

-- A call as the probe sees it: the first bytes of a Write, its length and its look at the path, or a Read.
pub data Probe : Type 0 where
  wrote : Bytes → ℕ → Bool → Probe
  was_read : Probe

abbrev pub IsHead : Probe → Type 0
IsHead (wrote (a ∷ b ∷ c ∷ d ∷ e ∷ f ∷ g ∷ h ∷ []) len gets_response) =
    (a < 256) × (b < 256) × (c < 256) × (d < 256) × (e < 256) × (f < 256) × (g < 256) × (h < 256)
IsHead (wrote _ len gets_response) = ⊥
IsHead was_read = Unit

unfoldable pub after_call : ClassEntry → Probe → ClassEntry
unfolding after_write after_read
after_call entry (wrote head len gets_response) = after_write entry head len gets_response
after_call entry was_read = after_read entry

unfoldable pub call_of : Probe → Call
unfolding write_head
call_of (wrote head len gets_response) = Call.write (write_head head len gets_response)
call_of was_read = Call.read

unfoldable pub after_calls : ClassEntry → List Probe → ClassEntry
unfolding after_call
after_calls entry [] = entry
after_calls entry (p ∷ ps) = after_calls (after_call entry p) ps

unfoldable pub steps : Standing → List Probe → Standing
unfolding step call_of
steps s [] = s
steps s (p ∷ ps) = steps (step s (call_of p)) ps

after_call-Keeps :
    (p : Probe) (entry : ClassEntry) (s : Standing) (time : ℕ)
    → IsHead p
    → Keeps entry s time
    → Keeps (after_call entry p) (step s (call_of p)) time
unfolding after_call call_of
after_call-Keeps (wrote (a ∷ b ∷ c ∷ d ∷ e ∷ f ∷ g ∷ h ∷ []) len gets_response) entry s time
      (ha, hb, hc, hd, he, hf, hg, hh) k =
    after_write-Keeps a b c d e f g h ha hb hc hd he hf hg hh entry s time len gets_response k
after_call-Keeps (wrote [] len gets_response) entry s time x k = elim x [ ]
after_call-Keeps (wrote (a ∷ []) len gets_response) entry s time x k = elim x [ ]
after_call-Keeps (wrote (a ∷ b ∷ []) len gets_response) entry s time x k = elim x [ ]
after_call-Keeps (wrote (a ∷ b ∷ c ∷ []) len gets_response) entry s time x k = elim x [ ]
after_call-Keeps (wrote (a ∷ b ∷ c ∷ d ∷ []) len gets_response) entry s time x k = elim x [ ]
after_call-Keeps (wrote (a ∷ b ∷ c ∷ d ∷ e ∷ []) len gets_response) entry s time x k = elim x [ ]
after_call-Keeps (wrote (a ∷ b ∷ c ∷ d ∷ e ∷ f ∷ []) len gets_response) entry s time x k =
    elim x [ ]
after_call-Keeps (wrote (a ∷ b ∷ c ∷ d ∷ e ∷ f ∷ g ∷ []) len gets_response) entry s time x k =
    elim x [ ]
after_call-Keeps (wrote (a ∷ b ∷ c ∷ d ∷ e ∷ f ∷ g ∷ h ∷ more ∷ bs) len gets_response) entry s time
      x k =
    elim x [ ]
after_call-Keeps was_read entry s time h k = after_read-Keeps entry s time k

pub after_calls-Keeps :
    (ps : List Probe) (entry : ClassEntry) (s : Standing) (time : ℕ)
    → All IsHead ps
    → Keeps entry s time
    → Keeps (after_calls entry ps) (steps s ps) time
unfolding after_calls steps
after_calls-Keeps [] entry s time h k = k
after_calls-Keeps (p ∷ ps) entry s time h k =
    after_calls-Keeps ps (after_call entry p) (step s (call_of p)) time h.1
      (after_call-Keeps p entry s time h.0 k)
