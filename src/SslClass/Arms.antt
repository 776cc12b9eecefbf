-- ===== src/SslClass/Arms.antt =====
-- The arms of `after_write`, given what the Write begins with.
use honeybeepf_llm.Prelude.{
  ℕ, ◌*◌, ◌<◌, ◌≡◌, refl, inl, inr, Bool, true, false, not, ◌&&◌, ◌||◌, if◌then◌else◌, arith,
  Bool-cases,
}
use honeybeepf_llm.SslClass.Types.{SslClass}
use honeybeepf_llm.SslClass.Entry.{ClassEntry, low_byte, born, is, with}
use honeybeepf_llm.SslClass.Spec.{Standing, WriteHead, Call, step}
use honeybeepf_llm.SslClass.Standings.{low_of, Keeps}

pub low_lt : (s : Standing) → low_of s < 256
low_lt Standing.fresh = omega arith
low_lt (Standing.sent false) = omega arith
low_lt (Standing.sent true) = omega arith
low_lt Standing.other_request = omega arith
low_lt Standing.server_or_unserved = omega arith
low_lt Standing.http2 = omega arith

pub low-Keeps :
    (s : Standing) (time : ℕ) (e : ClassEntry) → Keeps e s time → low_byte e.bits ≡ low_of s
low-Keeps s time e k = omega (arith, low_lt s)

pub born-Keeps : (s : Standing) (time : ℕ) (e : ClassEntry) → Keeps e s time → born e ≡ 256 * time
born-Keeps s time e k = omega (arith, low_lt s)

pub and_true : (p : Bool) → p ≡ (p && true)
and_true true = refl
and_true false = refl

pub and_four :
    (p q r s t u : Bool)
    → t ≡ u
    → ((p && (q && (r && (s && true)))) && t) ≡ (p && (q && (r && (s && u))))
and_four true true true true t u e = e
and_four true true true false t u e = refl
and_four true true false s t u e = refl
and_four true false r s t u e = refl
and_four false q r s t u e = refl

-- What the arms do, given what the Write begins with.
abbrev pub live_entry_after : WriteHead → ClassEntry → ClassEntry
live_entry_after WriteHead.cut entry =
    if is entry SslClass.skip_request then with entry SslClass.unknown else entry
live_entry_after WriteHead.post entry = with entry SslClass.send
live_entry_after WriteHead.preface entry = with entry SslClass.h2
live_entry_after WriteHead.response entry =
    if is entry SslClass.unknown then with entry SslClass.skip_connection else entry
live_entry_after WriteHead.asks_response entry = with entry SslClass.send
live_entry_after WriteHead.other_method entry =
    if not (is entry SslClass.send) then with entry SslClass.skip_request else entry
live_entry_after WriteHead.body entry = entry

abbrev pub entry_after : WriteHead → ClassEntry → ClassEntry
entry_after k entry =
    if is entry SslClass.skip_connection || is entry SslClass.h2
    then entry
    else live_entry_after k entry

pub entry_after-Keeps :
    (s : Standing) (k : WriteHead) (entry : ClassEntry) (time : ℕ)
    → Keeps entry s time
    → Keeps (entry_after k entry) (step s (Call.write k)) time
unfolding step
entry_after-Keeps Standing.fresh WriteHead.cut entry time h =
    rw (low-Keeps Standing.fresh time entry h) h
entry_after-Keeps Standing.fresh WriteHead.post entry time h =
    rw (low-Keeps Standing.fresh time entry h) (omega (arith, h))
entry_after-Keeps Standing.fresh WriteHead.preface entry time h =
    rw (low-Keeps Standing.fresh time entry h) (omega (arith, h))
entry_after-Keeps Standing.fresh WriteHead.response entry time h =
    rw (low-Keeps Standing.fresh time entry h) (omega (arith, h))
entry_after-Keeps Standing.fresh WriteHead.asks_response entry time h =
    rw (low-Keeps Standing.fresh time entry h) (omega (arith, h))
entry_after-Keeps Standing.fresh WriteHead.other_method entry time h =
    rw (low-Keeps Standing.fresh time entry h) (omega (arith, h))
entry_after-Keeps Standing.fresh WriteHead.body entry time h =
    rw (low-Keeps Standing.fresh time entry h) h
entry_after-Keeps (Standing.sent false) WriteHead.cut entry time h =
    rw (low-Keeps (Standing.sent false) time entry h) h
entry_after-Keeps (Standing.sent false) WriteHead.post entry time h =
    rw (low-Keeps (Standing.sent false) time entry h) (omega (arith, h))
entry_after-Keeps (Standing.sent false) WriteHead.preface entry time h =
    rw (low-Keeps (Standing.sent false) time entry h) (omega (arith, h))
entry_after-Keeps (Standing.sent false) WriteHead.response entry time h =
    rw (low-Keeps (Standing.sent false) time entry h) h
entry_after-Keeps (Standing.sent false) WriteHead.asks_response entry time h =
    rw (low-Keeps (Standing.sent false) time entry h) (omega (arith, h))
entry_after-Keeps (Standing.sent false) WriteHead.other_method entry time h =
    rw (low-Keeps (Standing.sent false) time entry h) h
entry_after-Keeps (Standing.sent false) WriteHead.body entry time h =
    rw (low-Keeps (Standing.sent false) time entry h) h
entry_after-Keeps (Standing.sent true) WriteHead.cut entry time h =
    rw (low-Keeps (Standing.sent true) time entry h) h
entry_after-Keeps (Standing.sent true) WriteHead.post entry time h =
    rw (low-Keeps (Standing.sent true) time entry h) (omega (arith, h))
entry_after-Keeps (Standing.sent true) WriteHead.preface entry time h =
    rw (low-Keeps (Standing.sent true) time entry h) (omega (arith, h))
entry_after-Keeps (Standing.sent true) WriteHead.response entry time h =
    rw (low-Keeps (Standing.sent true) time entry h) h
entry_after-Keeps (Standing.sent true) WriteHead.asks_response entry time h =
    rw (low-Keeps (Standing.sent true) time entry h) (omega (arith, h))
entry_after-Keeps (Standing.sent true) WriteHead.other_method entry time h =
    rw (low-Keeps (Standing.sent true) time entry h) (omega (arith, h))
entry_after-Keeps (Standing.sent true) WriteHead.body entry time h =
    rw (low-Keeps (Standing.sent true) time entry h) h
entry_after-Keeps Standing.other_request WriteHead.cut entry time h =
    rw (low-Keeps Standing.other_request time entry h) (omega (arith, h))
entry_after-Keeps Standing.other_request WriteHead.post entry time h =
    rw (low-Keeps Standing.other_request time entry h) (omega (arith, h))
entry_after-Keeps Standing.other_request WriteHead.preface entry time h =
    rw (low-Keeps Standing.other_request time entry h) (omega (arith, h))
entry_after-Keeps Standing.other_request WriteHead.response entry time h =
    rw (low-Keeps Standing.other_request time entry h) h
entry_after-Keeps Standing.other_request WriteHead.asks_response entry time h =
    rw (low-Keeps Standing.other_request time entry h) (omega (arith, h))
entry_after-Keeps Standing.other_request WriteHead.other_method entry time h =
    rw (low-Keeps Standing.other_request time entry h) (omega (arith, h))
entry_after-Keeps Standing.other_request WriteHead.body entry time h =
    rw (low-Keeps Standing.other_request time entry h) h
entry_after-Keeps Standing.server_or_unserved k entry time h =
    rw (low-Keeps Standing.server_or_unserved time entry h) h
entry_after-Keeps Standing.http2 k entry time h = rw (low-Keeps Standing.http2 time entry h) h

abbrev pub head_of : Bool → Bool → Bool → Bool → Bool → Bool → WriteHead
head_of cuts posts prefaces responds asks other =
    if cuts
    then WriteHead.cut
    else if posts
    then WriteHead.post
    else if prefaces
    then WriteHead.preface
    else if responds
    then WriteHead.response
    else if asks
    then WriteHead.asks_response
    else if other
    then WriteHead.other_method
    else WriteHead.body

-- The arms of the code, over its tests.
abbrev pub live_arms :
    ClassEntry → Bool → Bool → Bool → Bool → Bool → Bool → Bool → Bool → Bool → ClassEntry
live_arms entry cuts posts prefaces h e f g asks other =
    if cuts
    then if is entry SslClass.skip_request then with entry SslClass.unknown else entry
    else if posts
    then with entry SslClass.send
    else if prefaces
    then with entry SslClass.h2
    else if h && is entry SslClass.unknown && e && f && g
    then with entry SslClass.skip_connection
    else if asks
    then with entry SslClass.send
    else if other && not (is entry SslClass.send)
    then with entry SslClass.skip_request
    else entry

abbrev pub arms :
    ClassEntry → Bool → Bool → Bool → Bool → Bool → Bool → Bool → Bool → Bool → ClassEntry
arms entry cuts posts prefaces h e f g asks other =
    if is entry SslClass.skip_connection || is entry SslClass.h2
    then entry
    else live_arms entry cuts posts prefaces h e f g asks other

pub live_lem :
    (entry : ClassEntry) (cuts posts prefaces h e f g asks other : Bool)
    → (h ≡ true → (asks ≡ false) × (other ≡ false))
    → live_arms entry cuts posts prefaces h e f g asks other
      ≡ live_entry_after (head_of cuts posts prefaces (h && (e && (f && g))) asks other) entry
live_lem entry true posts prefaces h e f g asks other x = refl
live_lem entry false true prefaces h e f g asks other x = refl
live_lem entry false false true h e f g asks other x = refl
live_lem entry false false false false e f g true other x = refl
live_lem entry false false false false e f g false true x = refl
live_lem entry false false false false e f g false false x = refl
live_lem entry false false false true true true true asks other x =
    rw ((x refl).0, (x refl).1)
      (elim (Bool-cases (is entry SslClass.unknown)) [ inl u ↦ rw u refl | inr u ↦ rw u refl ])
live_lem entry false false false true true true false asks other x =
    rw ((x refl).0, (x refl).1)
      (elim (Bool-cases (is entry SslClass.unknown)) [ inl u ↦ rw u refl | inr u ↦ rw u refl ])
live_lem entry false false false true true false g asks other x =
    rw ((x refl).0, (x refl).1)
      (elim (Bool-cases (is entry SslClass.unknown)) [ inl u ↦ rw u refl | inr u ↦ rw u refl ])
live_lem entry false false false true false f g asks other x =
    rw ((x refl).0, (x refl).1)
      (elim (Bool-cases (is entry SslClass.unknown)) [ inl u ↦ rw u refl | inr u ↦ rw u refl ])

pub arms_lem :
    (entry : ClassEntry) (cuts posts prefaces h e f g asks other : Bool)
    → (h ≡ true → (asks ≡ false) × (other ≡ false))
    → arms entry cuts posts prefaces h e f g asks other
      ≡ entry_after (head_of cuts posts prefaces (h && (e && (f && g))) asks other) entry
arms_lem entry cuts posts prefaces h e f g asks other x =
    elim (Bool-cases (is entry SslClass.skip_connection || is entry SslClass.h2)) [
      | inl q ↦ rw q refl
      | inr q ↦ rw q (live_lem entry cuts posts prefaces h e f g asks other x)
    ]
