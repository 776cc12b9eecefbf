-- ===== src/SslClass/Drops.antt =====
-- What the kernel drops, over a connection's whole life.
use honeybeepf_llm.Prelude.{
  ℕ, ◌-◌, ◌/◌, ◌<◌, ◌≤◌, ◌≡◌, refl, Bool, true, false, Option, none, some, List, All, leb, arith,
  Bool-cases, inl, inr, leb→le, leb→gt,
}
use honeybeepf_llm.SslClass.Types.{SslClass}
use honeybeepf_llm.SslClass.Entry.{
  ClassEntry, low_byte, born, new, with, drops, class, skip_connection,
}
use honeybeepf_llm.SslClass.Spec.{Standing}
use honeybeepf_llm.SslClass.Standings.{Keeps}
use honeybeepf_llm.SslClass.Arms.{low-Keeps, born-Keeps}
use honeybeepf_llm.SslClass.Refine.{Probe, IsHead, after_calls, steps, after_calls-Keeps}

abbrev pub dropped : Standing → Bool
dropped Standing.other_request = true
dropped Standing.server_or_unserved = true
dropped _ = false

abbrev pub class_of : Standing → SslClass
class_of Standing.fresh = SslClass.unknown
class_of (Standing.sent seen) = SslClass.send
class_of Standing.other_request = SslClass.skip_request
class_of Standing.server_or_unserved = SslClass.skip_connection
class_of Standing.http2 = SslClass.h2

drops-Keeps :
    (s : Standing) (entry : ClassEntry) (time : ℕ)
    → Keeps entry s time
    → (drops entry ≡ dropped s) × (class entry ≡ class_of s)
unfolding drops class
drops-Keeps Standing.fresh entry time k = rw (low-Keeps Standing.fresh time entry k) (refl, refl)
drops-Keeps (Standing.sent false) entry time k =
    rw (low-Keeps (Standing.sent false) time entry k) (refl, refl)
drops-Keeps (Standing.sent true) entry time k =
    rw (low-Keeps (Standing.sent true) time entry k) (refl, refl)
drops-Keeps Standing.other_request entry time k =
    rw (low-Keeps Standing.other_request time entry k) (refl, refl)
drops-Keeps Standing.server_or_unserved entry time k =
    rw (low-Keeps Standing.server_or_unserved time entry k) (refl, refl)
drops-Keeps Standing.http2 entry time k = rw (low-Keeps Standing.http2 time entry k) (refl, refl)

new-Keeps : (born_ns : ℕ) → Keeps (new born_ns) Standing.fresh (born_ns / 256)
unfolding new
new-Keeps born_ns = omega arith

-- After any sequence of calls on a new entry, each Write with the eight bytes that it begins with,
-- the kernel drops a call exactly where the abstract state machine says so, the entry's class is
-- that of the state machine, and its creation time is the one it was made with, less the low byte.
pub drops-after_calls :
    (born_ns : ℕ) (calls : List Probe)
    → All IsHead calls
    → (drops (after_calls (new born_ns) calls) ≡ dropped (steps Standing.fresh calls))
      × (class (after_calls (new born_ns) calls) ≡ class_of (steps Standing.fresh calls))
      × (born (after_calls (new born_ns) calls) ≡ born_ns - low_byte born_ns)
drops-after_calls born_ns calls h =
    let s = steps Standing.fresh calls in
    let k =
      after_calls-Keeps calls (new born_ns) Standing.fresh (born_ns / 256) h (new-Keeps born_ns) in
    let (d, c) = drops-Keeps s (after_calls (new born_ns) calls) (born_ns / 256) k in
    (d, c, omega (arith, born-Keeps s (born_ns / 256) (after_calls (new born_ns) calls) k))

-- An entry of a connection that began after the event is left alone; an older one is dropped for good,
-- with its creation time kept.
abbrev pub Skips : ClassEntry → ℕ → Option ClassEntry → Type 0
Skips entry event_ns none = event_ns < born entry
Skips entry event_ns (some entry') =
    (born entry ≤ event_ns)
    × (drops entry' ≡ true)
    × (class entry' ≡ SslClass.skip_connection)
    × (born entry' ≡ born entry)

-- `skip_connection` leaves an entry that is newer than the event alone, and turns any other into
-- one whose calls are dropped, with its creation time kept.
pub skip_connection-Skips :
    (entry : ClassEntry) (event_ns : ℕ) → Skips entry event_ns (skip_connection entry event_ns)
unfolding skip_connection
skip_connection-Skips entry event_ns =
    let k : Keeps (with entry SslClass.skip_connection) Standing.server_or_unserved
        (entry.bits / 256) =
      omega arith in
    let (d, c) =
      drops-Keeps Standing.server_or_unserved (with entry SslClass.skip_connection)
        (entry.bits / 256) k in
    elim (Bool-cases (leb (born entry) event_ns)) [
      | inl e ↦ rw e (leb→le _ _ e, d, c, omega arith)
      | inr e ↦ rw e (leb→gt _ _ e)
    ]
