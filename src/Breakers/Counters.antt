-- ===== src/Breakers/Counters.antt =====
-- The rolling counters of engine/circuit_breakers.py.
use fedr.Base.{
  ℕ, suc, ◌+◌, ◌-◌, ◌≤◌, String, ◌≡◌, refl, true, List, [], ◌∷◌, ◌++◌, arith, eq_refl, ◌∙◌,
  if◌then◌else◌, length, leb, ap,
}
use fedr.Dict.{lookup-insert_self}
use fedr.Breakers.{
  CircuitBreakerReason, CircuitBreakerManager, expire, times, record_event, count, record_and_check,
  is_tripped,
}
use fedr.Breakers.Active.{IsConsistent, trip-is_tripped}

-- How many of the times lie within the window before `now`.
unfoldable pub recent : ℕ → ℕ → List ℕ → ℕ
recent now window [] = 0
recent now window (t ∷ ts) =
    let rest = recent now window ts in if leb (now - t) window then suc rest else rest

abbrev AllFrom : ℕ → List ℕ → Type 0
AllFrom t [] = Unit
AllFrom t (u ∷ us) = (t ≤ u) × AllFrom t us

-- The times do not go back, as those of a monotonic clock.
abbrev pub IsAscending : List ℕ → Type 0
IsAscending [] = Unit
IsAscending (t ∷ ts) = AllFrom t ts × IsAscending ts

recent-all :
    (now window t : ℕ) (ts : List ℕ)
    → AllFrom t ts
    → now - t ≤ window
    → recent now window ts ≡ length ts
unfolding recent
recent-all now window t [] h k = refl
recent-all now window t (u ∷ us) h k = ground (arith, recent-all now window t us h.1)

-- To drop from the front until a time is recent leaves as many times as are recent.
length-expire :
    (now window : ℕ) (ts : List ℕ)
    → IsAscending ts
    → length (expire now window ts) ≡ recent now window ts
unfolding expire recent
length-expire now window [] h = refl
length-expire now window (t ∷ ts) h =
    ground (arith, length-expire now window ts h.1, recent-all now window t ts h.0)

abbrev AllUpTo : ℕ → List ℕ → Type 0
AllUpTo n [] = Unit
AllUpTo n (u ∷ us) = (u ≤ n) × AllUpTo n us

AllFrom-append : (t now : ℕ) (ts : List ℕ) → AllFrom t ts → t ≤ now → AllFrom t (ts ++ now ∷ [])
AllFrom-append t now [] h k = (k, tt)
AllFrom-append t now (u ∷ us) h k = (h.0, AllFrom-append t now us h.1 k)

IsAscending-append :
    (now : ℕ) (ts : List ℕ) → IsAscending ts → AllUpTo now ts → IsAscending (ts ++ now ∷ [])
IsAscending-append now [] h k = (tt, tt)
IsAscending-append now (t ∷ ts) h k =
    (AllFrom-append t now ts h.0 k.0, IsAscending-append now ts h.1 k.1)

recent-append :
    (now window : ℕ) (ts : List ℕ) → recent now window (ts ++ now ∷ []) ≡ recent now window ts + 1
unfolding recent
recent-append now window [] = ground arith
recent-append now window (t ∷ ts) = ground (arith, recent-append now window ts)

expire_again :
    (now window : ℕ) (ts : List ℕ) → expire now window (expire now window ts) ≡ expire now window ts
unfolding expire
expire_again now window [] = refl
expire_again now window (t ∷ ts) = ground (arith, expire_again now window ts)

-- `record` returns one more than the number of earlier times within the window, and the counter
-- then reads the same, if the clock has not gone back.
pub record_event-count :
    (counter : String) (window now : ℕ) (m : CircuitBreakerManager)
    → IsAscending (times counter m)
    → AllUpTo now (times counter m)
    → let (m', n) = record_event counter window now m in
      (n ≡ recent now window (times counter m) + 1) × ((count counter window now m').1 ≡ n)
unfolding record_event count
record_event-count counter window now m h k =
    let ts = times counter m in
    (
      length-expire now window (ts ++ now ∷ []) (IsAscending-append now ts h k)
          ∙ recent-append now window ts,
      rw lookup-insert_self (ap length (expire_again now window (ts ++ now ∷ []))),
    )

record_event-active :
    (counter : String) (window now : ℕ) (m : CircuitBreakerManager)
    → (record_event counter window now m).0.active ≡ m.active
unfolding record_event
record_event-active counter window now m = refl

record_event-IsConsistent :
    (counter : String) (window now : ℕ) (m : CircuitBreakerManager)
    → IsConsistent m
    → IsConsistent (record_event counter window now m).0
unfolding record_event
record_event-IsConsistent counter window now m h = h

-- `record_and_check` trips exactly when the event is the threshold's or a later one within the
-- window: its scope then counts as tripped. Below the threshold no breaker changes.
pub record_and_check-trips :
    (w : String → ℕ → String) (counter : String) (threshold : ℕ) (r : CircuitBreakerReason)
    (detail scope : String) (window now now_ms : ℕ) (m : CircuitBreakerManager)
    → IsConsistent m
    → IsAscending (times counter m)
    → AllUpTo now (times counter m)
    → let (m', tripped) = record_and_check w counter threshold r detail scope window now now_ms m in
      (tripped ≡ leb threshold (recent now window (times counter m) + 1))
      × (if tripped then is_tripped m' scope ≡ true else m'.active ≡ m.active)
unfolding record_and_check
record_and_check-trips w counter threshold r detail scope window now now_ms m c h k =
    let (m', n) = record_event counter window now m in
    ground (
      arith,
      (record_event-count counter window now m h k).0,
      eq_refl scope,
      record_event-active counter window now m,
      trip-is_tripped r (w detail n) now_ms scope true m' scope
          (record_event-IsConsistent counter window now m c),
    )
