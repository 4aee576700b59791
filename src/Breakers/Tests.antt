-- ===== src/Breakers/Tests.antt =====
-- The breakers of engine/circuit_breakers.py.
use fedr.Base.{String, ◌≡◌, refl, true, false, [], ◌∷◌, arith, if◌then◌else◌}
use fedr.Dict.{lookup}
use Prim.Native.String.{◌++◌ as append}
use fedr.Breakers.{
  CircuitBreakerManager, Breaker, gas_spike, manual, value, key, has_scope, is_tripped, trip,
  record_and_check,
}
use fedr.Breakers.Key.{key-injective}
use fedr.Breakers.Active.{IsConsistent, trip-is_tripped}
use fedr.Breakers.Counters.{recent, record_and_check-trips}

abbrev spike : Breaker
spike = record {
  reason = gas_spike;
  detail = "3x";
  tripped_at_ms = 7;
  scope = "chain:base";
  auto = true;
}

abbrev tripped : CircuitBreakerManager
tripped = record {
  active = ("chain:base|gas_spike", spike) ∷ [];
  counters = ("errors", 10 ∷ 50 ∷ 90 ∷ []) ∷ [];
  history = [];
}

tripped-IsConsistent : IsConsistent tripped
unfolding key value lookup
tripped-IsConsistent = ((refl, tt), (refl, tt))

abbrev venue_x : String
venue_x = "venue:x"

-- The same scope, put together from two parts.
key-injective_example : (append "venue:" "x" ≡ venue_x) × (manual ≡ manual)
key-injective_example = key-injective (append "venue:" "x") venue_x manual manual refl

trip-is_tripped_example :
    is_tripped (trip manual "stop" 9 "global" false tripped).0 "venue:kraken" ≡ true
unfolding is_tripped has_scope
trip-is_tripped_example =
    trip-is_tripped manual "stop" 9 "global" false tripped "venue:kraken" tripped-IsConsistent

record_and_check-trips_example :
    let (m', hit) =
      record_and_check (λ d _. d) "errors" 3 manual "errors" "global" 60 110 8 tripped in
    (hit ≡ true) × (if hit then is_tripped m' "global" ≡ true else m'.active ≡ tripped.active)
unfolding lookup recent
record_and_check-trips_example =
    record_and_check-trips (λ d _. d) "errors" 3 manual "errors" "global" 60 110 8 tripped
      tripped-IsConsistent (omega arith) (omega arith)
