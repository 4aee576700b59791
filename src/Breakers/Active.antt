-- ===== src/Breakers/Active.antt =====
-- `trip`, `reset`, `is_tripped` and `blocks` of engine/circuit_breakers.py.
use fedr.Base.{
  ℕ, ◌+◌, ◌≤◌, String, ◌≡◌, refl, sym, Bool, false, not, ◌&&◌, ◌||◌, Option, none, some, [], ◌∷◌,
  arith, ◌==◌, eq_iff, if◌then◌else◌, length, is_empty, inl, inr, ap, ◌∙◌, Bool-cases,
}
use mathlib.Core.Path.{ap₂}
use Prim.Native.String.{◌++◌ as append}
use fedr.Dict.{
  Dict, lookup, insert, lookup-insert_self, length-insert_old, HasUniqueKeys, insert-HasUniqueKeys,
}
use fedr.Breakers.{
  CircuitBreakerReason, CircuitBreakerManager, Breaker, key, has_scope, is_tripped, names, blocks,
  enter, trip, selects, drop_selected, reset,
}
use fedr.Breakers.Key.{key-injective}

-- Each breaker stands under the key of its scope and reason.
abbrev pub AreKeyed : Dict Breaker → Type 0
AreKeyed [] = Unit
AreKeyed ((k, b) ∷ d) = (k ≡ key b.scope b.reason) × AreKeyed d

abbrev pub IsConsistent : CircuitBreakerManager → Type 0
IsConsistent m = AreKeyed m.active × HasUniqueKeys m.active

abbrev IsAt : String → CircuitBreakerReason → Option Breaker → Type 0
IsAt s r none = Unit
IsAt s r (some b) = (s ≡ b.scope) × (r ≡ b.reason)

lookup-IsAt :
    (s : String) (r : CircuitBreakerReason) (d : Dict Breaker)
    → AreKeyed d
    → IsAt s r (lookup (key s r) d)
unfolding lookup
lookup-IsAt s r [] h = tt
lookup-IsAt s r ((k, b) ∷ d) h = elim (Bool-cases (k == key s r)) [
  | inl e ↦ rw e (key-injective s b.scope r b.reason (sym ((eq_iff k (key s r)).0 e) ∙ h.0))
  | inr e ↦ rw e (lookup-IsAt s r d h.1)
]

insert-AreKeyed :
    (k : String) (b : Breaker) (d : Dict Breaker)
    → AreKeyed d
    → k ≡ key b.scope b.reason
    → AreKeyed (insert k b d)
unfolding insert
insert-AreKeyed k b [] h e = (e, tt)
insert-AreKeyed k b ((j, c) ∷ d) h e = elim (Bool-cases (j == k)) [
  | inl same ↦ rw same ((eq_iff j k).0 same ∙ e, h.1)
  | inr other ↦ rw other (h.0, insert-AreKeyed k b d h.1 e)
]

has_scope-insert_new :
    (s k : String) (b : Breaker) (d : Dict Breaker)
    → lookup k d ≡ none
    → has_scope s (insert k b d) ≡ (b.scope == s || has_scope s d)
unfolding has_scope insert lookup
has_scope-insert_new s k b [] h = refl
has_scope-insert_new s k b ((j, c) ∷ d) h = ground (arith, has_scope-insert_new s k b d)

has_scope-insert_old :
    (s k : String) (b : Breaker) {c : Breaker} (d : Dict Breaker)
    → lookup k d ≡ some c
    → b.scope ≡ c.scope
    → has_scope s (insert k b d) ≡ (b.scope == s || has_scope s d)
unfolding has_scope insert lookup
has_scope-insert_old s k b {c} [] h e = cc
has_scope-insert_old s k b {c} ((j, a) ∷ d) h e =
    ground (arith, has_scope-insert_old s k b {c = c} d)

enter-has_scope :
    (o : Option Breaker) (r : CircuitBreakerReason) (detail : String) (now : ℕ) (scope : String)
    (auto : Bool) (m : CircuitBreakerManager) (s : String)
    → lookup (key scope r) m.active ≡ o
    → IsAt scope r o
    → has_scope s (enter o (key scope r) r detail now scope auto m).0.active
      ≡ (scope == s || has_scope s m.active)
enter-has_scope none r detail now scope auto m s e h =
    has_scope-insert_new s (key scope r) _ m.active e
enter-has_scope (some b) r detail now scope auto m s e h =
    has_scope-insert_old s (key scope r) (record b { detail = detail }) m.active e refl
    ∙ ap (λ t. t == s || has_scope s m.active) (sym h.0)

pub trip-has_scope :
    (r : CircuitBreakerReason) (detail : String) (now : ℕ) (scope : String) (auto : Bool)
    (m : CircuitBreakerManager) (s : String)
    → AreKeyed m.active
    → has_scope s (trip r detail now scope auto m).0.active ≡ (scope == s || has_scope s m.active)
unfolding trip
trip-has_scope r detail now scope auto m s h =
    enter-has_scope (lookup (key scope r) m.active) r detail now scope auto m s refl
      (lookup-IsAt scope r m.active h)

-- After a trip, a scope counts as tripped exactly if it did before, if it is the scope that was
-- tripped, or if the trip was global.
pub trip-is_tripped :
    (r : CircuitBreakerReason) (detail : String) (now : ℕ) (scope : String) (auto : Bool)
    (m : CircuitBreakerManager) (s : String)
    → IsConsistent m
    → is_tripped (trip r detail now scope auto m).0 s
      ≡ (scope == "global" || scope == s || is_tripped m s)
unfolding is_tripped
trip-is_tripped r detail now scope auto m s h = ground (
  arith,
  trip-has_scope r detail now scope auto m s h.0,
  trip-has_scope r detail now scope auto m "global" h.0,
)

enter-IsConsistent :
    (o : Option Breaker) (r : CircuitBreakerReason) (detail : String) (now : ℕ) (scope : String)
    (auto : Bool) (m : CircuitBreakerManager)
    → IsAt scope r o
    → IsConsistent m
    → IsConsistent (enter o (key scope r) r detail now scope auto m).0
enter-IsConsistent none r detail now scope auto m e h = (
  insert-AreKeyed (key scope r) _ m.active h.0 refl,
  insert-HasUniqueKeys (key scope r) _ m.active h.1,
)
enter-IsConsistent (some b) r detail now scope auto m e h = (
  insert-AreKeyed (key scope r) (record b { detail = detail }) m.active h.0 (ap₂ key e.0 e.1),
  insert-HasUniqueKeys (key scope r) _ m.active h.1,
)

-- A trip keeps the keys consistent.
pub trip-IsConsistent :
    (r : CircuitBreakerReason) (detail : String) (now : ℕ) (scope : String) (auto : Bool)
    (m : CircuitBreakerManager)
    → IsConsistent m
    → IsConsistent (trip r detail now scope auto m).0
unfolding trip
trip-IsConsistent r detail now scope auto m h =
    enter-IsConsistent (lookup (key scope r) m.active) r detail now scope auto m
      (lookup-IsAt scope r m.active h.0) h

enter-lookup :
    (o : Option Breaker) (k : String) (r : CircuitBreakerReason) (detail : String) (now : ℕ)
    (scope : String) (auto : Bool) (m : CircuitBreakerManager)
    → let (m', b) = enter o k r detail now scope auto m in lookup k m'.active ≡ some b
enter-lookup none k r detail now scope auto m = lookup-insert_self k _ m.active
enter-lookup (some b) k r detail now scope auto m = lookup-insert_self k _ m.active

trip-lookup :
    (r : CircuitBreakerReason) (detail : String) (now : ℕ) (scope : String) (auto : Bool)
    (m : CircuitBreakerManager)
    → let (m', b) = trip r detail now scope auto m in lookup (key scope r) m'.active ≡ some b
unfolding trip
trip-lookup r detail now scope auto m =
    enter-lookup (lookup (key scope r) m.active) (key scope r) r detail now scope auto m

trip-again :
    (r : CircuitBreakerReason) (detail : String) (now : ℕ) (scope : String) (auto : Bool)
    (m : CircuitBreakerManager) {b : Breaker}
    → lookup (key scope r) m.active ≡ some b
    → let (m', b') = trip r detail now scope auto m in
      (b' ≡ record b { detail = detail })
      × (m'.history ≡ m.history)
      × (length m'.active ≡ length m.active)
      × (lookup (key scope r) m'.active ≡ some b')
unfolding trip
trip-again r detail now scope auto m {b} e = rw e (
  refl,
  refl,
  length-insert_old (key scope r) (record b { detail = detail }) m.active e,
  lookup-insert_self (key scope r) (record b { detail = detail }) m.active,
)

-- A second trip of the same reason and scope enters no second breaker and no second history entry:
-- the first breaker stays, with its time, its scope and its mark, and takes the new detail.
pub trip-trip :
    (r : CircuitBreakerReason) (detail detail' : String) (now now' : ℕ) (scope : String)
    (auto auto' : Bool) (m : CircuitBreakerManager)
    → let (m', b) = trip r detail now scope auto m in
      let (m'', b') = trip r detail' now' scope auto' m' in
      (b' ≡ record b { detail = detail' })
      × (m''.history ≡ m'.history)
      × (length m''.active ≡ length m'.active)
      × (lookup (key scope r) m''.active ≡ some b')
trip-trip r detail detail' now now' scope auto auto' m =
    trip-again r detail' now' scope auto' (trip r detail now scope auto m).0
      (trip-lookup r detail now scope auto m)

abbrev pub unless : (Breaker → Bool) → Option Breaker → Option Breaker
unless p none = none
unless p (some b) = if p b then none else some b

length-drop_selected-le :
    (r : Option CircuitBreakerReason) (s : Option String) (d : Dict Breaker)
    → length (drop_selected r s d) ≤ length d
unfolding drop_selected
length-drop_selected-le r s [] = omega arith
length-drop_selected-le r s ((k, b) ∷ d) = ground (arith, length-drop_selected-le r s d)

lookup-drop_selected-none :
    (r : Option CircuitBreakerReason) (s : Option String) (d : Dict Breaker) (k : String)
    → lookup k d ≡ none
    → lookup k (drop_selected r s d) ≡ none
unfolding drop_selected lookup
lookup-drop_selected-none r s [] k h = refl
lookup-drop_selected-none r s ((j, b) ∷ d) k h = ground (arith, lookup-drop_selected-none r s d k)

lookup-drop_selected :
    (r : Option CircuitBreakerReason) (s : Option String) (d : Dict Breaker) (k : String)
    → HasUniqueKeys d
    → lookup k (drop_selected r s d) ≡ unless (selects r s) (lookup k d)
unfolding drop_selected lookup
lookup-drop_selected r s [] k h = refl
lookup-drop_selected r s ((j, b) ∷ d) k h =
    ground (arith, eq_iff j k, lookup-drop_selected r s d k h.1, lookup-drop_selected-none r s d k)

-- The number that `reset` returns is the number of breakers that went, and the breakers that stay
-- are those that it does not select.
pub reset_lem :
    (r : Option CircuitBreakerReason) (s : Option String) (m : CircuitBreakerManager) (k : String)
    → HasUniqueKeys m.active
    → let (m', n) = reset r s m in
      (length m'.active + n ≡ length m.active)
      × (lookup k m'.active ≡ unless (selects r s) (lookup k m.active))
unfolding reset
reset_lem r s m k h =
    (omega (arith, length-drop_selected-le r s m.active), lookup-drop_selected r s m.active k h)

-- Whether a breaker has the scope of this name, which is neither None nor the empty text.
unfoldable pub opt_scope : String → Option String → Dict Breaker → Bool
opt_scope kind none d = false
opt_scope kind (some name) d = not (name == "") && has_scope (append kind name) d

opt_scope-nil : (kind : String) (o : Option String) → opt_scope kind o [] ≡ false
unfolding opt_scope has_scope
opt_scope-nil kind none = refl
opt_scope-nil kind (some name) = ground arith

opt_scope-cons :
    (kind : String) (o : Option String) (k : String) (b : Breaker) (d : Dict Breaker)
    → opt_scope kind o ((k, b) ∷ d) ≡ (names kind o b.scope || opt_scope kind o d)
unfolding opt_scope has_scope names
opt_scope-cons kind none k b d = refl
opt_scope-cons kind (some name) k b d = ground arith

-- `blocks` finds nothing exactly if no breaker is global and none has the scope of a venue, a chain,
-- a strategy or a symbol that is asked for by a name other than the empty text.
pub blocks-eq-nil :
    (venue chain strategy symbol : Option String) (d : Dict Breaker)
    → is_empty (blocks venue chain strategy symbol d)
      ≡ not (
          has_scope "global" d
          || opt_scope "venue:" venue d
          || opt_scope "chain:" chain d
          || opt_scope "strategy:" strategy d
          || opt_scope "symbol:" symbol d)
unfolding blocks has_scope
blocks-eq-nil venue chain strategy symbol [] = simp opt_scope-nil
blocks-eq-nil venue chain strategy symbol ((k, b) ∷ d) = ground (
  arith,
  opt_scope-cons "venue:" venue k b d,
  opt_scope-cons "chain:" chain k b d,
  opt_scope-cons "strategy:" strategy k b d,
  opt_scope-cons "symbol:" symbol k b d,
  blocks-eq-nil venue chain strategy symbol d,
)

drop_selected-all : (d : Dict Breaker) → drop_selected none none d ≡ []
unfolding drop_selected selects
drop_selected-all [] = refl
drop_selected-all (_ ∷ d) = drop_selected-all d

drop_selected-scope :
    (s : String) (d : Dict Breaker) → has_scope s (drop_selected none (some s) d) ≡ false
unfolding drop_selected selects has_scope
drop_selected-scope s [] = refl
drop_selected-scope s ((k, b) ∷ d) = ground (arith, drop_selected-scope s d)

-- A reset of everything leaves no scope tripped and counts every breaker; a reset of one scope
-- leaves that scope tripped only if a global breaker stays.
pub reset-is_tripped :
    (m : CircuitBreakerManager) (s : String)
    → (is_tripped (reset none none m).0 s ≡ false)
      × ((reset none none m).1 ≡ length m.active)
      × (is_tripped (reset none (some s) m).0 s
          ≡ has_scope "global" (reset none (some s) m).0.active)
unfolding reset is_tripped has_scope
reset-is_tripped m s = ground (arith, drop_selected-all m.active, drop_selected-scope s m.active)
