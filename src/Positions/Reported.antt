-- ===== src/Positions/Reported.antt =====
-- `reconcile` of engine/positions.py.
use fedr.Base.{
  String, ◌≡◌, refl, sym as sym_eq, ap, ◌∙◌, ◌⊎◌, Bool, true, false, not, ◌&&◌, ◌||◌, [], ◌∷◌,
  if◌then◌else◌, arith, Bool-cases, inl, inr, ◌==◌, eq_iff, or_else, is_none, is_empty, empty_parts,
  empty_when_append,
}
use fedr.Int.{◌+ℤ◌, ◌-ℤ◌, ◌≤ℤ◌, ltb_ℤ, eqb_ℤ, int_laws, eqb_ℤ-eq, +ℤ_assoc}
use fedr.Decimal.{Decimal, zero_dec, cents, mul, abs}
use fedr.Dict.{Dict, lookup, insert, sum_by, lookup-insert}
use fedr.Breakers.{is_tripped, position_discrepancy}
use fedr.Breakers.Active.{IsConsistent, trip-is_tripped}
use fedr.Positions.{Position, PositionManager, Market}
use fedr.Positions.Shorts.{
  mismatch, untracked, expected_shorts, mismatches, untracked_in, problems_of, reconcile,
}

abbrev pub size_at : String → Position → Decimal
size_at sym p = if p.perp_symbol == sym then p.size_base else zero_dec

-- The size of all shorts of a symbol, and whether there is one.
abbrev pub short_of : String → Dict Position → Decimal
short_of sym ps = sum_by (λ _ p. size_at sym p) ps

abbrev pub is_short : String → Dict Position → Bool
is_short sym [] = false
is_short sym ((_, p) ∷ ps) = p.perp_symbol == sym || is_short sym ps

abbrev size_in : String → Dict Decimal → Decimal
size_in sym d = or_else (lookup sym d) zero_dec

size_in-insert :
    (sym s : String) (x : Decimal) (d : Dict Decimal)
    → size_in sym (insert s (size_in s d +ℤ x) d)
      ≡ size_in sym d +ℤ (if s == sym then x else zero_dec)
size_in-insert sym s x d = elim (Bool-cases (s == sym)) [
  | inl e ↦ rw (lookup-insert s sym (size_in s d +ℤ x) d, e, (eq_iff s sym).0 e) refl
  | inr e ↦ rw (lookup-insert s sym (size_in s d +ℤ x) d, e) (omega int_laws)
]

expected_shorts-size :
    (sym : String) (ps : Dict Position) (d : Dict Decimal)
    → size_in sym (expected_shorts ps d) ≡ size_in sym d +ℤ short_of sym ps
unfolding expected_shorts sum_by
expected_shorts-size sym [] d = omega int_laws
expected_shorts-size sym ((_, p) ∷ ps) d =
    let d' = insert p.perp_symbol (size_in p.perp_symbol d +ℤ p.size_base) d in
    expected_shorts-size sym ps d'
    ∙ ap (λ t. t +ℤ short_of sym ps) (size_in-insert sym p.perp_symbol p.size_base d)
    ∙ +ℤ_assoc (size_in sym d) (size_at sym p) (short_of sym ps)

expected_shorts-is_none :
    (sym : String) (ps : Dict Position) (d : Dict Decimal)
    → is_none (lookup sym (expected_shorts ps d))
      ≡ (is_none (lookup sym d) && not (is_short sym ps))
unfolding expected_shorts
expected_shorts-is_none sym [] d = ground arith
expected_shorts-is_none sym ((_, p) ∷ ps) d =
    let d' = insert p.perp_symbol (size_in p.perp_symbol d +ℤ p.size_base) d in
    expected_shorts-is_none sym ps d'
    ∙ rw (lookup-insert p.perp_symbol sym (size_in p.perp_symbol d +ℤ p.size_base) d) (ground arith)

mismatches-none :
    (sym : String) (actual d : Dict Decimal)
    → is_empty (mismatches actual d) ≡ true
    → is_none (lookup sym d) ≡ false
    → abs (size_in sym actual -ℤ size_in sym d) ≤ℤ mul (size_in sym d) (cents 1)
unfolding mismatches lookup
mismatches-none sym actual [] h k = ground arith
mismatches-none sym actual ((s, e) ∷ d) h k =
    let act = size_in s actual in
    let (x, y) =
      empty_when_append (ltb_ℤ (mul e (cents 1)) (abs (act -ℤ e))) (mismatch s e act)
        (mismatches actual d) h in
    elim (Bool-cases (s == sym)) [
      | inl q ↦ rw (q, sym_eq ((eq_iff s sym).0 q)) (ground arith)
      | inr q ↦ rw q (mismatches-none sym actual d y (ground arith))
    ]

zero_or :
    (b c : Bool) (x : Decimal)
    → b ≡ true
    → (b && not c) ≡ false
    → (c ≡ true → x ≡ zero_dec)
    → x ≡ zero_dec
zero_or b c x h k f = f (ground arith)

untracked_in-none :
    (sym : String) (expected d : Dict Decimal)
    → is_empty (untracked_in expected d) ≡ true
    → is_none (lookup sym expected) ≡ true
    → size_in sym d ≡ zero_dec
unfolding untracked_in lookup
untracked_in-none sym expected [] h k = refl
untracked_in-none sym expected ((s, act) ∷ d) h k =
    let (x, y) =
      empty_when_append (is_none (lookup s expected) && not (eqb_ℤ act zero_dec)) (untracked s act)
        (untracked_in expected d) h in
    elim (Bool-cases (s == sym)) [
      | inl q ↦ rw q (
          zero_or (is_none (lookup s expected)) (eqb_ℤ act zero_dec) act
            (ap (λ t. is_none (lookup t expected)) ((eq_iff s sym).0 q) ∙ k) x
            (λ e. eqb_ℤ-eq act zero_dec e))
      | inr q ↦ rw q (untracked_in-none sym expected d y k)
    ]

-- What the venue reports of a symbol agrees with the positions.
abbrev pub Agrees : Dict Decimal → Dict Position → String → Type 0
Agrees actual ps sym =
    if is_short sym ps
    then abs (size_in sym actual -ℤ short_of sym ps) ≤ℤ mul (short_of sym ps) (cents 1)
    else size_in sym actual ≡ zero_dec

expected_size :
    (sym : String) (ps : Dict Position) → size_in sym (expected_shorts ps []) ≡ short_of sym ps
unfolding lookup ◌+ℤ◌
expected_size sym ps = expected_shorts-size sym ps [] ∙ omega int_laws

expected_is_none :
    (sym : String) (ps : Dict Position)
    → is_none (lookup sym (expected_shorts ps [])) ≡ not (is_short sym ps)
unfolding lookup
expected_is_none sym ps = expected_shorts-is_none sym ps []

-- Without a problem every symbol agrees.
problems_of-none :
    (actual : Dict Decimal) (m : PositionManager) (sym : String)
    → is_empty (problems_of actual m) ≡ true
    → Agrees actual m.open_positions sym
unfolding problems_of
problems_of-none actual m sym h =
    let expected = expected_shorts m.open_positions [] in
    let (x, y) = empty_parts (mismatches actual expected) (untracked_in expected actual) h in
    let known = expected_is_none sym m.open_positions in
    elim (Bool-cases (is_short sym m.open_positions)) [
      | inl q ↦
          let k : is_none (lookup sym expected) ≡ false = known ∙ rw q refl in
          rw (q, sym_eq (expected_size sym m.open_positions))
            (mismatches-none sym actual expected x k)
      | inr q ↦
          let k : is_none (lookup sym expected) ≡ true = known ∙ rw q refl in
          rw q (untracked_in-none sym expected actual y k)
    ]

-- If the keys of the breakers are consistent, `reconcile` trips the global breaker, or for every symbol
-- the reported size differs from the sizes of its shorts together by at most a percent of these, and is
-- 0 where there is no short. (A symbol that is not reported counts as 0.)
pub reconcile-detects :
    (o : Market) (actual : Dict Decimal) (m : PositionManager)
    → IsConsistent m.engine.breakers
    → (is_tripped (reconcile o actual m).0.engine.breakers "global" ≡ true)
      ⊎ ((sym : String) → Agrees actual m.open_positions sym)
unfolding reconcile
reconcile-detects o actual m h = elim (Bool-cases (is_empty (problems_of actual m))) [
  | inl e ↦ inr (λ sym. problems_of-none actual m sym e)
  | inr e ↦ inl (
      rw e (
        trip-is_tripped position_discrepancy "positions differ from the venue" o.now_ms "global"
          true m.engine.breakers "global" h
        ∙ ground arith))
]
