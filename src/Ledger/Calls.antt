-- ===== src/Ledger/Calls.antt =====
-- Sequences of calls on a paper ledger, as the paper executor makes them.
use fedr.Base.{true, false, List, [], ◌∷◌, String}
use fedr.Int.{pos, ◌≤ℤ◌}
use fedr.Decimal.{Decimal}
use fedr.Ledger
use fedr.Ledger.{PaperLedger, OrderSide}
use fedr.Ledger.Reserve.{IsSolvent, reserve-IsSolvent, release-IsSolvent, adjust-IsSolvent}
use fedr.Ledger.Settle.{settle_fill-IsSolvent}

-- The calls that do not ask for a negative balance: adjustments with `allow_negative` off and
-- fills with `reserved` on.
pub data Call : Type 0 where
  reserve release adjust : String → String → Decimal → Call
  settle_fill : String → String → String → OrderSide → Decimal → Decimal → Decimal → Call

-- What the callers keep: amounts are not negative, and a fee is no more than the quote amount.
abbrev pub IsRegular : Call → Type 0
IsRegular (Call.reserve v a x) = pos 0 ≤ℤ x
IsRegular (Call.release v a x) = pos 0 ≤ℤ x
IsRegular (Call.adjust v a x) = Unit
IsRegular (Call.settle_fill v b q s x y fee) = (pos 0 ≤ℤ x) × (fee ≤ℤ y)

abbrev pub AllRegular : List Call → Type 0
AllRegular [] = Unit
AllRegular (c ∷ cs) = IsRegular c × AllRegular cs

-- An exception leaves the ledger as the call left it, and the caller goes on.
unfoldable pub call : Call → PaperLedger → PaperLedger
call (Call.reserve v a x) l = (Ledger.reserve v a x l).0
call (Call.release v a x) l = Ledger.release v a x l
call (Call.adjust v a x) l = (Ledger.adjust v a x false l).0
call (Call.settle_fill v b q s x y fee) l = Ledger.settle_fill v b q s x y fee true l

unfoldable pub run : List Call → PaperLedger → PaperLedger
run [] l = l
run (c ∷ cs) l = run cs (call c l)

call-IsSolvent : (c : Call) (l : PaperLedger) → IsRegular c → IsSolvent l → IsSolvent (call c l)
unfolding call
call-IsSolvent (Call.reserve v a x) l h s = reserve-IsSolvent v a x l h s
call-IsSolvent (Call.release v a x) l h s = release-IsSolvent v a x l h s
call-IsSolvent (Call.adjust v a x) l h s = adjust-IsSolvent v a x l s
call-IsSolvent (Call.settle_fill v b q d x y fee) l h s =
    settle_fill-IsSolvent v b q d x y fee l h.0 h.1 s

-- After any sequence of regular calls, granted or refused, no balance and no reservation of any
-- account is negative, if none was before.
pub run-IsSolvent :
    (cs : List Call) (l : PaperLedger) → AllRegular cs → IsSolvent l → IsSolvent (run cs l)
unfolding run
run-IsSolvent [] l h s = s
run-IsSolvent (c ∷ cs) l h s = run-IsSolvent cs (call c l) h.1 (call-IsSolvent c l h.0 s)
