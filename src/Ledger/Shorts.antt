-- ===== src/Ledger/Shorts.antt =====
-- `settle_perp` of connectors/paper/ledger.py, with two shorts of one quote asset on one venue.
use fedr.Base.{String, ◌≡◌, true, false, eq_refl}
use fedr.Int.{pos, ◌+ℤ◌, ◌-ℤ◌, int_laws}
use fedr.Decimal.{Decimal}
use fedr.Ledger.{PaperLedger, buy, sell, get, settle_perp, collateral}
use fedr.Ledger.Settle.{collateral-ne, settle_perp-get_open, settle_perp-get_close}

-- The free and used amounts together.
abbrev total : String → String → PaperLedger → Decimal
total v a l = (get l v a).free +ℤ (get l v a).used

-- What opening and closing a short do to the total of its quote asset and to the collateral.
opened_total :
    (v quote : String) (n fee : Decimal) (l : PaperLedger)
    → let l' = settle_perp v quote sell n fee false l in
      (total v quote l' ≡ total v quote l -ℤ n -ℤ fee)
      × ((get l' v (collateral quote)).free ≡ (get l v (collateral quote)).free +ℤ n)
opened_total v quote n fee l =
    simp (settle_perp-get_open, eq_refl, collateral-ne) (grind (int_laws, collateral-ne quote))

closed_total :
    (v quote : String) (x fee : Decimal) (l : PaperLedger)
    → let l' = settle_perp v quote buy x fee true l in
      let c = (get l v (collateral quote)).free in
      (total v quote l' ≡ total v quote l +ℤ (c +ℤ (c -ℤ x)) -ℤ fee)
      × ((get l' v (collateral quote)).free ≡ pos 0)
closed_total v quote x fee l =
    simp (settle_perp-get_close, eq_refl, collateral-ne) (grind (int_laws, collateral-ne quote))

-- With an empty collateral account, two shorts are opened and then closed. When the first is closed,
-- the collateral account is empty though the second is open, and the free and used amounts together
-- are what they were, plus both entry notionals, less the exit notional and the fees: the entry
-- notional of the second counts as booked. When the second is closed too, they are what they were,
-- plus both profits, less the fees.
pub settle_perp-close_two :
    (v quote : String) (n1 n2 x1 x2 f1 f2 f3 f4 : Decimal) (l : PaperLedger)
    → (get l v (collateral quote)).free ≡ pos 0
    → let b = get l v quote in
      let both = settle_perp v quote sell n2 f2 false (settle_perp v quote sell n1 f1 false l) in
      let one = settle_perp v quote buy x1 f3 true both in
      let none_left = settle_perp v quote buy x2 f4 true one in
      let c = get one v quote in
      let d = get none_left v quote in
      ((get both v (collateral quote)).free ≡ n1 +ℤ n2)
      × ((get one v (collateral quote)).free ≡ pos 0)
      × (c.free +ℤ c.used ≡ b.free +ℤ b.used +ℤ (n1 -ℤ x1) +ℤ n2 -ℤ f1 -ℤ f2 -ℤ f3)
      × (d.free +ℤ d.used ≡ b.free +ℤ b.used +ℤ (n1 -ℤ x1) +ℤ (n2 -ℤ x2) -ℤ f1 -ℤ f2 -ℤ f3 -ℤ f4)
settle_perp-close_two v quote n1 n2 x1 x2 f1 f2 f3 f4 l z =
    let first = settle_perp v quote sell n1 f1 false l in
    let both = settle_perp v quote sell n2 f2 false first in
    let one = settle_perp v quote buy x1 f3 true both in
    let (a, a') = opened_total v quote n1 f1 l in
    let (b, b') = opened_total v quote n2 f2 first in
    let (c, c') = closed_total v quote x1 f3 both in
    let (d, _) = closed_total v quote x2 f4 one in
    (
      rw (b', a', z) (omega int_laws),
      c',
      rw (c, b', a', z, b, a) (omega int_laws),
      rw (d, c', c, b', a', z, b, a) (omega int_laws),
    )
