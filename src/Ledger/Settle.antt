-- ===== src/Ledger/Settle.antt =====
-- `settle_fill` and `settle_perp` of connectors/paper/ledger.py.
use fedr.Base.{
  String, ◌≡◌, ◌≢◌, Bool, true, false, ◌&&◌, arith, ◌==◌, eq_iff, eq_refl, ◌||◌, Bool-cases, inl,
  inr, ap, ◌∙◌, ◌+◌, if◌then◌else◌,
}
use Prim.Native.String.{count}
use text.Mathlib.TextLemmas.{length-append}
use fedr.Int.{pos, ◌+ℤ◌, ◌-ℤ◌, min_ℤ, max_ℤ, ◌≤ℤ◌, int_laws}
use fedr.Decimal.{Decimal, zero_dec}
use fedr.Ledger.{PaperLedger, OrderSide, buy, sell, get, settle_fill, settle_perp, collateral, pay}
use fedr.Ledger.Accounts.{get-touched, get-put, get-acct, get-add_free}
use fedr.Ledger.Reserve.{IsSolvent}

get-pay :
    (v a : String) (x : Decimal) (reserved : Bool) (l : PaperLedger) (v' a' : String)
    → let b = get l v a in
      get (pay v a x reserved l) v' a' ≡ (
        if v == v' && a == a'
        then if reserved
          then record { free = b.free; used = max_ℤ zero_dec (b.used -ℤ x) }
          else record { free = b.free -ℤ x; used = b.used }
        else get l v' a')
unfolding pay
get-pay v a x true l v' a' = get-put v a _ l v' a'
get-pay v a x false l v' a' = get-put v a _ l v' a'

-- A fill that was paid from a reservation: in the account that pays, the reservation shrinks by
-- the cost, and not below 0; in the account that receives, the free amount grows by the proceeds.
-- Nothing else moves. (The base and the quote are two assets.)
pub settle_fill-get :
    (v base quote : String) (x y fee : Decimal) (l : PaperLedger) (v' a' : String)
    → base ≢ quote
    → let b = get l v base in
      let c = get l v quote in
      let bought = settle_fill v base quote buy x y fee true l in
      let sold = settle_fill v base quote sell x y fee true l in
      (get bought v' a' ≡ (
        if v == v' && base == a'
        then record { free = b.free +ℤ x; used = b.used }
        else if v == v' && quote == a'
        then record { free = c.free; used = max_ℤ zero_dec (c.used -ℤ (y +ℤ fee)) }
        else get l v' a'))
      × (get sold v' a' ≡ (
          if v == v' && base == a'
          then record { free = b.free; used = max_ℤ zero_dec (b.used -ℤ x) }
          else if v == v' && quote == a'
          then record { free = c.free +ℤ (y -ℤ fee); used = c.used }
          else get l v' a'))
unfolding settle_fill
settle_fill-get v base quote x y fee l v' a' ne =
    simp (get-touched, get-add_free, get-pay, get-acct, eq_refl)
      (ground
        (arith, eq_iff v v', eq_iff base a', eq_iff quote a', eq_iff base quote, eq_iff quote base))

-- A fill paid from a reservation leaves the ledger solvent, if the amounts are not negative and a
-- sale's fee is no more than its proceeds.
pub settle_fill-IsSolvent :
    (v base quote : String) (side : OrderSide) (x y fee : Decimal) (l : PaperLedger)
    → pos 0 ≤ℤ x
    → fee ≤ℤ y
    → IsSolvent l
    → IsSolvent (settle_fill v base quote side x y fee true l)
unfolding settle_fill
settle_fill-IsSolvent v base quote buy x y fee l hx hy s v' a' =
    simp (get-touched, get-add_free, get-pay, get-acct, eq_refl)
      (grind (int_laws, s v base, s v quote, s v' a'))
settle_fill-IsSolvent v base quote sell x y fee l hx hy s v' a' =
    simp (get-touched, get-add_free, get-pay, get-acct, eq_refl)
      (grind (int_laws, s v base, s v quote, s v' a'))

pub collateral-ne : (quote : String) → (quote == collateral quote) ≡ false
unfolding collateral
collateral-ne quote = elim (Bool-cases (quote == collateral quote)) [
  | inl e ↦
      let n : count quote ≡ count quote + 11 =
        ap count ((eq_iff quote (collateral quote)).0 e) ∙ length-append quote ":collateral" in
      absurd (omega arith)
  | inr e ↦ e
]

-- What opening a short does to each account.
pub settle_perp-get_open :
    (v quote : String) (notional fee : Decimal) (l : PaperLedger) (v' a' : String)
    → let b = get l v quote in
      let c = get l v (collateral quote) in
      let moved = min_ℤ b.used notional in
      get (settle_perp v quote sell notional fee false l) v' a' ≡ (
        if v == v' && quote == a'
        then record { free = b.free -ℤ ((notional -ℤ moved) +ℤ fee); used = b.used -ℤ moved }
        else if v == v' && collateral quote == a'
        then record { free = c.free +ℤ notional; used = c.used }
        else get l v' a')
unfolding settle_perp
settle_perp-get_open v quote notional fee l v' a' =
    simp (get-touched, get-add_free, get-put, get-acct, eq_refl, collateral-ne)
      (ground (arith, eq_iff quote a', eq_iff (collateral quote) a', collateral-ne quote))

-- What closing a short does to each account.
pub settle_perp-get_close :
    (v quote : String) (exit fee : Decimal) (l : PaperLedger) (v' a' : String)
    → let b = get l v quote in
      let c = get l v (collateral quote) in
      get (settle_perp v quote buy exit fee true l) v' a' ≡ (
        if v == v' && quote == a'
        then record { free = b.free +ℤ ((c.free +ℤ (c.free -ℤ exit)) -ℤ fee); used = b.used }
        else if v == v' && collateral quote == a'
        then record { free = pos 0; used = c.used }
        else get l v' a')
unfolding settle_perp
settle_perp-get_close v quote exit fee l v' a' =
    simp (get-touched, get-add_free, get-put, get-acct, eq_refl)
      (ground (
        arith,
        eq_iff quote a',
        eq_iff (collateral quote) a',
        collateral-ne quote,
        eq_iff (collateral quote) quote,
        eq_iff quote (collateral quote),
      ))

-- A short that is opened and then closed books its profit, the entry notional less the exit
-- notional, less both fees; the collateral account goes from empty to the entry notional and back,
-- and no other account moves.
pub settle_perp-close-open :
    (v quote : String) (entry exit fee fee' : Decimal) (l : PaperLedger) (v' a' : String)
    → (get l v (collateral quote)).free ≡ pos 0
    → let b = get l v quote in
      let opened = settle_perp v quote sell entry fee false l in
      let closed = settle_perp v quote buy exit fee' true opened in
      let c = get closed v quote in
      (c.free +ℤ c.used ≡ b.free +ℤ b.used +ℤ (entry -ℤ exit) -ℤ fee -ℤ fee')
      × ((get opened v (collateral quote)).free ≡ entry)
      × ((get closed v (collateral quote)).free ≡ pos 0)
      × (get closed v' a' ≡ (
          if v == v' && (quote == a' || collateral quote == a')
          then get closed v a'
          else get l v' a'))
settle_perp-close-open v quote entry exit fee fee' l v' a' z =
    let opened = settle_perp v quote sell entry fee false l in
    simp (settle_perp-get_close, settle_perp-get_open, eq_refl, collateral-ne)
      (grind (int_laws, collateral-ne quote, eq_iff quote a', eq_iff (collateral quote) a'))
