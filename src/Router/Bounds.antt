-- ===== src/Router/Bounds.antt =====
-- The sizes that `pick_size` of engine/opportunity.py gives.
use fedr.Base.{
  String, ◌≡◌, Bool, true, false, Option, none, some, List, [], ◌∷◌, arith, if◌then◌else◌,
  Bool-cases, inl, inr, or_else,
}
use native.Mathlib.Nat.{div-mul-le_self}
use mathlib.Core.Path.{subst}
use fedr.Int.{pos, negsuc, ◌≤ℤ◌, leb_ℤ, max_ℤ}
use fedr.Decimal.{Decimal, magnitude, zero_dec, div, floor_to_step}
use fedr.Ledger.{OrderSide, buy, sell}
use fedr.OrderBook.{OrderBook}
use fedr.OrderBook.Sizing.{max_size_within_slippage}
use fedr.Inventory.{available}
use fedr.Orders.{Venue}
use fedr.Paper.{ledger_venue}
use fedr.Executor.{Engine}
use fedr.Router.{RouteCandidate, Scene, RouteReason, capped_by_depth, capped_by_inventory}
use fedr.Router.Sizing.{
  Sized, capped, target_of, book_for, depth_limit, by_depth, worth, sell_limit, sell_note,
  by_inventory, caps, pick_size, step_of,
}

floor_to_step_bounds :
    (x step : Decimal) → pos 0 ≤ℤ x → (pos 0 ≤ℤ floor_to_step x step) × (floor_to_step x step ≤ℤ x)
unfolding floor_to_step
floor_to_step_bounds (pos n) step h = elim (Bool-cases (leb_ℤ step zero_dec)) [
  | inl e ↦ rw e (omega arith, omega arith)
  | inr e ↦ rw e (omega arith, omega (arith, div-mul-le_self n (magnitude step)))
]
floor_to_step_bounds (negsuc n) step h = ground arith

capped_bounds :
    (cap : Decimal) (note : RouteReason) (accounts : List (String × String)) (s : Sized)
    → ((capped cap note accounts s).size ≤ℤ cap) × ((capped cap note accounts s).size ≤ℤ s.size)
unfolding capped
capped_bounds cap note accounts s = (ground arith, ground arith)

-- At most as much as the cap, or 0 where the cap is negative.
unfoldable pub IsCapped : Decimal → Decimal → Type 0
IsCapped size cap = size ≤ℤ max_ℤ zero_dec cap

-- What bounds a size: the target, the depth of the two books within the slippage limits, and, unless
-- it is borrowed, the inventory of both legs.
pub record IsSized (sc : Scene) (e : Engine) (cand : RouteCandidate) (base quote : String)
    (px target size : Decimal) : Type 0 where
  pub by_target : IsCapped size (div target px)
  pub by_buy_book :
      (b : OrderBook)
      → book_for sc cand base quote cand.buy ≡ some b
      → IsCapped size (max_size_within_slippage buy (depth_limit e cand base target cand.buy) b)
  pub by_sell_book :
      (b : OrderBook)
      → book_for sc cand base quote cand.sell ≡ some b
      → IsCapped size (max_size_within_slippage sell (depth_limit e cand base target cand.sell) b)
  pub by_quote :
      cand.flash_loan ≡ false
      → IsCapped size (worth (available e.inventory (ledger_venue cand.buy) quote) px)
  pub by_sell : cand.flash_loan ≡ false → IsCapped size (sell_limit e cand base quote px)

up : (x y c : Decimal) → x ≤ℤ y → y ≤ℤ c → IsCapped x c
unfolding IsCapped
up x y c h k = ground arith

-- A smaller size is bounded too, and so is one that is cut at 0.
smaller : (x y c : Decimal) → IsCapped x y → IsCapped y c → IsCapped x c
unfolding IsCapped
smaller x y c h k = ground arith

either : (b : Bool) (x y : Sized) → y.size ≤ℤ x.size → (if b then x else y).size ≤ℤ x.size
either true x y h = omega arith
either false x y h = h

otherwise :
    (b : Bool) (x y : Sized) (c : Decimal)
    → y.size ≤ℤ c
    → b ≡ false
    → IsCapped (if b then x else y).size c
unfolding IsCapped
otherwise true x y c h e = ground arith
otherwise false x y c h e = ground arith

le_trans : (a b c : Decimal) → a ≤ℤ b → b ≤ℤ c → a ≤ℤ c
le_trans a b c h k = omega arith

by_depth_bounds :
    (e : Engine) (cand : RouteCandidate) (base : String) (target : Decimal) (v : Venue)
    (side : OrderSide) (o : Option OrderBook) (s : Sized)
    → ((by_depth e cand base target v side o s).size ≤ℤ s.size)
      × ((b : OrderBook)
          → o ≡ some b
          → (by_depth e cand base target v side o s).size
            ≤ℤ max_size_within_slippage side (depth_limit e cand base target v) b)
by_depth_bounds e cand base target v side none s = (omega arith, λ b h. ground arith)
by_depth_bounds e cand base target v side (some b) s =
    let cap = max_size_within_slippage side (depth_limit e cand base target v) b in
    let (x, y) = capped_bounds cap (capped_by_depth v.name cap) [] s in
    (
      y,
      λ b' h.
          subst
            (λ q.
              (capped cap (capped_by_depth v.name cap) [] s).size
              ≤ℤ max_size_within_slippage side (depth_limit e cand base target v) (or_else q b))
            h x,
    )

by_inventory_bounds :
    (e : Engine) (cand : RouteCandidate) (base quote : String) (px : Decimal) (s : Sized)
    → let size = (by_inventory e cand base quote px s).size in
      (size ≤ℤ s.size)
      × (size ≤ℤ worth (available e.inventory (ledger_venue cand.buy) quote) px)
      × (size ≤ℤ sell_limit e cand base quote px)
unfolding by_inventory
by_inventory_bounds e cand base quote px s =
    let buyer = ledger_venue cand.buy in
    let (note, asset) = sell_note cand base quote in
    let first =
      capped (worth (available e.inventory buyer quote) px)
        (capped_by_inventory cand.buy.name quote) ((buyer, quote) ∷ []) s in
    let (a, b) =
      capped_bounds (worth (available e.inventory buyer quote) px)
        (capped_by_inventory cand.buy.name quote) ((buyer, quote) ∷ []) s in
    let (c, d) =
      capped_bounds (sell_limit e cand base quote px) note ((ledger_venue cand.sell, asset) ∷ [])
        first in
    (le_trans _ first.size s.size d b, le_trans _ first.size _ d a, c)

-- The same bounds, before the size is rounded down and cut at 0.
caps-IsSized :
    (sc : Scene) (e : Engine) (cand : RouteCandidate) (base quote : String) (px target : Decimal)
    → IsSized sc e cand base quote px target (caps sc e cand base quote px target).size
unfolding caps
caps-IsSized sc e cand base quote px target =
    let first : Sized = record { size = div target px; notes = []; short = [] } in
    let buy_book = book_for sc cand base quote cand.buy in
    let sell_book = book_for sc cand base quote cand.sell in
    let bought = by_depth e cand base target cand.buy buy buy_book first in
    let sold = by_depth e cand base target cand.sell sell sell_book bought in
    let (a, b) = by_depth_bounds e cand base target cand.buy buy buy_book first in
    let (c, d) = by_depth_bounds e cand base target cand.sell sell sell_book bought in
    let (f, g, h) = by_inventory_bounds e cand base quote px sold in
    let stocked = by_inventory e cand base quote px sold in
    let k = either cand.flash_loan sold stocked f in
    let size = (if cand.flash_loan then sold else stocked).size in
    record {
      by_target = up size sold.size _ k (le_trans sold.size bought.size first.size c a);
      by_buy_book = λ o q. up size sold.size _ k (le_trans sold.size bought.size _ c (b o q));
      by_sell_book = λ o q. up size sold.size _ k (d o q);
      by_quote = λ q. otherwise cand.flash_loan sold stocked _ g q;
      by_sell = λ q. otherwise cand.flash_loan sold stocked _ h q;
    }

smaller-IsSized :
    (sc : Scene) (e : Engine) (cand : RouteCandidate) (base quote : String)
    (px target x y : Decimal)
    → IsCapped x y
    → IsSized sc e cand base quote px target y
    → IsSized sc e cand base quote px target x
smaller-IsSized sc e cand base quote px target x y k h = record {
  by_target = smaller x y _ k h.by_target;
  by_buy_book = λ o q. smaller x y _ k (h.by_buy_book o q);
  by_sell_book = λ o q. smaller x y _ k (h.by_sell_book o q);
  by_quote = λ q. smaller x y _ k (h.by_quote q);
  by_sell = λ q. smaller x y _ k (h.by_sell q);
}

zero-IsCapped : (y : Decimal) → IsCapped zero_dec y
unfolding IsCapped
zero-IsCapped y = ground arith

of_max : (x y : Decimal) → x ≤ℤ max_ℤ zero_dec y → IsCapped x y
unfolding IsCapped
of_max x y h = h

max_positive : (y : Decimal) → pos 0 ≤ℤ max_ℤ zero_dec y
max_positive y = ground arith

-- The size that is picked is not negative, and each of the target, the depth of the books within the
-- slippage limits, and, without a flash loan, the inventory of each leg, where they are not negative,
-- is at least as large.
pub pick_size-IsSized :
    (sc : Scene) (e : Engine) (cand : RouteCandidate) (base quote : String) (px : Decimal)
    → let size = (pick_size sc e cand base quote px).size in
      (pos 0 ≤ℤ size) × IsSized sc e cand base quote px (target_of sc e.settings cand) size
unfolding pick_size
pick_size-IsSized sc e cand base quote px =
    let target = target_of sc e.settings cand in
    let s = caps sc e cand base quote px target in
    let h = caps-IsSized sc e cand base quote px target in
    let (low, high) =
      floor_to_step_bounds (max_ℤ zero_dec s.size) (step_of sc cand) (max_positive s.size) in
    elim (Bool-cases (leb_ℤ target zero_dec)) [
      | inl q ↦ simp q (
        omega arith,
        smaller-IsSized sc e cand base quote px target zero_dec s.size (zero-IsCapped s.size) h,
      )
      | inr q ↦
          simp q
            (low, smaller-IsSized sc e cand base quote px target _ s.size (of_max _ s.size high) h)
    ]
