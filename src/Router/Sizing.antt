-- ===== src/Router/Sizing.antt =====
-- `pick_size` of engine/opportunity.py.
use fedr.Base.{String, Option, none, some, List, [], ◌∷◌, ◌++◌, if◌then◌else◌, or_else, ◌/◌}
use Prim.Native.String.{◌++◌ as append}
use fedr.Int.{pos, ltb_ℤ, leb_ℤ, min_ℤ, max_ℤ}
use fedr.Decimal.{Decimal, unit, zero_dec, cents, mul, div, pct_of, floor_to_step}
use fedr.Ledger.{OrderSide, buy, sell}
use fedr.Models.{cex, dex, perp}
use fedr.Settings.{AppSettings}
use fedr.Guards.{limit_for}
use fedr.OrderBook.{OrderBook}
use fedr.OrderBook.Sizing.{max_size_within_slippage}
use fedr.Inventory.{available}
use fedr.Orders.{Venue}
use fedr.Paper.{ledger_venue}
use fedr.Executor.{Engine}
use fedr.Router.{
  RouteCandidate, Scene, RouteReason, no_usable_capital, capped_by_depth, capped_by_inventory,
  capped_by_collateral,
}
use fedr.Router.Deciding.{route_of}

-- The size so far, the notes, and the accounts that the rebalancer is told of.
pub record Sized : Type 0 where
  pub size : Decimal
  pub notes : List RouteReason
  pub short : List (String × String)

unfoldable pub capped : Decimal → RouteReason → List (String × String) → Sized → Sized
capped cap note accounts s =
    if ltb_ℤ cap s.size
    then record { size = cap; notes = s.notes ++ note ∷ []; short = s.short ++ accounts }
    else s

unfoldable pub target_of : Scene → AppSettings → RouteCandidate → Decimal
target_of sc s cand =
    if cand.flash_loan
    then min_ℤ s.flash_loan.max_loan_usd s.risk.max_flash_loan_usd
    else min_ℤ s.trading.max_trade_size_usd
        (pct_of sc.usable_capital_usd s.risk.max_capital_usage_pct)

-- The book that limits a leg; a decentral venue has none.
abbrev pub book_for : Scene → RouteCandidate → String → String → Venue → Option OrderBook
book_for sc cand base quote v = elim v.kind [
  | cex ↦ sc.book v.name cand.pair
  | perp ↦ sc.book v.name (append base (append "/" (append quote (append ":" quote))))
  | dex ↦ none
]

abbrev pub depth_limit : Engine → RouteCandidate → String → Decimal → Venue → Decimal
depth_limit e cand base target v = limit_for e.settings.slippage base v.name (route_of cand) target

abbrev pub by_depth :
    Engine
    → RouteCandidate
    → String
    → Decimal
    → Venue
    → OrderSide
    → Option OrderBook
    → Sized
    → Sized
by_depth e cand base target v side none s = s
by_depth e cand base target v side (some b) s =
    let cap = max_size_within_slippage side (depth_limit e cand base target v) b in
    capped cap (capped_by_depth v.name cap) [] s

-- What an amount of the quote asset buys, with room for fees.
unfoldable pub worth : Decimal → Decimal → Decimal
worth amount px = mul (div amount px) (cents 98)

abbrev pub sell_limit : Engine → RouteCandidate → String → String → Decimal → Decimal
sell_limit e cand base quote px =
    let v = ledger_venue cand.sell in
    elim cand.sell.kind [
      | perp ↦ worth (available e.inventory v quote) px
      | cex ↦ available e.inventory v base
      | dex ↦ available e.inventory v base
    ]

unfoldable pub sell_note : RouteCandidate → String → String → RouteReason × String
sell_note cand base quote = elim cand.sell.kind [
  | perp ↦ (capped_by_collateral cand.sell.name quote, quote)
  | cex ↦ (capped_by_inventory cand.sell.name base, base)
  | dex ↦ (capped_by_inventory cand.sell.name base, base)
]

unfoldable pub by_inventory : Engine → RouteCandidate → String → String → Decimal → Sized → Sized
by_inventory e cand base quote px s =
    let buyer = ledger_venue cand.buy in
    let (note, asset) = sell_note cand base quote in
    capped (sell_limit e cand base quote px) note ((ledger_venue cand.sell, asset) ∷ []) (
      capped (worth (available e.inventory buyer quote) px)
        (capped_by_inventory cand.buy.name quote) ((buyer, quote) ∷ []) s)

-- `Decimal("0.000001")`
unfoldable pub micro : Decimal
micro = pos (unit / 1000000)

abbrev pub step_of : Scene → RouteCandidate → Decimal
step_of sc cand =
    or_else (sc.amount_step cand.buy.name cand.pair)
      (or_else (sc.amount_step cand.sell.name cand.pair) micro)

unfoldable pub caps : Scene → Engine → RouteCandidate → String → String → Decimal → Decimal → Sized
caps sc e cand base quote px target =
    let first : Sized = record { size = div target px; notes = []; short = [] } in
    let bought =
      by_depth e cand base target cand.buy buy (book_for sc cand base quote cand.buy) first in
    let sold =
      by_depth e cand base target cand.sell sell (book_for sc cand base quote cand.sell) bought in
    if cand.flash_loan then sold else by_inventory e cand base quote px sold

-- `pick_size`
unfoldable pub pick_size : Scene → Engine → RouteCandidate → String → String → Decimal → Sized
pick_size sc e cand base quote px =
    let target = target_of sc e.settings cand in
    let s = caps sc e cand base quote px target in
    if leb_ℤ target zero_dec
    then record { size = zero_dec; notes = no_usable_capital ∷ []; short = [] }
    else record s { size = floor_to_step (max_ℤ zero_dec s.size) (step_of sc cand) }
