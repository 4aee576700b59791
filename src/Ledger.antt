-- ===== src/Ledger.antt =====
-- connectors/paper/ledger.py: the simulated balances of the PAPER and SIMULATION modes.
-- A method that mutates `self` returns the new ledger; one that may raise returns it beside the
-- outcome, since `_acct` has then already entered the account.
pub mod Accounts
pub mod Reserve
pub mod Settle
pub mod Shorts
pub mod Total
pub mod Calls
mod Tests
use fedr.Base.{
  String, Bool, true, false, not, ◌&&◌, Option, none, some, List, [], ◌∷◌, map, if◌then◌else◌,
  or_else,
}
use fedr.Int.{ℤ, pos, ◌+ℤ◌, ◌-ℤ◌, ltb_ℤ, min_ℤ, max_ℤ}
use fedr.Decimal.{Decimal, zero_dec, mul}
use fedr.Dict.{Dict, lookup, insert, sum_by}
use text.Mathlib.Text.{find?}
use Prim.Native.String.{slice}
use Prim.Native.String.{◌++◌ as append}

-- core/models.py; the `asset` field repeats the key
pub record Balance : Type 0 where
  pub free : Decimal
  pub used : Decimal

pub data OrderSide : Type 0 where
  buy sell : OrderSide

pub record PaperLedger : Type 0 where
  pub bal : Dict (Dict Balance)
  pub dirty : Bool

pub data Outcome (A : Type 0) : Type 0 where
  done : A → Outcome A
  insufficient : Outcome A

abbrev is_sell : OrderSide → Bool
is_sell buy = false
is_sell sell = true

abbrev pub empty_balance : Balance
empty_balance = record { free = zero_dec; used = zero_dec }

-- `_bal.get(venue, {}).get(asset)`, an absent account being empty; so reads `get`
unfoldable pub get : PaperLedger → String → String → Balance
get l venue asset = or_else (lookup asset (or_else (lookup venue l.bal) [])) empty_balance

-- `balances`: the accounts of one venue
unfoldable pub balances : PaperLedger → String → Dict Balance
balances l venue = or_else (lookup venue l.bal) []

-- A write through the object that `_acct` returns. `setdefault` enters the venue and the asset.
unfoldable pub put : String → String → Balance → PaperLedger → PaperLedger
put venue asset b l = record l { bal = insert venue (insert asset b (balances l venue)) l.bal }

-- `_acct`: the account, entered with zeros if it is new
unfoldable pub acct : String → String → PaperLedger → PaperLedger
acct venue asset l = put venue asset (get l venue asset) l

unfoldable pub touched : PaperLedger → PaperLedger
touched l = record l { dirty = true }

-- `b.free += x` and `b.used += x`, on the account's object
unfoldable pub add_free : String → String → Decimal → PaperLedger → PaperLedger
add_free venue asset x l =
    let b = get l venue asset in put venue asset (record b { free = b.free +ℤ x }) l

unfoldable pub add_used : String → String → Decimal → PaperLedger → PaperLedger
add_used venue asset x l =
    let b = get l venue asset in put venue asset (record b { used = b.used +ℤ x }) l

-- `raise ValueError` if the new amount is below 0, unless that is allowed
unfoldable pub adjust :
    String → String → Decimal → Bool → PaperLedger → PaperLedger × Outcome Decimal
adjust venue asset delta allow_negative l =
    let l' = acct venue asset l in
    let b = get l' venue asset in
    let new = b.free +ℤ delta in
    if ltb_ℤ new zero_dec && not allow_negative
    then (l', insufficient)
    else (touched (put venue asset (record b { free = new }) l'), done new)

unfoldable pub reserve : String → String → Decimal → PaperLedger → PaperLedger × Outcome (Unit {0})
reserve venue asset amount l =
    let l' = acct venue asset l in
    let b = get l' venue asset in
    if ltb_ℤ b.free amount then (l', insufficient) else (
      touched (put venue asset (record { free = b.free -ℤ amount; used = b.used +ℤ amount }) l'),
      done tt,
    )

unfoldable pub release : String → String → Decimal → PaperLedger → PaperLedger
release venue asset amount l =
    let l' = acct venue asset l in
    let b = get l' venue asset in
    let take = min_ℤ amount b.used in
    touched (put venue asset (record { free = b.free +ℤ take; used = b.used -ℤ take }) l')

-- The two statements of a branch of `settle_fill`: what is given up, and what comes in. They read
-- the accounts one after the other, as they do where the base and the quote are one account.
unfoldable pub pay : String → String → Decimal → Bool → PaperLedger → PaperLedger
pay venue asset x reserved l =
    let b = get l venue asset in
    if reserved
    then put venue asset (record b { used = max_ℤ zero_dec (b.used -ℤ x) }) l
    else put venue asset (record b { free = b.free -ℤ x }) l

unfoldable pub settle_fill :
    String
    → String
    → String
    → OrderSide
    → Decimal
    → Decimal
    → Decimal
    → Bool
    → PaperLedger
    → PaperLedger
settle_fill venue base quote buy base_amount quote_amount fee_quote reserved l =
    let l' = acct venue quote (acct venue base l) in
    touched
      (add_free venue base base_amount (pay venue quote (quote_amount +ℤ fee_quote) reserved l'))
settle_fill venue base quote sell base_amount quote_amount fee_quote reserved l =
    let l' = acct venue quote (acct venue base l) in
    touched
      (add_free venue quote (quote_amount -ℤ fee_quote) (pay venue base base_amount reserved l'))

-- `f"{quote}:collateral"`
unfoldable pub collateral : String → String
collateral quote = append quote ":collateral"

-- The short is opened by a sell that is not reduce-only; every other call closes it.
unfoldable pub settle_perp :
    String → String → OrderSide → Decimal → Decimal → Bool → PaperLedger → PaperLedger
settle_perp venue quote side notional fee_quote reduce_only l =
    let coll = collateral quote in
    let l' = acct venue coll (acct venue quote l) in
    let b = get l' venue quote in
    let moved = min_ℤ b.used notional in
    let opened = add_free venue coll notional (
      put venue quote
        (record { free = b.free -ℤ ((notional -ℤ moved) +ℤ fee_quote); used = b.used -ℤ moved })
        l') in
    let c = get l' venue coll in
    let entry = c.free in
    let closed =
      add_free venue quote ((entry +ℤ (entry -ℤ notional)) -ℤ fee_quote)
        (put venue coll (record c { free = zero_dec }) l') in
    touched (if is_sell side && not reduce_only then opened else closed)

unfoldable pub charge_gas : String → String → Decimal → PaperLedger → PaperLedger
charge_gas venue native_asset native_amount l =
    let l' = acct venue native_asset l in
    let b = get l' venue native_asset in
    touched (put venue native_asset (record b { free = b.free -ℤ native_amount }) l')

abbrev pub map_values {ℓ κ} : {A : Type ℓ} {B : Type κ} → (A → B) → Dict A → Dict B
map_values f [] = []
map_values f ((k, v) ∷ d) = (k, f v) ∷ map_values f d

abbrev pub load_account : Decimal × Decimal → Balance
load_account (f, u) = record { free = f; used = u }

abbrev pub dump_account : Balance → Decimal × Decimal
dump_account b = (b.free, b.used)

-- `load` and `dump`; `load` leaves `dirty` as it is
unfoldable pub load : Dict (Dict (Decimal × Decimal)) → PaperLedger → PaperLedger
load saved l = record l { bal = map_values (map_values load_account) saved }

unfoldable pub dump : PaperLedger → Dict (Dict (Decimal × Decimal))
dump l = map_values (map_values dump_account) l.bal

-- `seed`: fresh balances, with nothing in use
unfoldable pub seed : Dict (Dict Decimal) → PaperLedger
seed amounts = record {
  bal = map_values (map_values (λ x. record { free = x; used = zero_dec })) amounts;
  dirty = true;
}

-- `a.split(":")[0]`
unfoldable pub before_colon : String → String
before_colon a = elim (find? a ":") [ none ↦ a | some i ↦ slice a 0 i ]

-- An asset with no price counts for nothing.
abbrev pub worth : Option Decimal → Decimal → Decimal
worth none amount = zero_dec
worth (some px) amount = mul amount px

-- What one account counts for in `total_usd`.
unfoldable pub usd_value : (String → Option Decimal) → String → Balance → Decimal
usd_value price_of a b = worth (price_of (before_colon a)) (b.free +ℤ b.used)

unfoldable pub total_usd : (String → Option Decimal) → PaperLedger → Decimal
total_usd price_of l = sum_by (λ v assets. sum_by (usd_value price_of) assets) l.bal
