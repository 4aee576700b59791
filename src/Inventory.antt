-- ===== src/Inventory.antt =====
-- engine/inventory.py: what each venue holds of each asset, and the trades' reservations on it.
-- `price_usd`, a callback of the constructor, is an argument of the operations that call it.
pub mod Reservations
pub mod Refresh
mod Tests
use fedr.Base.{
  String, Bool, true, false, not, ◌&&◌, ◌||◌, Option, none, some, List, [], ◌∷◌, ◌++◌, map, ◌==◌,
  if◌then◌else◌, or_else, is_none, when,
}
use fedr.Int.{ℤ, pos, ◌+ℤ◌, ◌-ℤ◌, ltb_ℤ, max_ℤ}
use fedr.Decimal.{Decimal, zero_dec, mul}
use fedr.Dict.{Dict, lookup, insert, erase, sum_by}
use fedr.Ledger.{Balance}

pub record InventoryLine : Type 0 where
  pub venue : String
  pub asset : String
  pub available : Decimal
  pub reserved : Decimal
  pub pending : Decimal
  pub target : Decimal
  pub minimum : Decimal
  pub maximum : Option Decimal
  pub usd_value : Option Decimal
  pub kind : String

-- The target, the minimum and the maximum of `set_targets`.
pub record Targets : Type 0 where
  pub target : Decimal
  pub minimum : Decimal
  pub maximum : Option Decimal

-- The venue, the asset and the amount.
pub record Need : Type 0 where
  pub venue : String
  pub asset : String
  pub amount : Decimal

-- A dict whose keys are a venue and an asset.
abbrev pub Accounts {ℓ} : Type ℓ → Type ℓ
Accounts V = List (String × String × V)

pub record InventoryManager : Type 0 where
  pub lines : Accounts InventoryLine
  pub reservations : Dict (List Need)
  pub targets : Accounts Targets

module _ {ℓ} {V : Type ℓ} where
  unfoldable pub find : String → String → Accounts V → Option V
  find v a [] = none
  find v a ((w, b, x) ∷ d) = if w == v && b == a then some x else find v a d

  unfoldable pub store : String → String → V → Accounts V → Accounts V
  store v a x [] = (v, a, x) ∷ []
  store v a x ((w, b, y) ∷ d) =
      if w == v && b == a then (w, b, x) ∷ d else (w, b, y) ∷ store v a x d

unfoldable pub set_targets :
    String → String → Decimal → Decimal → Option Decimal → InventoryManager → InventoryManager
set_targets venue asset target minimum maximum i = record i {
  targets =
      store venue asset (record { target = target; minimum = minimum; maximum = maximum })
        i.targets;
}

-- `InventoryLine(venue=venue, asset=asset, kind=kind)`
abbrev new_line : String → String → String → InventoryLine
new_line venue asset kind = record {
  venue = venue;
  asset = asset;
  available = zero_dec;
  reserved = zero_dec;
  pending = zero_dec;
  target = zero_dec;
  minimum = zero_dec;
  maximum = none;
  usd_value = none;
  kind = kind;
}

abbrev with_targets : Option Targets → InventoryLine → InventoryLine
with_targets none line = line
with_targets (some t) line = record line {
  target = t.target;
  minimum = t.minimum;
  maximum = t.maximum;
}

-- `(b.free + b.used) * px if px is not None else None`
abbrev value_at : Option Decimal → Balance → Option Decimal
value_at none b = none
value_at (some px) b = some (mul (b.free +ℤ b.used) px)

-- the lines of the venue whose asset is no longer reported go
unfoldable pub drop_unreported :
    String → Dict Balance → Accounts InventoryLine → Accounts InventoryLine
drop_unreported venue balances [] = []
drop_unreported venue balances ((v, a, line) ∷ d) =
    let rest = drop_unreported venue balances d in
    if v == venue && is_none (lookup a balances) then rest else (v, a, line) ∷ rest

module _ (price_usd : String → Option Decimal) where
  -- the line that a reported balance leaves
  unfoldable pub refreshed : String → String → String → Balance → InventoryManager → InventoryLine
  refreshed venue kind asset b i =
      let line = or_else (find venue asset i.lines) (new_line venue asset kind) in
      let line' =
        with_targets (find venue asset i.targets)
          (record line { available = b.free; reserved = b.used }) in
      record line' { usd_value = value_at (price_usd asset) b; kind = kind }

  -- one round of the loop of `update_balances`
  unfoldable pub refresh_line :
      String → String → String → Balance → InventoryManager → InventoryManager
  refresh_line venue kind asset b i = record i {
    lines = store venue asset (refreshed venue kind asset b i) i.lines;
  }

  unfoldable pub refresh_lines :
      String → String → Dict Balance → InventoryManager → InventoryManager
  refresh_lines venue kind [] i = i
  refresh_lines venue kind ((asset, b) ∷ bs) i =
      refresh_lines venue kind bs (refresh_line venue kind asset b i)

  unfoldable pub update_balances :
      String → Dict Balance → String → InventoryManager → InventoryManager
  update_balances venue balances kind i =
      let i' = refresh_lines venue kind balances i in
      record i' { lines = drop_unreported venue balances i'.lines }

-- The amounts of one account in one reservation.
unfoldable pub amount_for : String → String → List Need → Decimal
amount_for v a [] = zero_dec
amount_for v a (n ∷ ns) =
    let rest = amount_for v a ns in if n.venue == v && n.asset == a then n.amount +ℤ rest else rest

-- `_reserved_for`
unfoldable pub reserved_for : String → String → InventoryManager → Decimal
reserved_for venue asset i = sum_by (λ _ res. amount_for venue asset res) i.reservations

unfoldable pub available : InventoryManager → String → String → Decimal
available i venue asset = elim (find venue asset i.lines) [
  | none ↦ zero_dec
  | some line ↦ max_ℤ zero_dec (line.available -ℤ reserved_for venue asset i)
]

-- The loop of `reserve`, which raises at the first need that is not available.
unfoldable pub can_reserve : InventoryManager → List Need → Bool
can_reserve i [] = true
can_reserve i (n ∷ ns) = not (ltb_ℤ (available i n.venue n.asset) n.amount) && can_reserve i ns

-- `none` is the exception.
unfoldable pub reserve : String → List Need → InventoryManager → Option InventoryManager
reserve trade_id needs i =
    if can_reserve i needs
    then some (record i { reservations = insert trade_id needs i.reservations })
    else none

unfoldable pub release : String → InventoryManager → InventoryManager
release trade_id i = record i { reservations = erase trade_id i.reservations }

unfoldable pub balances_map : InventoryManager → Accounts Decimal
balances_map i = map (λ e. (e.0, e.1, available i e.0 e.1)) i.lines

-- `total_usd`: the lines with a value
unfoldable pub total_of : Accounts InventoryLine → Decimal
total_of [] = zero_dec
total_of ((_, _, line) ∷ d) = or_else line.usd_value zero_dec +ℤ total_of d

unfoldable pub line_total : InventoryLine → Decimal
line_total l = l.available +ℤ l.reserved +ℤ l.pending

unfoldable pub below_minimum : Accounts InventoryLine → List InventoryLine
below_minimum [] = []
below_minimum ((_, _, l) ∷ d) =
    when (ltb_ℤ zero_dec l.minimum && ltb_ℤ (line_total l) l.minimum) l ++ below_minimum d
