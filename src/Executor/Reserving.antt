-- ===== src/Executor/Reserving.antt =====
-- `_reserve` and `_release_unused` of engine/execution/executor.py.
use fedr.Base.{String, Bool, true, false, Option, none, some, [], ◌∷◌, if◌then◌else◌}
use fedr.Int.{◌+ℤ◌, ◌-ℤ◌, ltb_ℤ, max_ℤ}
use fedr.Decimal.{Decimal, zero_dec}
use fedr.Ledger
use fedr.Ledger.{PaperLedger, Outcome, done, insufficient}
use fedr.Inventory
use fedr.Inventory.{InventoryManager, Need}
use fedr.Models.{TradingMode, simulation, paper, testnet, live}
use fedr.Orders.{OrderResult, quote_amount}
use fedr.Executor.{Engine}

-- `is_simulated_execution` of the mode
abbrev pub is_simulated : TradingMode → Bool
is_simulated simulation = true
is_simulated paper = true
is_simulated testnet = false
is_simulated live = false

abbrev pub mode_of : Engine → TradingMode
mode_of e = e.settings.general.mode

abbrev pub after_sell : Need → PaperLedger × Outcome (Unit {0}) → PaperLedger × Bool
after_sell buy (l, done _) = (l, true)
after_sell buy (l, insufficient) = (Ledger.release buy.venue buy.asset buy.amount l, false)

abbrev pub after_buy : Need → Need → PaperLedger × Outcome (Unit {0}) → PaperLedger × Bool
after_buy buy sell (l, insufficient) = (l, false)
after_buy buy sell (l, done _) = after_sell buy (Ledger.reserve sell.venue sell.asset sell.amount l)

-- Both reservations on the paper ledger; if the second is refused, the first is given back.
unfoldable pub reserve_pair : Need → Need → PaperLedger → PaperLedger × Bool
reserve_pair buy sell l = after_buy buy sell (Ledger.reserve buy.venue buy.asset buy.amount l)

abbrev pub on_ledger : Bool → Need → Need → Option PaperLedger → Option PaperLedger × Bool
on_ledger simulated buy sell none = (none, true)
on_ledger false buy sell (some l) = (some l, true)
on_ledger true buy sell (some l) = let (l', ok) = reserve_pair buy sell l in (some l', ok)

abbrev pub after_inventory : Engine → Need → Need → Option InventoryManager → Engine × Bool
after_inventory e buy sell none = (e, false)
after_inventory e buy sell (some i) =
    let (l, ok) = on_ledger (is_simulated (mode_of e)) buy sell e.ledger in
    (record e { inventory = i; ledger = l }, ok)

-- `_reserve`; the flag is false where it raises
unfoldable pub reserve_legs : String → Need → Need → Engine → Engine × Bool
reserve_legs id buy sell e =
    after_inventory e buy sell (Inventory.reserve id (buy ∷ sell ∷ []) e.inventory)

abbrev pub spent : OrderResult → Decimal
spent r = quote_amount r +ℤ r.fee_quote

-- What is left of the selling leg's reservation: of the quote amount of a short, where there is one,
-- else of the size of the trade.
abbrev pub unused_sale : Option Decimal → Decimal → OrderResult → Decimal
unused_sale (some reserved) size r =
    let used = if ltb_ℤ zero_dec r.filled then quote_amount r else zero_dec in
    max_ℤ zero_dec (reserved -ℤ used)
unused_sale none size r = max_ℤ zero_dec (size -ℤ r.filled)

-- `_release_unused`, on the ledger, with `sell_reserved` and `tr.size_base`
unfoldable pub release_pair :
    Need → Need → Option Decimal → Decimal → OrderResult → OrderResult → PaperLedger → PaperLedger
release_pair buy sell reserved size b s l =
    Ledger.release sell.venue sell.asset (unused_sale reserved size s)
      (Ledger.release buy.venue buy.asset (max_ℤ zero_dec (buy.amount -ℤ spent b)) l)

abbrev pub release_on :
    Bool
    → Need
    → Need
    → Option Decimal
    → Decimal
    → OrderResult
    → OrderResult
    → Option PaperLedger
    → Option PaperLedger
release_on simulated buy sell reserved size b s none = none
release_on false buy sell reserved size b s (some l) = some l
release_on true buy sell reserved size b s (some l) =
    some (release_pair buy sell reserved size b s l)
