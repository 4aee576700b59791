-- ===== src/Executor/Conservation.antt =====
-- What the reservations and the releases of engine/execution/executor.py leave of the paper balances.
use fedr.Base.{
  String, Bool, true, false, Option, none, some, List, [], ◌∷◌, ◌≡◌, refl, arith, eq_refl, ◌∙◌,
  Bool-cases, ◌⊎◌, inl, inr,
}
use mathlib.Core.Path.{subst}
use fedr.Int.{pos, ◌-ℤ◌, ◌≤ℤ◌, max_ℤ}
use fedr.Decimal.{zero_dec}
use fedr.Ledger.{PaperLedger, get}
use fedr.Inventory
use fedr.Inventory.{Need, InventoryManager, can_reserve}
use fedr.Dict.{IfSome, lookup, lookup-insert}
use fedr.Orders.{OrderResult}
use fedr.Executor.{Engine, Opportunity, Connector}
use fedr.Executor.Run.{plan, is_perp}
use fedr.Executor.Reserving.{
  reserve_legs, after_inventory, on_ledger, is_simulated, mode_of, reserve_pair, release_pair,
  spent, unused_sale,
}
use fedr.Executor.Aside.{SameBalances, Spends, released-used, reserve_pair-refused, used_by}

-- What `_release_unused` computes for the sale of a plan is what is left of its reservation, if for a
-- sale of coins the size of the trade is the amount that was reserved.
plan-unused_sale :
    (e : Engine) (opp fresh : Opportunity) (base quote : String) (cb cs : Connector)
    (s : OrderResult)
    → let p = plan e opp fresh base quote cb cs in
      (p.perp_short ≡ false → opp.size_base ≡ fresh.sell.base_amount)
      → unused_sale p.sell_reserved opp.size_base s
        ≡ max_ℤ zero_dec (p.sell_need.amount -ℤ used_by p.perp_short s)
unfolding plan
plan-unused_sale e opp fresh base quote cb cs s h = elim (Bool-cases (is_perp fresh.sell.kind)) [
  | inl x ↦ rw x refl
  | inr x ↦ rw (x, h x) refl
]

-- Where no reserved amount is negative and the reservation of both legs of a plan is granted: once the
-- legs have spent no more than was set aside for each, and from that, the release leaves nothing set
-- aside. In every account the reserved amount is what it was before the reservation. For a sale that is
-- no perpetual short it is assumed that the fresh quote is for the size of the trade, which is the size
-- of the opportunity.
pub release_pair-reserve_pair :
    (e : Engine) (opp fresh : Opportunity) (base quote : String) (cb cs : Connector)
    (b s : OrderResult) (l l' : PaperLedger)
    → let p = plan e opp fresh base quote cb cs in
      ((v a : String) → pos 0 ≤ℤ (get l v a).used)
      → (reserve_pair p.buy_need p.sell_need l).1 ≡ true
      → Spends p.perp_short p.buy_need p.sell_need b s (reserve_pair p.buy_need p.sell_need l).0 l'
      → spent b ≤ℤ p.buy_need.amount
      → used_by p.perp_short s ≤ℤ p.sell_need.amount
      → (p.perp_short ≡ false → opp.size_base ≡ fresh.sell.base_amount)
      → (v a : String)
      → (get (release_pair p.buy_need p.sell_need p.sell_reserved opp.size_base b s l') v a).used
        ≡ (get l v a).used
unfolding release_pair
release_pair-reserve_pair e opp fresh base quote cb cs b s l l' nonneg k sp b1 s1 same v a =
    let p = plan e opp fresh base quote cb cs in
    rw (plan-unused_sale e opp fresh base quote cb cs s same)
      (released-used p.perp_short p.buy_need p.sell_need b s l l' nonneg k sp b1 s1 v a)

IfSome-reserve :
    (id : String) (needs : List Need) (i : InventoryManager)
    → IfSome (λ j. lookup id j.reservations ≡ some needs) (Inventory.reserve id needs i)
unfolding Inventory.reserve
IfSome-reserve id needs i = elim (Bool-cases (can_reserve i needs)) [
  | inl x ↦ rw x (lookup-insert id id needs i.reservations ∙ rw (eq_refl id) refl)
  | inr x ↦ rw x tt
]

reserve-lookup :
    (id : String) (needs : List Need) (i : InventoryManager) {j : InventoryManager}
    → Inventory.reserve id needs i ≡ some j
    → lookup id j.reservations ≡ some needs
reserve-lookup id needs i q =
    subst (IfSome (λ j. lookup id j.reservations ≡ some needs)) q (IfSome-reserve id needs i)

abbrev pub SameFunds : Option PaperLedger → Option PaperLedger → Type 0
SameFunds none none = Unit
SameFunds (some l) (some l') = SameBalances l l'
SameFunds _ _ = ⊥

on_ledger-refused :
    (simulated : Bool) (buy sell : Need) (l : Option PaperLedger)
    → ((k : PaperLedger) → l ≡ some k → pos 0 ≤ℤ (get k buy.venue buy.asset).used)
    → (on_ledger simulated buy sell l).1 ≡ false
    → SameFunds l (on_ledger simulated buy sell l).0
on_ledger-refused simulated buy sell none h k = ground arith
on_ledger-refused false buy sell (some l) h k = ground arith
on_ledger-refused true buy sell (some l) h k = reserve_pair-refused buy sell l (h l refl) k

SameFunds-refl : (l : Option PaperLedger) → SameFunds l l
SameFunds-refl none = tt
SameFunds-refl (some l) = λ v a. refl

after_inventory-refused :
    (id : String) (buy sell : Need) (e : Engine) (i : Option InventoryManager)
    → Inventory.reserve id (buy ∷ sell ∷ []) e.inventory ≡ i
    → ((k : PaperLedger) → e.ledger ≡ some k → pos 0 ≤ℤ (get k buy.venue buy.asset).used)
    → (after_inventory e buy sell i).1 ≡ false
    → let e' = (after_inventory e buy sell i).0 in
      SameFunds e.ledger e'.ledger
      × ((e' ≡ e) ⊎ (lookup id e'.inventory.reservations ≡ some (buy ∷ sell ∷ [])))
after_inventory-refused id buy sell e none q h k = (SameFunds-refl e.ledger, inl refl)
after_inventory-refused id buy sell e (some i) q h k = (
  on_ledger-refused (is_simulated (mode_of e)) buy sell e.ledger h k,
  inr (reserve-lookup id (buy ∷ sell ∷ []) e.inventory q),
)

-- When the reservation of an execution is refused, and the reserved amount of the account that
-- buys was not negative, no paper balance has moved; and either nothing at all has changed, or
-- the inventory still holds the reservation under the id of the trade.
pub reserve_legs-refused :
    (id : String) (buy sell : Need) (e : Engine)
    → ((k : PaperLedger) → e.ledger ≡ some k → pos 0 ≤ℤ (get k buy.venue buy.asset).used)
    → (reserve_legs id buy sell e).1 ≡ false
    → let e' = (reserve_legs id buy sell e).0 in
      SameFunds e.ledger e'.ledger
      × ((e' ≡ e) ⊎ (lookup id e'.inventory.reservations ≡ some (buy ∷ sell ∷ [])))
unfolding reserve_legs
reserve_legs-refused id buy sell e h k = after_inventory-refused id buy sell e _ refl h k
