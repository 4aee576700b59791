-- ===== src/Positions/Outcomes.antt =====
-- How `close` of engine/positions.py ends.
use fedr.Base.{
  ℕ, String, ◌≡◌, refl, ap, ◌∙◌, Bool, true, false, ◌&&◌, Option, none, some, [], ◌∷◌, arith,
  Bool-cases, Option-cases, inl, inr, eq_refl, ◌==◌,
}
use fedr.Decimal.{Decimal, zero_dec}
use fedr.Dict.{
  lookup, HasUniqueKeys, insert-HasUniqueKeys, lookup-insert_self, lookup-erase, erase-absent,
}
use Prim.Native.String.{◌++◌ as append}
use fedr.Breakers.{has_scope, CircuitBreakerManager, is_tripped, trip, position_discrepancy}
use fedr.Breakers.Active.{IsConsistent, opt_scope, trip-has_scope, trip-is_tripped}
use fedr.Ledger.{PaperLedger, Outcome, done, insufficient}
use fedr.Inventory
use fedr.Inventory.{InventoryManager, Need}
use fedr.Inventory.Reservations.{release-reserve_new}
use fedr.Models.{
  ExecutionQuote, Strategy, strategy_value, cex_cex, cex_dex, dex_dex, spot_perp, basis, flash_loan,
}
use fedr.Orders.{OrderRequest, OrderResult, TradeRecord, TradeStatus, Venue, split_pair}
use fedr.Executor.{Engine}
use fedr.Executor.Reserving.{mode_of, is_simulated}
use fedr.Positions.{
  ExitReason, Position, PositionManager, open_position, closing, Market, put, drop,
}
use fedr.Positions.Closing.{
  CloseEnd, not_closed, submitted, raised, with_status, close_id, close_need, close_filled,
  close_incomplete, give_up, leg_ok, closed_position, settled_trade, release_close_reservation,
  close_tolerance, buy_request, sell_request, close_trade,
}
use fedr.Positions.Close.{
  close_done, after_buy, after_sell, close_legs, reserve_paper, after_paper, close_reserved,
  close_at, close, try_reserve,
}

release_absent :
    (k : String) (i : InventoryManager) → lookup k i.reservations ≡ none → Inventory.release k i ≡ i
unfolding Inventory.release
release_absent k i h = ap (λ d. record i { reservations = d }) (erase-absent k i.reservations h)

-- A reservation of the inventory that is tried and given back leaves the inventory as it was.
release-try_reserve :
    (p : Position) (n : Need) (i : InventoryManager)
    → lookup (close_id p) i.reservations ≡ none
    → Inventory.release (close_id p) (try_reserve p n i) ≡ i
release-try_reserve p n i h = elim (Option-cases (Inventory.reserve (close_id p) (n ∷ []) i)) [
  | inl e ↦ rw e (release_absent (close_id p) i h)
  | inr (j, e) ↦ rw e (release-reserve_new (close_id p) (n ∷ []) i h e)
]

-- What the breaker of an incomplete close does: "strategy:carry" is tripped, but for no strategy has its
-- scope, which is what the router asks `blocks` for, become tripped, nor has the global one.
pub record IsCarryTripped (b b' : CircuitBreakerManager) : Type 0 where
  pub tripped : is_tripped b' "strategy:carry" ≡ true
  pub unheeded :
      (s : Strategy)
      → opt_scope "strategy:" (some (strategy_value s)) b'.active
        ≡ opt_scope "strategy:" (some (strategy_value s)) b.active
  pub not_global : has_scope "global" b'.active ≡ has_scope "global" b.active

-- What a close that submitted its legs leaves, of the position and of the breakers `b` before it.
pub data IsSettled (p : Position) (b : CircuitBreakerManager) (m : PositionManager)
    (tr : TradeRecord) : Type 0 where
  both_closed :
      tr.status ≡ TradeStatus.filled → lookup p.id m.open_positions ≡ none → IsSettled p b m tr
  none_closed :
      tr.status ≡ TradeStatus.failed
      → lookup p.id m.open_positions ≡ some (with_status open_position p)
      → IsCarryTripped b m.engine.breakers
      → IsSettled p b m tr
  one_closed :
      tr.status ≡ TradeStatus.recovering
      → lookup p.id m.open_positions ≡ some (with_status closing p)
      → IsCarryTripped b m.engine.breakers
      → IsSettled p b m tr

-- What holds after a close, by how it ends, of the position and of the inventory and the breakers before
-- it.
abbrev pub IsCloseOf :
    Position → InventoryManager → CircuitBreakerManager → PositionManager × CloseEnd → Type 0
IsCloseOf p i b (m, not_closed) =
    (lookup p.id m.open_positions ≡ some (with_status open_position p)) × (m.engine.inventory ≡ i)
IsCloseOf p i b (m, submitted tr) = IsSettled p b m tr × (m.engine.inventory ≡ i)
IsCloseOf p i b (m, raised) = lookup p.id m.open_positions ≡ some (with_status closing p)

-- The state in which the legs are submitted: the position is closing.
record IsClosing (p : Position) (b : CircuitBreakerManager) (m : PositionManager) : Type 0 where
  pub held : lookup p.id m.open_positions ≡ some (with_status closing p)
  pub unique : HasUniqueKeys m.open_positions
  pub consistent : IsConsistent b
  pub same : m.engine.breakers ≡ b

carry_not_strategy :
    (s : Strategy) → ("strategy:carry" == append "strategy:" (strategy_value s)) ≡ false
unfolding strategy_value
carry_not_strategy cex_cex = refl
carry_not_strategy cex_dex = refl
carry_not_strategy dex_dex = refl
carry_not_strategy spot_perp = refl
carry_not_strategy Strategy.funding = refl
carry_not_strategy basis = refl
carry_not_strategy flash_loan = refl

trip-IsCarryTripped :
    (now : ℕ) (b br : CircuitBreakerManager)
    → IsConsistent br
    → b ≡ br
    → IsCarryTripped br
        (trip position_discrepancy "carry close incomplete" now "strategy:carry" true b).0
unfolding opt_scope
trip-IsCarryTripped now b br h e =
    let d : String = "carry close incomplete" in
    let scope =
      λ (s : String). trip-has_scope position_discrepancy d now "strategy:carry" true br s h.0 in
    rw e (record {
      tripped =
          trip-is_tripped position_discrepancy d now "strategy:carry" true br "strategy:carry" h;
      unheeded = λ s. rw (scope (append "strategy:" (strategy_value s)), carry_not_strategy s) refl;
      not_global = scope "global";
    })

module _ (o : Market) (reason : ExitReason) (p : Position) (i : InventoryManager)
    (br : CircuitBreakerManager) where
  give_up-IsCloseOf :
      (e : Engine) (m : PositionManager)
      → e.inventory ≡ i
      → IsCloseOf p i br (give_up (with_status closing p) e m)
  unfolding put
  give_up-IsCloseOf e m h =
      (lookup-insert_self p.id (with_status open_position p) m.open_positions, h)

  close_filled-IsCloseOf :
      (fees : Decimal) (a b : Option Decimal) (tr : TradeRecord) (m : PositionManager)
      → IsClosing p br m
      → m.engine.inventory ≡ i
      → IsCloseOf p i br (close_filled reason (with_status closing p) fees a b tr m)
  unfolding drop settled_trade closed_position
  close_filled-IsCloseOf fees none b tr m c e = c.held
  close_filled-IsCloseOf fees (some a) none tr m c e = c.held
  close_filled-IsCloseOf fees (some a) (some b) tr m c e = (
    both_closed refl (lookup-erase p.id p.id m.open_positions c.unique ∙ rw (eq_refl p.id) refl),
    e,
  )

  close_incomplete-IsCloseOf :
      (a b : Bool) (tr : TradeRecord) (m : PositionManager)
      → (a && b) ≡ false
      → IsClosing p br m
      → m.engine.inventory ≡ i
      → IsCloseOf p i br (close_incomplete o (with_status closing p) a b tr m)
  unfolding close_incomplete put
  close_incomplete-IsCloseOf true true tr m ne c e = ground arith
  close_incomplete-IsCloseOf false false tr m ne c e = (
    none_closed refl (lookup-insert_self p.id _ m.open_positions)
        (trip-IsCarryTripped o.now_ms m.engine.breakers br c.consistent c.same),
    e,
  )
  close_incomplete-IsCloseOf false true tr m ne c e = (
    one_closed refl (lookup-insert_self p.id _ m.open_positions)
        (trip-IsCarryTripped o.now_ms m.engine.breakers br c.consistent c.same),
    e,
  )
  close_incomplete-IsCloseOf true false tr m ne c e = (
    one_closed refl (lookup-insert_self p.id _ m.open_positions)
        (trip-IsCarryTripped o.now_ms m.engine.breakers br c.consistent c.same),
    e,
  )

  close_done-IsCloseOf :
      (sell buy : OrderResult) (tr : TradeRecord) (m : PositionManager)
      → IsClosing p br m
      → m.engine.inventory ≡ i
      → IsCloseOf p i br (close_done o reason (with_status closing p) sell buy tr m)
  unfolding close_done
  close_done-IsCloseOf sell buy tr m c e = elim (Bool-cases (leg_ok p sell && leg_ok p buy)) [
    | inl x ↦ rw x (close_filled-IsCloseOf _ sell.avg_price buy.avg_price _ m c e)
    | inr x ↦ rw x (close_incomplete-IsCloseOf _ _ _ m x c e)
  ]

  after_buy-IsCloseOf :
      (n : Need) (sell : OrderResult) (tr : TradeRecord) (m : PositionManager)
      (r : Option PaperLedger × Option OrderResult)
      → IsClosing p br m
      → Inventory.release (close_id p) m.engine.inventory ≡ i
      → IsCloseOf p i br (after_buy o reason (with_status closing p) n sell tr m r)
  unfolding release_close_reservation
  after_buy-IsCloseOf n sell tr m (l, none) c e = c.held
  after_buy-IsCloseOf n sell tr m (l, some buy) c e =
      close_done-IsCloseOf sell buy tr _
        (record { held = c.held; unique = c.unique; consistent = c.consistent; same = c.same }) e

  after_sell-IsCloseOf :
      (n : Need) (req : OrderRequest) (q : ExecutionQuote) (tr : TradeRecord) (m : PositionManager)
      (r : Option PaperLedger × Option OrderResult)
      → IsClosing p br m
      → Inventory.release (close_id p) m.engine.inventory ≡ i
      → IsCloseOf p i br (after_sell o reason (with_status closing p) n req q tr m r)
  after_sell-IsCloseOf n req q tr m (l, none) c e = c.held
  after_sell-IsCloseOf n req q tr m (l, some sell) c e =
      after_buy-IsCloseOf n sell tr m (o.submit req q l) c e

  close_legs-IsCloseOf :
      (spot perp : Venue) (n : Need) (q : Option (ExecutionQuote × ExecutionQuote))
      (m : PositionManager)
      → IsClosing p br m
      → Inventory.release (close_id p) m.engine.inventory ≡ i
      → IsCloseOf p i br (close_legs o reason (with_status closing p) spot perp n q m)
  unfolding release_close_reservation
  close_legs-IsCloseOf spot perp n none m c e =
      give_up-IsCloseOf (release_close_reservation (with_status closing p) n zero_dec m.engine) m e
  close_legs-IsCloseOf spot perp n (some (a, b)) m c e =
      let p' = with_status closing p in
      let tol = close_tolerance m.engine.settings.trading.leg_price_tolerance_pct in
      after_sell-IsCloseOf n (buy_request p' perp b tol) b (close_trade o p' m.engine) m
        (o.submit (sell_request p' spot a tol) a m.engine.ledger) c e

  after_paper-IsCloseOf :
      (spot perp : Venue) (n : Need) (m : PositionManager)
      (r : Option PaperLedger × Outcome (Unit {0}))
      → IsClosing p br m
      → Inventory.release (close_id p) m.engine.inventory ≡ i
      → IsCloseOf p i br (after_paper o reason (with_status closing p) spot perp n m r)
  after_paper-IsCloseOf spot perp n m (l, insufficient) c e =
      give_up-IsCloseOf
        (record m.engine {
          ledger = l;
          inventory = Inventory.release (close_id p) m.engine.inventory;
        })
        m e
  after_paper-IsCloseOf spot perp n m (l, done _) c e =
      close_legs-IsCloseOf spot perp n (o.close_quotes (with_status closing p)) _
        (record { held = c.held; unique = c.unique; consistent = c.consistent; same = c.same }) e

  close_at-IsCloseOf :
      (a b : Option Venue) (pair : Option (String × String)) (m : PositionManager)
      → IsClosing p br m
      → lookup (close_id p) m.engine.inventory.reservations ≡ none
      → m.engine.inventory ≡ i
      → IsCloseOf p i br (close_at o reason (with_status closing p) a b pair m)
  unfolding close_reserved
  close_at-IsCloseOf none b pair m c h e = give_up-IsCloseOf m.engine m e
  close_at-IsCloseOf (some a) none pair m c h e = give_up-IsCloseOf m.engine m e
  close_at-IsCloseOf (some a) (some b) none m c h e = c.held
  close_at-IsCloseOf (some a) (some b) (some (base, quote)) m c h e =
      let n = close_need p a base in
      let e1 = record m.engine { inventory = try_reserve p n m.engine.inventory } in
      after_paper-IsCloseOf a b n (record m { engine = e1 })
        (reserve_paper (is_simulated (mode_of m.engine)) n m.engine.ledger)
        (record { held = c.held; unique = c.unique; consistent = c.consistent; same = c.same })
        (release-try_reserve p n m.engine.inventory h ∙ e)

-- Where the ids of the positions are unique, the keys of the breakers are consistent, and nothing is
-- reserved for the close yet: a close that gives up leaves the position open, and one that raises leaves
-- it closing. One that submits its legs removes the position if both have closed; else it leaves it
-- open if neither has, and closing if one has, and trips the scope "strategy:carry". This is the scope of
-- no strategy: for every strategy its own scope is tripped just if it was before, and the global scope
-- too. Unless the close raises, its reservation of the inventory is gone.
pub close-IsCloseOf :
    (o : Market) (p : Position) (reason : ExitReason) (m : PositionManager)
    → HasUniqueKeys m.open_positions
    → IsConsistent m.engine.breakers
    → lookup (close_id p) m.engine.inventory.reservations ≡ none
    → IsCloseOf p m.engine.inventory m.engine.breakers (close o p reason m)
unfolding close put
close-IsCloseOf o p reason m u c h =
    let p' = with_status closing p in
    close_at-IsCloseOf o reason p m.engine.inventory m.engine.breakers (o.connectors p.spot_venue)
      (o.connectors p.perp_venue) (split_pair p.pair) (put p' m)
      (record {
        held = lookup-insert_self p.id p' m.open_positions;
        unique = insert-HasUniqueKeys p.id p' m.open_positions u;
        consistent = c;
        same = refl;
      })
      h refl
