-- ===== src/Executor/Finish.antt =====
-- What an execution of engine/execution/executor.py leaves of the engine's state.
use fedr.Base.{
  ◌≡◌, refl, ◌⊎◌, inl, inr, String, Bool, true, false, Option, none, some, List, [], ◌∷◌, arith,
  Bool-cases, ◌∙◌, ◌==◌, eq_refl,
}
use fedr.Dict.{lookup}
use fedr.Inventory
use fedr.Inventory.{InventoryManager, Need}
use fedr.Inventory.Reservations.{release-reserve_new}
use fedr.Orders.{OrderResult, TradeRecord, TradeStatus}
use fedr.Accounting.{TradeOutcome, apply_outcome}
use fedr.Executor.{Engine, Opportunity, Outside, Abort, Ended, traded, aborted}
use fedr.Executor.Settling.{
  count_failure, note_dex_failures, recover, check_variances, check_daily_loss, post_trade,
  as_result,
}
use fedr.Executor.Run.{
  abort, close_legs, legs_done, trade_legs, protected_legs, Plan, begin, finish, discard, add_id,
  after_reserving, execute,
}
use fedr.Executor.Faults.{handled}
use fedr.Executor.Protected.{protected-rule}
use fedr.Executor.Rule.{execute-rule}
use fedr.Executor.Reserving.{reserve_legs, after_inventory}

-- The fields that only `begin` and `finish` write.
abbrev pub SameFrame : Engine → Engine → Type 0
SameFrame e e' =
    (e'.inventory ≡ e.inventory) × (e'.open_trade_ids ≡ e.open_trade_ids) × (e'.active ≡ e.active)

SameFrame-trans : (a b c : Engine) → SameFrame a b → SameFrame b c → SameFrame a c
SameFrame-trans a b c h k = (k.0 ∙ h.0, k.1 ∙ h.1, k.2 ∙ h.2)

close_legs-SameFrame :
    (o : Outside) (pair : String) (b s : OrderResult) (tr : TradeRecord) (e : Engine)
    → SameFrame e (close_legs o pair b s tr e).1
unfolding close_legs recover count_failure
close_legs-SameFrame o pair b s tr e = ground arith

post_trade-SameFrame :
    (o : Outside) (tr : TradeRecord) (out : TradeOutcome) (fresh : Opportunity) (e : Engine)
    → SameFrame e (post_trade o tr out fresh e)
unfolding post_trade check_daily_loss check_variances
post_trade-SameFrame o tr out fresh e = (refl, refl, refl)

pub trade_legs-SameFrame :
    (o : Outside) (opp fresh : Opportunity) (quote : String) (p : Plan) (tr : TradeRecord)
    (e : Engine)
    → SameFrame e (trade_legs o opp fresh quote p tr e).1
unfolding trade_legs legs_done note_dex_failures post_trade check_daily_loss check_variances
trade_legs-SameFrame o opp fresh quote p tr e =
    let g = o.submit p.buy_req p.sell_req fresh e.ledger in
    let b = as_result g.buy p.buy_req in
    let s = as_result g.sell p.sell_req in
    close_legs-SameFrame o opp.pair b s (record tr { buy = some b; sell = some s })
      (legs_done o p tr.size_base b s g.ledger e)

-- The inventory after an abort: as it was, unless the reservation has failed; then it may still hold
-- what was reserved under the id.
abbrev pub IsInventoryLeft : Engine → Engine → String → Abort → Type 0
IsInventoryLeft e e' id Abort.reservation_failed =
    (e'.inventory ≡ e.inventory)
    ⊎ ((needs : List Need) × (Inventory.reserve id needs e.inventory ≡ some e'.inventory))
IsInventoryLeft e e' id _ = e'.inventory ≡ e.inventory

-- What holds of the end of an execution, by how it ends.
abbrev pub IsLeft : Engine → Engine × Ended → Type 0
IsLeft e (e', traded tr) = SameFrame e e'
IsLeft e (e', aborted r tr) =
    (tr.status ≡ TradeStatus.aborted)
    × IsInventoryLeft e e' tr.id r
    × (e'.open_trade_ids ≡ e.open_trade_ids)
    × (e'.active ≡ e.active)
    × (e'.breakers ≡ e.breakers)
    × (e'.daily_pnl_usd ≡ e.daily_pnl_usd)
IsLeft e (e', Ended.raised) = e' ≡ e

-- The id is not in the list.
abbrev pub IsNew : String → List String → Type 0
IsNew id [] = Unit
IsNew id (x ∷ xs) = ((x == id) ≡ false) × IsNew id xs

discard-new : (id : String) (xs : List String) → IsNew id xs → discard id xs ≡ xs
discard-new id [] h = refl
discard-new id (x ∷ xs) h = rw (h.0, discard-new id xs h.1) refl

discard-add_id : (id : String) (xs : List String) → IsNew id xs → discard id (add_id id xs) ≡ xs
discard-add_id id xs h = rw (eq_refl id, discard-new id xs h, discard-new id xs h) refl

reserve_legs-frame :
    (id : String) (b s : Need) (e : Engine) (i : Option InventoryManager)
    → let e' = (after_inventory e b s i).0 in
      (e'.open_trade_ids ≡ e.open_trade_ids)
      × (e'.active ≡ e.active)
      × (e'.breakers ≡ e.breakers)
      × (e'.daily_pnl_usd ≡ e.daily_pnl_usd)
reserve_legs-frame id b s e none = (refl, refl, refl, refl)
reserve_legs-frame id b s e (some i) = (refl, refl, refl, refl)

reserved-inventory :
    (id : String) (b s : Need) (e : Engine)
    → lookup id e.inventory.reservations ≡ none
    → (reserve_legs id b s e).1 ≡ true
    → Inventory.release id (reserve_legs id b s e).0.inventory ≡ e.inventory
unfolding reserve_legs
reserved-inventory id b s e h = by_result (Inventory.reserve id (b ∷ s ∷ []) e.inventory) refl
  where
    by_result :
        (i : Option InventoryManager)
        → Inventory.reserve id (b ∷ s ∷ []) e.inventory ≡ i
        → (after_inventory e b s i).1 ≡ true
        → Inventory.release id (after_inventory e b s i).0.inventory ≡ e.inventory
    by_result none q t = ground arith
    by_result (some j) q t = release-reserve_new id (b ∷ s ∷ []) e.inventory h q

-- Neither the branches on the fills nor the accounting change the id.
close_legs-id :
    (o : Outside) (pair : String) (b s : OrderResult) (tr : TradeRecord) (e : Engine)
    → (close_legs o pair b s tr e).0.id ≡ tr.id
unfolding close_legs recover
close_legs-id o pair b s tr e = ground arith

trade_legs-id :
    (o : Outside) (opp fresh : Opportunity) (quote : String) (p : Plan) (tr : TradeRecord)
    (e : Engine)
    → (trade_legs o opp fresh quote p tr e).0.id ≡ tr.id
unfolding trade_legs close_legs recover apply_outcome
trade_legs-id o opp fresh quote p tr e = ground arith

-- What the exits of the `try` keep: the id and the frame.
abbrev KeepsFrame : String → Engine → TradeRecord × Engine → Type 0
KeepsFrame id e (tr, e') = (tr.id ≡ id) × SameFrame e e'

handled-KeepsFrame :
    (o : Outside) (id : String) (tr : TradeRecord) (e e' : Engine)
    → KeepsFrame id e (tr, e')
    → KeepsFrame id e (handled o tr e')
unfolding handled
handled-KeepsFrame o id tr e e' h = h

protected_legs-KeepsFrame :
    (o : Outside) (opp fresh : Opportunity) (quote : String) (p : Plan) (tr : TradeRecord)
    (e : Engine)
    → KeepsFrame tr.id e (protected_legs o opp fresh quote p tr e)
unfolding legs_done note_dex_failures
protected_legs-KeepsFrame o opp fresh quote p tr e =
    let g = o.submit p.buy_req p.sell_req fresh e.ledger in
    let b = as_result g.buy p.buy_req in
    let s = as_result g.sell p.sell_req in
    let tr1 = record tr { buy = some b; sell = some s } in
    let e1 = legs_done o p tr.size_base b s g.ledger e in
    let keep = handled-KeepsFrame o tr.id in
    let t = trade_legs-SameFrame o opp fresh quote p tr e in
    let i = trade_legs-id o opp fresh quote p tr e in
    protected-rule o (KeepsFrame tr.id e) opp fresh quote p tr e
      (λ r. keep _ e _ (refl, (refl, refl, refl))) (λ r. keep _ e _ (refl, (refl, refl, refl)))
      (λ r. keep _ e _ (refl, (refl, refl, refl)))
      (λ r.
        keep _ e _
          (close_legs-id o opp.pair b s tr1 e1, close_legs-SameFrame o opp.pair b s tr1 e1))
      (λ r. keep _ e _ (i, t)) (i, t)

finish-IsLeft :
    (tr : TradeRecord) (e e1 e2 : Engine)
    → IsNew tr.id e.open_trade_ids
    → IsNew tr.id e.active
    → (e1.open_trade_ids ≡ e.open_trade_ids) × (e1.active ≡ e.active)
    → Inventory.release tr.id e1.inventory ≡ e.inventory
    → SameFrame (begin tr e1) e2
    → SameFrame e (finish tr e2)
unfolding finish begin
finish-IsLeft tr e e1 e2 n a k i f = (
  rw f.0 i,
  rw (f.1, k.0) (discard-add_id tr.id e.open_trade_ids n),
  rw (f.2, k.1) (discard-add_id tr.id e.active a),
)

-- `finish` reads the id of the record that the trade has left, which is the one it began with.
finish-left :
    (tr' tr : TradeRecord) (e e1 e2 : Engine)
    → tr'.id ≡ tr.id
    → IsNew tr.id e.open_trade_ids
    → IsNew tr.id e.active
    → (e1.open_trade_ids ≡ e.open_trade_ids) × (e1.active ≡ e.active)
    → Inventory.release tr.id e1.inventory ≡ e.inventory
    → SameFrame (begin tr e1) e2
    → SameFrame e (finish tr' e2)
unfolding finish
finish-left tr' tr e e1 e2 id n a k i f =
    simp id (unfold finish in finish-IsLeft tr e e1 e2 n a k i f)

pub reserve_legs-kept :
    (id : String) (b s : Need) (e : Engine)
    → let e' = (reserve_legs id b s e).0 in
      (e'.open_trade_ids ≡ e.open_trade_ids)
      × (e'.active ≡ e.active)
      × (e'.breakers ≡ e.breakers)
      × (e'.daily_pnl_usd ≡ e.daily_pnl_usd)
unfolding reserve_legs
reserve_legs-kept id b s e =
    reserve_legs-frame id b s e (Inventory.reserve id (b ∷ s ∷ []) e.inventory)

-- `_abort` itself leaves the inventory as it was.
abort-IsInventoryLeft :
    (r : Abort) (tr : TradeRecord) (e : Engine) → IsInventoryLeft e (abort r tr e).0 tr.id r
unfolding abort
abort-IsInventoryLeft Abort.reservation_failed tr e = inl refl
abort-IsInventoryLeft Abort.emergency_stop tr e = refl
abort-IsInventoryLeft Abort.live_not_activated tr e = refl
abort-IsInventoryLeft Abort.not_enabled tr e = refl
abort-IsInventoryLeft Abort.shadow_mode tr e = refl
abort-IsInventoryLeft Abort.too_many_trades tr e = refl
abort-IsInventoryLeft Abort.breaker_active tr e = refl
abort-IsInventoryLeft Abort.flash_loan tr e = refl
abort-IsInventoryLeft Abort.carry_not_allowed tr e = refl
abort-IsInventoryLeft Abort.no_candidate tr e = refl
abort-IsInventoryLeft Abort.no_quote tr e = refl
abort-IsInventoryLeft Abort.not_safe tr e = refl

refused-inventory :
    (id : String) (b s : Need) (e : Engine)
    → IsInventoryLeft e (reserve_legs id b s e).0 id Abort.reservation_failed
unfolding reserve_legs
refused-inventory id b s e = by_result (Inventory.reserve id (b ∷ s ∷ []) e.inventory) refl
  where
    by_result :
        (i : Option InventoryManager)
        → Inventory.reserve id (b ∷ s ∷ []) e.inventory ≡ i
        → IsInventoryLeft e (after_inventory e b s i).0 id Abort.reservation_failed
    by_result none q = inl refl
    by_result (some j) q = inr (b ∷ s ∷ [], q)

after_reserving-IsLeft :
    (o : Outside) (opp fresh : Opportunity) (quote : String) (p : Plan) (tr : TradeRecord)
    (e : Engine)
    → IsNew tr.id e.open_trade_ids
    → IsNew tr.id e.active
    → lookup tr.id e.inventory.reservations ≡ none
    → IsLeft e
        (after_reserving o opp fresh quote p tr (reserve_legs tr.id p.buy_need p.sell_need e))
unfolding abort
after_reserving-IsLeft o opp fresh quote p tr e n a h =
    let r = reserve_legs tr.id p.buy_need p.sell_need e in
    let k = reserve_legs-kept tr.id p.buy_need p.sell_need e in
    elim (Bool-cases r.1) [
      | inr x ↦ rw x (refl, refused-inventory tr.id p.buy_need p.sell_need e, k.0, k.1, k.2, k.3)
      | inl x ↦
          let tr1 = record tr { status = TradeStatus.executing } in
          let i = reserved-inventory tr.id p.buy_need p.sell_need e h x in
          let (id, f) = protected_legs-KeepsFrame o opp fresh quote p tr1 (begin tr r.0) in
          rw x (
            finish-left (protected_legs o opp fresh quote p tr1 (begin tr r.0)).0 tr e r.0 _ id n a
              (k.0, k.1) i f)
    ]

-- The id of a new trade is in none of the collections that are keyed by ids.
pub record IsNewId (id : String) (e : Engine) : Type 0 where
  pub not_open : IsNew id e.open_trade_ids
  pub not_active : IsNew id e.active
  pub not_reserved : lookup id e.inventory.reservations ≡ none

-- With a new id, an execution that trades, also one that ends by the handler of exceptions, leaves no
-- trace of the trade in the inventory, the open trades and the active trades: they are as before. One
-- that is aborted leaves the open and the active trades, the breakers and the daily profit as they
-- were, and the inventory too, except that after a reservation that fails the inventory may be the one
-- that still holds it under the id. One that raises changes nothing.
pub execute-IsLeft :
    (o : Outside) (opp : Opportunity) (allow_carry : Bool) (e : Engine)
    → IsNewId o.new_id e
    → IsLeft e (execute o opp allow_carry e)
unfolding abort
execute-IsLeft o opp allow_carry e h =
    execute-rule o opp e (IsLeft e)
      (λ r tr u. (refl, abort-IsInventoryLeft r tr e, refl, refl, refl, refl)) refl
      (λ fresh quote p tr u.
        let n : IsNew tr.id e.open_trade_ids = rw u.0 h.not_open in
        let a : IsNew tr.id e.active = rw u.0 h.not_active in
        let k : lookup tr.id e.inventory.reservations ≡ none = rw u.0 h.not_reserved in
        after_reserving-IsLeft o opp fresh quote p tr e n a k)
      allow_carry
