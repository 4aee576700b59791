-- ===== src/Inventory/Refresh.antt =====
-- `update_balances` of engine/inventory.py.
use fedr.Base.{
  String, ◌≡◌, refl, not, ◌&&◌, Option, none, some, [], ◌∷◌, arith, ◌==◌, eq_iff, if◌then◌else◌,
  is_none,
}
use fedr.Decimal.{Decimal}
use fedr.Dict.{Dict, lookup, HasUniqueKeys}
use fedr.Ledger.{Balance}
use fedr.Inventory.{
  InventoryManager, InventoryLine, Accounts, find, store, refreshed, refresh_line, refresh_lines,
  drop_unreported, update_balances,
}

module _ {ℓ} {V : Type ℓ} where
  pub find-store :
      (v a : String) (x : V) (d : Accounts V) (w b : String)
      → find w b (store v a x d) ≡ (if v == w && a == b then some x else find w b d)
  unfolding find store
  find-store v a x [] w b = refl
  find-store v a x ((u, c, y) ∷ d) w b = ground (
    arith,
    eq_iff u v,
    eq_iff c a,
    eq_iff v w,
    eq_iff a b,
    eq_iff u w,
    eq_iff c b,
    find-store v a x d w b,
  )

find-drop_unreported :
    (venue : String) (bs : Dict Balance) (d : Accounts InventoryLine) (w b : String)
    → find w b (drop_unreported venue bs d)
      ≡ (if w == venue && is_none (lookup b bs) then none else find w b d)
unfolding find drop_unreported
find-drop_unreported venue bs [] w b = ground arith
find-drop_unreported venue bs ((u, c, y) ∷ d) w b = ground (
  arith,
  eq_iff u venue,
  eq_iff u w,
  eq_iff c b,
  eq_iff w venue,
  find-drop_unreported venue bs d w b,
)

-- The amounts that a line reports: what is available and what the venue holds back.
abbrev pub reported : Option InventoryLine → Option (Decimal × Decimal)
reported none = none
reported (some line) = some (line.available, line.reserved)

abbrev pub amounts : Option Balance → Option (Decimal × Decimal)
amounts none = none
amounts (some b) = some (b.free, b.used)

module _ (price_usd : String → Option Decimal) where
  reported-refreshed :
      (venue kind asset : String) (x : Balance) (i : InventoryManager)
      → reported (some (refreshed price_usd venue kind asset x i)) ≡ some (x.free, x.used)
  unfolding refreshed
  reported-refreshed venue kind asset x i = ground arith

  reported-refresh_line :
      (venue kind asset : String) (x : Balance) (i : InventoryManager) (w b : String)
      → reported (find w b (refresh_line price_usd venue kind asset x i).lines)
        ≡ (if venue == w && asset == b then some (x.free, x.used) else reported (find w b i.lines))
  unfolding refresh_line
  reported-refresh_line venue kind asset x i w b =
      rw (find-store venue asset (refreshed price_usd venue kind asset x i) i.lines w b)
        (ground (arith, reported-refreshed venue kind asset x i))

  reported-refresh_lines :
      (venue kind : String) (bs : Dict Balance) (i : InventoryManager) (w b : String)
      → HasUniqueKeys bs
      → reported (find w b (refresh_lines price_usd venue kind bs i).lines) ≡ (
          if venue == w && not (is_none (lookup b bs))
          then amounts (lookup b bs)
          else reported (find w b i.lines))
  unfolding refresh_lines lookup
  reported-refresh_lines venue kind [] i w b h = ground arith
  reported-refresh_lines venue kind ((asset, x) ∷ bs) i w b h = ground (
    arith,
    eq_iff asset b,
    eq_iff venue w,
    reported-refresh_line venue kind asset x i w b,
    reported-refresh_lines venue kind bs (refresh_line price_usd venue kind asset x i) w b h.1,
  )

  -- After an update each line of the venue shows what was reported of its asset, an asset that was
  -- not reported has no line there, and the other venues' lines show what they did.
  pub update_balances-find :
      (venue : String) (bs : Dict Balance) (kind : String) (i : InventoryManager) (w b : String)
      → HasUniqueKeys bs
      → reported (find w b (update_balances price_usd venue bs kind i).lines)
        ≡ (if venue == w then amounts (lookup b bs) else reported (find w b i.lines))
  unfolding update_balances
  update_balances-find venue bs kind i w b h =
      rw (find-drop_unreported venue bs (refresh_lines price_usd venue kind bs i).lines w b) (
        ground
          (arith, eq_iff venue w, eq_iff w venue, reported-refresh_lines venue kind bs i w b h))
