-- ===== src/Inventory/Tests.antt =====
-- The inventory of engine/inventory.py on two venues.
use fedr.Base.{String, ◌≡◌, refl, Option, none, some, List, [], ◌∷◌, arith}
use fedr.Int.{pos, ◌+ℤ◌, ◌-ℤ◌, ◌<ℤ◌}
use fedr.Decimal.{Decimal}
use fedr.Dict.{lookup, insert, sum_by}
use fedr.Inventory.{
  InventoryManager, InventoryLine, Need, find, amount_for, reserved_for, available, can_reserve,
  reserve,
}
use fedr.Inventory.Reservations.{IsCovered, held, reserve-IsCovered, reserve_overcommits}

abbrev line : String → String → Decimal → InventoryLine
line v a x = record {
  venue = v;
  asset = a;
  available = x;
  reserved = pos 0;
  pending = pos 0;
  target = pos 0;
  minimum = pos 0;
  maximum = none;
  usd_value = none;
  kind = "cex";
}

abbrev stock : InventoryManager
stock = record {
  lines =
      ("kraken", "USDC", line "kraken" "USDC" (pos 100))
      ∷ ("base", "ETH", line "base" "ETH" (pos 9))
      ∷ [];
  reservations = [];
  targets = [];
}

abbrev need : String → String → Decimal → Need
need v a x = record { venue = v; asset = a; amount = x }

abbrev both : List Need
both = need "kraken" "USDC" (pos 60) ∷ need "base" "ETH" (pos 5) ∷ []

abbrev booked : InventoryManager
booked = record stock { reservations = ("t1", both) ∷ [] }

reserve-both : reserve "t1" both stock ≡ some booked
unfolding reserve can_reserve available find reserved_for sum_by insert ◌+ℤ◌ ◌-ℤ◌
reserve-both = refl

stock-IsCovered : IsCovered stock
unfolding held reserved_for find sum_by
stock-IsCovered v a = ground arith

reserve-IsCovered_example : IsCovered booked
unfolding lookup amount_for
reserve-IsCovered_example =
    reserve-IsCovered "t1" both stock refl (omega arith, refl, (omega arith, refl, tt))
      stock-IsCovered reserve-both

-- 60 and 60 of the 100 that there are
reserve_overcommits_example :
    (j : InventoryManager) × (reserve "t1"
        (need "kraken" "USDC" (pos 60) ∷ need "kraken" "USDC" (pos 60) ∷ [])
        stock
      ≡ some j)
    × (held j "kraken" "USDC" <ℤ reserved_for "kraken" "USDC" j)
unfolding lookup available find reserved_for sum_by ◌-ℤ◌ ◌+ℤ◌
reserve_overcommits_example =
    reserve_overcommits "t1" "kraken" "USDC" (pos 60) (pos 60) stock refl (omega arith)
      (omega arith) (omega arith) (omega arith)

abbrev no_price : String → Option Decimal
no_price _ = none
