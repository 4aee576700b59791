-- ===== src/Inventory/Reservations.antt =====
-- `reserve` and `release` of engine/inventory.py.
use fedr.Base.{
  String, ◌≡◌, refl, true, none, some, List, [], ◌∷◌, arith, eq_iff, eq_refl, Bool-cases, inl, inr,
  ◌+◌,
}
use fedr.Int.{pos, ◌+ℤ◌, ◌≤ℤ◌, ◌<ℤ◌, pos_part, neg_part, int_laws}
use fedr.Decimal.{Decimal, zero_dec}
use mathlib.Core.Path.{subst}
use fedr.Dict.{IfSome, Dict, lookup, insert, sum_by-insert_new, erase-insert}
use fedr.Inventory.{
  InventoryManager, Need, find, amount_for, reserved_for, available, can_reserve, reserve, release,
}

-- A fresh reservation adds its amounts to what is reserved of each account.
reserved_for-insert :
    (v a k : String) (needs : List Need) (i : InventoryManager)
    → lookup k i.reservations ≡ none
    → reserved_for v a (record i { reservations = insert k needs i.reservations })
      ≡ reserved_for v a i +ℤ amount_for v a needs
unfolding reserved_for
reserved_for-insert v a k needs i h =
    sum_by-insert_new (λ _ res. amount_for v a res) k needs i.reservations h

-- What the venue holds of the asset, as last reported.
unfoldable pub held : InventoryManager → String → String → Decimal
held i v a = elim (find v a i.lines) [ none ↦ zero_dec | some line ↦ line.available ]

-- No account is promised beyond what it holds.
abbrev pub IsCovered : InventoryManager → Type 0
IsCovered i = (v a : String) → reserved_for v a i ≤ℤ held i v a

-- No account is named twice, and no amount is negative.
abbrev pub AreSeparate : List Need → Type 0
AreSeparate [] = Unit
AreSeparate (n ∷ ns) =
    (pos 0 ≤ℤ n.amount) × (amount_for n.venue n.asset ns ≡ pos 0) × AreSeparate ns

amount_for-le-available :
    (v a : String) (needs : List Need) (i : InventoryManager)
    → AreSeparate needs
    → can_reserve i needs ≡ true
    → (pos 0 ≤ℤ available i v a)
    → amount_for v a needs ≤ℤ available i v a
unfolding amount_for can_reserve
amount_for-le-available v a [] i s h z = omega arith
amount_for-le-available v a (n ∷ ns) i s h z =
    grind (int_laws, eq_iff n.venue v, eq_iff n.asset a, amount_for-le-available v a ns i s.2)

available_nonneg : (i : InventoryManager) (v a : String) → pos 0 ≤ℤ available i v a
unfolding available
available_nonneg i v a = ground arith

available-le-held :
    (i : InventoryManager) (v a : String)
    → reserved_for v a i ≤ℤ held i v a
    → available i v a +ℤ reserved_for v a i ≤ℤ held i v a
unfolding available held
available-le-held i v a h = grind int_laws

promised-le-held :
    (v a k : String) (needs : List Need) (i : InventoryManager)
    → lookup k i.reservations ≡ none
    → AreSeparate needs
    → reserved_for v a i ≤ℤ held i v a
    → can_reserve i needs ≡ true
    → reserved_for v a (record i { reservations = insert k needs i.reservations }) ≤ℤ held i v a
promised-le-held v a k needs i h s c e = rw (reserved_for-insert v a k needs i h) (
    omega (
      int_laws,
      amount_for-le-available v a needs i s e (available_nonneg i v a),
      available-le-held i v a c,
    ))

IfSome-reserve-IsCovered :
    (k : String) (needs : List Need) (i : InventoryManager)
    → lookup k i.reservations ≡ none
    → AreSeparate needs
    → IsCovered i
    → IfSome IsCovered (reserve k needs i)
unfolding reserve held
IfSome-reserve-IsCovered k needs i h s c = elim (Bool-cases (can_reserve i needs)) [
  | inl e ↦ rw e (λ v a. promised-le-held v a k needs i h s (c v a) e)
  | inr e ↦ rw e tt
]

-- A reservation that is granted, for a new trade and needs that name no account twice, promises no
-- account beyond what it holds, if none was before.
pub reserve-IsCovered :
    (k : String) (needs : List Need) (i : InventoryManager) {j : InventoryManager}
    → lookup k i.reservations ≡ none
    → AreSeparate needs
    → IsCovered i
    → reserve k needs i ≡ some j
    → IsCovered j
reserve-IsCovered k needs i h s c e =
    subst (IfSome IsCovered) e (IfSome-reserve-IsCovered k needs i h s c)

-- Releasing a trade that was just reserved restores the manager.
pub release-reserve_new :
    (k : String) (needs : List Need) (i : InventoryManager) {j : InventoryManager}
    → lookup k i.reservations ≡ none
    → reserve k needs i ≡ some j
    → release k j ≡ i
unfolding reserve release
release-reserve_new k needs i {j} h e = grind (arith, erase-insert k needs i.reservations h)

amount_for-pair :
    (v a : String) (x y : Decimal)
    → amount_for v a (
        record { venue = v; asset = a; amount = x }
        ∷ record { venue = v; asset = a; amount = y }
        ∷ [])
      ≡ x +ℤ (y +ℤ pos 0)
unfolding amount_for
amount_for-pair v a x y = simp eq_refl

held_same :
    (i : InventoryManager) (v a : String) (r : Dict (List Need))
    → held (record i { reservations = r }) v a ≡ held i v a
unfolding held
held_same i v a r = refl

available-pos :
    (i : InventoryManager) (v a : String)
    → pos 0 <ℤ available i v a
    → pos_part (available i v a) + pos_part (reserved_for v a i) + neg_part (held i v a)
      ≡ pos_part (held i v a) + neg_part (reserved_for v a i) + neg_part (available i v a)
unfolding available held
available-pos i v a h = grind int_laws

-- Each need is tested alone: two needs of one account are granted together whenever the greater is
-- available, also where their sum is more than the account holds.
pub reserve_overcommits :
    (k v a : String) (x y : Decimal) (i : InventoryManager)
    → lookup k i.reservations ≡ none
    → y ≤ℤ x
    → x ≤ℤ available i v a
    → available i v a <ℤ x +ℤ y
    → pos 0 <ℤ available i v a
    → (j : InventoryManager) × (reserve k
          (record { venue = v; asset = a; amount = x }
            ∷ record { venue = v; asset = a; amount = y }
            ∷ [])
          i
        ≡ some j)
      × (held j v a <ℤ reserved_for v a j)
unfolding reserve can_reserve
reserve_overcommits k v a x y i h le fits over z =
    let ns =
      record { venue = v; asset = a; amount = x }
      ∷ record { venue = v; asset = a; amount = y }
      ∷ [] in
    (
      record i { reservations = insert k ns i.reservations },
      ground arith,
      rw (reserved_for-insert v a k ns i h, amount_for-pair v a x y, held_same i v a _)
          (omega (int_laws, available-pos i v a z)),
    )
