-- ===== src/Dict.antt =====
-- A Python dict keyed by texts, in insertion order.
use fedr.Base.{
  String, ◌≡◌, refl, Option, none, some, List, [], ◌∷◌, arith, ◌==◌, eq_iff, eq_refl, length,
  if◌then◌else◌, Bool-cases, inl, inr,
}
use fedr.Int.{ℤ, pos, ◌+ℤ◌, int_laws}

abbrev pub Dict {ℓ} : Type ℓ → Type ℓ
Dict V = List (String × V)

module _ {ℓ} {V : Type ℓ} where
  -- `d.get(k)`
  unfoldable pub lookup : String → Dict V → Option V
  lookup k [] = none
  lookup k ((j, v) ∷ d) = if j == k then some v else lookup k d

  -- `d[k] = v`
  unfoldable pub insert : String → V → Dict V → Dict V
  insert k v [] = (k, v) ∷ []
  insert k v ((j, w) ∷ d) = if j == k then (j, v) ∷ d else (j, w) ∷ insert k v d

  -- `d.pop(k, None)`, `del d[k]`
  unfoldable pub erase : String → Dict V → Dict V
  erase k [] = []
  erase k ((j, w) ∷ d) = if j == k then d else (j, w) ∷ erase k d

  pub lookup-insert :
      (k j : String) (v : V) (d : Dict V)
      → lookup j (insert k v d) ≡ (if k == j then some v else lookup j d)
  unfolding lookup insert
  lookup-insert k j v [] = refl
  lookup-insert k j v ((i, w) ∷ d) =
      ground (arith, eq_iff k j, eq_iff i k, eq_iff i j, lookup-insert k j v d)

  -- No key is listed twice.
  abbrev pub HasUniqueKeys : Dict V → Type ℓ
  HasUniqueKeys [] = Unit
  HasUniqueKeys ((k, _) ∷ d) = (lookup k d ≡ none) × HasUniqueKeys d

  pub insert-HasUniqueKeys :
      (k : String) (v : V) (d : Dict V) → HasUniqueKeys d → HasUniqueKeys (insert k v d)
  unfolding insert lookup
  insert-HasUniqueKeys k v [] h = (refl, tt)
  insert-HasUniqueKeys k v ((i, w) ∷ d) h =
      ground (arith, eq_iff i k, eq_iff k i, insert-HasUniqueKeys k v d h.1, lookup-insert k i v d)

  pub lookup-erase :
      (k j : String) (d : Dict V)
      → HasUniqueKeys d
      → lookup j (erase k d) ≡ (if k == j then none else lookup j d)
  unfolding lookup erase
  lookup-erase k j [] h = ground arith
  lookup-erase k j ((i, w) ∷ d) h =
      ground (arith, eq_iff k j, eq_iff i k, eq_iff i j, lookup-erase k j d h.1)

  lookup-erase-none : (k j : String) (d : Dict V) → lookup j d ≡ none → lookup j (erase k d) ≡ none
  unfolding lookup erase
  lookup-erase-none k j [] h = refl
  lookup-erase-none k j ((i, w) ∷ d) h = ground (arith, lookup-erase-none k j d)

  pub erase-HasUniqueKeys : (k : String) (d : Dict V) → HasUniqueKeys d → HasUniqueKeys (erase k d)
  unfolding erase
  erase-HasUniqueKeys k [] h = tt
  erase-HasUniqueKeys k ((i, w) ∷ d) h =
      ground (arith, erase-HasUniqueKeys k d h.1, lookup-erase-none k i d h.0)

  -- The sum of a number read off each entry.
  unfoldable pub sum_by : (String → V → ℤ) → Dict V → ℤ
  sum_by f [] = pos 0
  sum_by f ((k, v) ∷ d) = f k v +ℤ sum_by f d

  pub sum_by-insert :
      (f : String → V → ℤ) (k : String) (v w : V) (d : Dict V)
      → lookup k d ≡ some w
      → sum_by f (insert k v d) +ℤ f k w ≡ sum_by f d +ℤ f k v
  unfolding sum_by lookup insert
  sum_by-insert f k v w [] h = cc
  sum_by-insert f k v w ((i, u) ∷ d) h = grind (int_laws, eq_iff i k, sum_by-insert f k v w d)

  pub sum_by-insert_new :
      (f : String → V → ℤ) (k : String) (v : V) (d : Dict V)
      → lookup k d ≡ none
      → sum_by f (insert k v d) ≡ sum_by f d +ℤ f k v
  unfolding sum_by lookup insert
  sum_by-insert_new f k v [] h = omega int_laws
  sum_by-insert_new f k v ((i, u) ∷ d) h = grind (int_laws, sum_by-insert_new f k v d)

  -- Every value satisfies the predicate.
  abbrev pub All : (V → Type 0) → Dict V → Type 0
  All P [] = Unit
  All P ((_, v) ∷ d) = P v × All P d

  pub All-insert :
      (P : V → Type 0) (k : String) (v : V) (d : Dict V) → All P d → P v → All P (insert k v d)
  unfolding insert
  All-insert P k v [] h p = (p, tt)
  All-insert P k v ((i, u) ∷ d) h p = elim (Bool-cases (i == k)) [
    | inl e ↦ rw e (p, h.1)
    | inr e ↦ rw e (h.0, All-insert P k v d h.1 p)
  ]

  abbrev pub IfSome : (V → Type 0) → Option V → Type 0
  IfSome P none = Unit
  IfSome P (some v) = P v

  pub All-lookup : (P : V → Type 0) (k : String) (d : Dict V) → All P d → IfSome P (lookup k d)
  unfolding lookup
  All-lookup P k [] h = tt
  All-lookup P k ((i, u) ∷ d) h = elim (Bool-cases (i == k)) [
    | inl same ↦ rw same h.0
    | inr other ↦ rw other (All-lookup P k d h.1)
  ]

  -- Entering a new key and taking it out again restores the dict.
  pub erase-insert :
      (k : String) (v : V) (d : Dict V) → lookup k d ≡ none → erase k (insert k v d) ≡ d
  unfolding lookup insert erase
  erase-insert k v [] h = ground (arith, eq_iff k k)
  erase-insert k v ((i, u) ∷ d) h = ground (arith, eq_iff i k, erase-insert k v d)

  pub erase-absent : (k : String) (d : Dict V) → lookup k d ≡ none → erase k d ≡ d
  unfolding lookup erase
  erase-absent k [] h = refl
  erase-absent k ((i, u) ∷ d) h = ground (arith, erase-absent k d)

  pub lookup-insert_self : (k : String) (v : V) (d : Dict V) → lookup k (insert k v d) ≡ some v
  lookup-insert_self k v d = rw (lookup-insert k k v d, eq_refl k)

  pub length-insert_old :
      (k : String) (v : V) {w : V} (d : Dict V)
      → lookup k d ≡ some w
      → length (insert k v d) ≡ length d
  unfolding lookup insert
  length-insert_old k v {w} [] h = cc
  length-insert_old k v {w} ((i, u) ∷ d) h = ground (arith, length-insert_old k v {w = w} d)
