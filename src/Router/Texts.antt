-- ===== src/Router/Texts.antt =====
-- Lists of texts without repetitions, as engine/opportunity.py makes them.
use fedr.Base.{
  String, ◌≡◌, refl, ◌∙◌, Bool, false, ◌&&◌, ◌||◌, List, [], ◌∷◌, ◌++◌, if◌then◌else◌, ◌==◌,
  is_empty, map, arith, Bool-cases, inl, inr,
}

abbrev pub contains : String → List String → Bool
contains x [] = false
contains x (y ∷ ys) = y == x || contains x ys

-- `xs.extend(r for r in rs if r not in xs)`
unfoldable pub add_new : List String → List String → List String
add_new xs [] = xs
add_new xs (r ∷ rs) = add_new (if contains r xs then xs else xs ++ r ∷ []) rs

-- `list(dict.fromkeys(xs))`
abbrev pub dedup : List String → List String
dedup xs = add_new [] xs

empty_append : (xs : List String) (r : String) → is_empty (xs ++ r ∷ []) ≡ false
empty_append [] r = refl
empty_append (_ ∷ _) r = refl

extended :
    (xs : List String) (r : String) → is_empty (if contains r xs then xs else xs ++ r ∷ []) ≡ false
extended [] r = refl
extended (x ∷ xs) r = elim (Bool-cases (contains r (x ∷ xs))) [
  | inl e ↦ rw e refl
  | inr e ↦ rw e refl
]

-- Additions without repetition leave a list empty only if there is nothing to add.
pub empty_add_new : (xs rs : List String) → is_empty (add_new xs rs) ≡ (is_empty xs && is_empty rs)
unfolding add_new
empty_add_new xs [] = ground arith
empty_add_new xs (r ∷ rs) =
    empty_add_new (if contains r xs then xs else xs ++ r ∷ []) rs
    ∙ rw (extended xs r) (ground arith)

pub empty_map {ℓ} : {A : Type ℓ} (f : A → String) (xs : List A) → is_empty (map f xs) ≡ is_empty xs
empty_map f [] = refl
empty_map f (_ ∷ _) = refl
