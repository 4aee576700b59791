-- ===== src/Router/Routes.antt =====
-- The routes that engine/strategies/catalog.py builds.
use fedr.Base.{
  String, ◌≡◌, refl, sym, ◌∙◌, Bool, true, false, not, ◌&&◌, ◌||◌, Option, some, List, [], ◌∷◌,
  ◌++◌, map, ◌==◌, arith, Bool-cases, inl, inr, ◌⊎◌,
}
use mathlib.Core.Bool.{false≢true}
use fedr.Models.{
  Strategy, cex_cex, cex_dex, dex_dex, spot_perp, funding, basis, flash_loan, VenueKind,
}
use fedr.Orders.{Venue}
use fedr.Router.{RouteCandidate, is_carry}
use fedr.Router.Gate.{same_chain}
use fedr.Router.Candidates.{
  ScanSetup, kinds_of, is_atomic, is_kind, traders, pairable, with_sellers, all_pairs,
  candidate_pairs, candidate_of, over_pairs, over_strategies, candidates, symbol_for, supports_opt,
  catalog,
}

abbrev pub Each : {A : Type 0} → (A → Type 0) → List A → Type 0
Each P [] = Unit
Each P (x ∷ xs) = P x × Each P xs

Each-append :
    {A : Type 0} (P : A → Type 0) (xs ys : List A) → Each P xs → Each P ys → Each P (xs ++ ys)
Each-append P [] ys h k = k
Each-append P (x ∷ xs) ys h k = (h.0, Each-append P xs ys h.1 k)

Each-map :
    {A B : Type 0} (P : A → Type 0) (Q : B → Type 0) (f : A → B) (xs : List A)
    → ((x : A) → P x → Q (f x))
    → Each P xs
    → Each Q (map f xs)
Each-map P Q f [] g h = tt
Each-map P Q f (x ∷ xs) g h = (g x h.0, Each-map P Q f xs g h.1)

abbrev HasKind : VenueKind → Venue → Type 0
HasKind kind v = is_kind v.kind kind ≡ true

-- Two venues of these kinds with different names, on one chain if that is asked for.
abbrev Joins : Bool → VenueKind → VenueKind → Venue × Venue → Type 0
Joins one_chain a b (v, w) =
    HasKind a v
    × HasKind b w
    × ((v.name == w.name) ≡ false)
    × (one_chain ≡ true → same_chain v.chain w.chain ≡ true)

traders-HasKind :
    (k : ScanSetup) (kind : VenueKind) (symbol : Option String) (vs : List Venue)
    → Each (HasKind kind) (traders k kind symbol vs)
unfolding traders
traders-HasKind k kind symbol [] = tt
traders-HasKind k kind symbol (v ∷ vs) =
    elim (Bool-cases (is_kind v.kind kind && supports_opt k v symbol)) [
      | inl e ↦ rw e (both (is_kind v.kind kind) _ e, traders-HasKind k kind symbol vs)
      | inr e ↦ rw e (traders-HasKind k kind symbol vs)
    ]
  where
    both : (a b : Bool) → (a && b) ≡ true → a ≡ true
    both a b h = ground arith

with_sellers-Joins :
    (one_chain : Bool) (a b : VenueKind) (v : Venue) (ws : List Venue)
    → HasKind a v
    → Each (HasKind b) ws
    → Each (Joins one_chain a b) (with_sellers one_chain v ws)
unfolding with_sellers
with_sellers-Joins one_chain a b v [] h k = tt
with_sellers-Joins one_chain a b v (w ∷ ws) h k = elim (Bool-cases (pairable one_chain v w)) [
  | inl e ↦
      rw e ((h, k.0, ground arith, λ q. ground arith), with_sellers-Joins one_chain a b v ws h k.1)
  | inr e ↦ rw e (with_sellers-Joins one_chain a b v ws h k.1)
]

all_pairs-Joins :
    (one_chain : Bool) (a b : VenueKind) (vs ws : List Venue)
    → Each (HasKind a) vs
    → Each (HasKind b) ws
    → Each (Joins one_chain a b) (all_pairs one_chain vs ws)
unfolding all_pairs
all_pairs-Joins one_chain a b [] ws h k = tt
all_pairs-Joins one_chain a b (v ∷ vs) ws h k =
    Each-append (Joins one_chain a b) (with_sellers one_chain v ws) _
      (with_sellers-Joins one_chain a b v ws h.0 k) (all_pairs-Joins one_chain a b vs ws h.1 k)

-- What every candidate meets.
pub record IsRoute (c : RouteCandidate) : Type 0 where
  pub two_venues : (c.buy.name == c.sell.name) ≡ false
  pub one_chain : c.flash_loan ≡ true → same_chain c.buy.chain c.sell.chain ≡ true
  pub kinds :
      let (a, b) = kinds_of c.strategy in
      (HasKind a c.buy × HasKind b c.sell) ⊎ (HasKind b c.buy × HasKind a c.sell)

abbrev Fits : Strategy → String → Venue × Venue → Type 0
Fits st pair r = IsRoute (candidate_of st pair r)

straight :
    (st : Strategy) (pair : String) (r : Venue × Venue)
    → Joins (is_atomic st) (kinds_of st).0 (kinds_of st).1 r
    → Fits st pair r
straight st pair (v, w) h = record { two_venues = h.2; one_chain = h.3; kinds = inl (h.0, h.1) }

-- Only strategies that need no common chain have a reverse direction.
reversible :
    (st : Strategy)
    → (not (is_carry st) && not (is_kind (kinds_of st).0 (kinds_of st).1)) ≡ true
    → is_atomic st ≡ false
reversible cex_cex h = refl
reversible cex_dex h = refl
reversible dex_dex h = refl
reversible spot_perp h = refl
reversible funding h = refl
reversible basis h = refl
reversible flash_loan h = ground arith

reverse :
    (st : Strategy) (pair : String)
    → is_atomic st ≡ false
    → (r : Venue × Venue) → Joins false (kinds_of st).1 (kinds_of st).0 r
    → Fits st pair r
reverse st pair e (v, w) h = record {
  two_venues = h.2;
  one_chain = λ q. absurd (false≢true (sym e ∙ q));
  kinds = inr (h.0, h.1);
}

Each-weaken :
    {A : Type 0} (P Q : A → Type 0) (xs : List A) → ((x : A) → P x → Q x) → Each P xs → Each Q xs
Each-weaken P Q [] g h = tt
Each-weaken P Q (x ∷ xs) g h = (g x h.0, Each-weaken P Q xs g h.1)

candidate_pairs-Fits :
    (k : ScanSetup) (st : Strategy) (pair : String)
    → Each (Fits st pair) (candidate_pairs k st pair)
unfolding candidate_pairs
candidate_pairs-Fits k st pair =
    let (a, b) = kinds_of st in
    let buys = traders k a (some pair) k.venues in
    let sells = traders k b (symbol_for b pair) k.venues in
    let hb = traders-HasKind k a (some pair) k.venues in
    let hs = traders-HasKind k b (symbol_for b pair) k.venues in
    Each-append (Fits st pair) (all_pairs (is_atomic st) buys sells) _
      (Each-weaken _ (Fits st pair) _ (straight st pair)
        (all_pairs-Joins (is_atomic st) a b buys sells hb hs))
      (elim (Bool-cases (not (is_carry st) && not (is_kind a b))) [
        | inl e ↦ rw e (
            Each-weaken _ (Fits st pair) _ (reverse st pair (reversible st e))
              (all_pairs-Joins false b a sells buys hs hb))
        | inr e ↦ rw e tt
      ])

over_pairs-IsRoute :
    (k : ScanSetup) (st : Strategy) (pairs : List String) → Each IsRoute (over_pairs k st pairs)
unfolding over_pairs
over_pairs-IsRoute k st [] = tt
over_pairs-IsRoute k st (pair ∷ pairs) =
    Each-append IsRoute (map (candidate_of st pair) (candidate_pairs k st pair)) _
      (Each-map (Fits st pair) IsRoute (candidate_of st pair) (candidate_pairs k st pair) (λ r h. h)
        (candidate_pairs-Fits k st pair))
      (over_pairs-IsRoute k st pairs)

over_strategies-IsRoute :
    (k : ScanSetup) (sts : List Strategy) → Each IsRoute (over_strategies k sts)
unfolding over_strategies
over_strategies-IsRoute k [] = tt
over_strategies-IsRoute k (st ∷ sts) =
    elim (Bool-cases (k.enabled st && (not (is_atomic st) || k.flash_loans))) [
      | inl e ↦ rw e (
          Each-append IsRoute (over_pairs k st k.pairs) _ (over_pairs-IsRoute k st k.pairs)
            (over_strategies-IsRoute k sts))
      | inr e ↦ rw e (over_strategies-IsRoute k sts)
    ]

-- Every candidate of a scan joins two venues of different names, of the two kinds of its strategy in one
-- of the two orders, and a flash loan joins venues of one chain.
pub candidates-IsRoute : (k : ScanSetup) → Each IsRoute (candidates k)
unfolding candidates
candidates-IsRoute k = over_strategies-IsRoute k catalog
