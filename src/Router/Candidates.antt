-- ===== src/Router/Candidates.antt =====
-- engine/strategies/catalog.py, and `candidates` and `scan` of engine/opportunity.py.
use fedr.Base.{
  String, Bool, true, false, not, ◌&&◌, ◌||◌, Option, none, some, List, [], ◌∷◌, ◌++◌, map,
  if◌then◌else◌, ◌==◌,
}
use Prim.Native.String.{◌++◌ as append}
use fedr.Dict.{Dict, insert}
use fedr.Models.{
  Strategy, cex_cex, cex_dex, dex_dex, spot_perp, funding, basis, flash_loan, strategy_value,
  VenueKind, cex, dex, perp,
}
use fedr.Orders.{Venue, split_pair}
use fedr.Executor.{Engine}
use fedr.Router.{RouteCandidate, is_carry, Scene, Evaluation}
use fedr.Router.Gate.{same_chain}
use fedr.Router.Evaluating.{evaluate}
use fedr.Router.Ranking.{annotate_alternatives}

-- `CATALOG[strategy].kinds`
abbrev pub kinds_of : Strategy → VenueKind × VenueKind
kinds_of cex_cex = (cex, cex)
kinds_of cex_dex = (cex, dex)
kinds_of dex_dex = (dex, dex)
kinds_of spot_perp = (cex, perp)
kinds_of funding = (cex, perp)
kinds_of basis = (cex, perp)
kinds_of flash_loan = (dex, dex)

-- `same_chain_only` and `atomic`
abbrev pub is_atomic : Strategy → Bool
is_atomic flash_loan = true
is_atomic _ = false

abbrev pub is_kind : VenueKind → VenueKind → Bool
is_kind cex cex = true
is_kind dex dex = true
is_kind perp perp = true
is_kind _ _ = false

-- What the scan reads of the venues and the settings: the connected venues, the symbols of each, the
-- enabled strategies, the switch of the flash loans, and the pairs.
pub record ScanSetup : Type 0 where
  pub venues : List Venue
  pub supports : Venue → String → Bool
  pub enabled : Strategy → Bool
  pub flash_loans : Bool
  pub pairs : List String

-- `_perp_symbol`; a pair that does not split raises, which gives no candidates here
abbrev perp_symbol : Option (String × String) → Option String
perp_symbol none = none
perp_symbol (some (base, quote)) = some (append base (append "/" (append quote (append ":" quote))))

abbrev pub supports_opt : ScanSetup → Venue → Option String → Bool
supports_opt k v none = false
supports_opt k v (some symbol) = k.supports v symbol

abbrev pub symbol_for : VenueKind → String → Option String
symbol_for perp pair = perp_symbol (split_pair pair)
symbol_for cex pair = some pair
symbol_for dex pair = some pair

-- The venues of a kind that trade a symbol.
unfoldable pub traders : ScanSetup → VenueKind → Option String → List Venue → List Venue
traders k kind symbol [] = []
traders k kind symbol (v ∷ vs) =
    let rest = traders k kind symbol vs in
    if is_kind v.kind kind && supports_opt k v symbol then v ∷ rest else rest

abbrev pub pairable : Bool → Venue → Venue → Bool
pairable one_chain b s = not (b.name == s.name) && (not one_chain || same_chain b.chain s.chain)

unfoldable pub with_sellers : Bool → Venue → List Venue → List (Venue × Venue)
with_sellers one_chain b [] = []
with_sellers one_chain b (s ∷ ss) =
    let rest = with_sellers one_chain b ss in if pairable one_chain b s then (b, s) ∷ rest else rest

unfoldable pub all_pairs : Bool → List Venue → List Venue → List (Venue × Venue)
all_pairs one_chain [] sells = []
all_pairs one_chain (b ∷ bs) sells = with_sellers one_chain b sells ++ all_pairs one_chain bs sells

-- `candidate_pairs`. The reverse direction does not ask for one chain.
unfoldable pub candidate_pairs : ScanSetup → Strategy → String → List (Venue × Venue)
candidate_pairs k st pair =
    let (buy_kind, sell_kind) = kinds_of st in
    let buys = traders k buy_kind (some pair) k.venues in
    let sells = traders k sell_kind (symbol_for sell_kind pair) k.venues in
    all_pairs (is_atomic st) buys sells
    ++ (if not (is_carry st) && not (is_kind buy_kind sell_kind)
        then all_pairs false sells buys
        else [])

abbrev pub candidate_of : Strategy → String → Venue × Venue → RouteCandidate
candidate_of st pair (b, s) = record {
  strategy = st;
  pair = pair;
  buy = b;
  sell = s;
  flash_loan = is_atomic st;
}

unfoldable pub over_pairs : ScanSetup → Strategy → List String → List RouteCandidate
over_pairs k st [] = []
over_pairs k st (pair ∷ pairs) =
    map (candidate_of st pair) (candidate_pairs k st pair) ++ over_pairs k st pairs

unfoldable pub over_strategies : ScanSetup → List Strategy → List RouteCandidate
over_strategies k [] = []
over_strategies k (st ∷ sts) =
    let rest = over_strategies k sts in
    if k.enabled st && (not (is_atomic st) || k.flash_loans)
    then over_pairs k st k.pairs ++ rest
    else rest

-- the strategies of CATALOG, in its order
abbrev pub catalog : List Strategy
catalog = cex_cex ∷ cex_dex ∷ dex_dex ∷ spot_perp ∷ funding ∷ basis ∷ flash_loan ∷ []

-- `candidates`, of the pairs of the settings
unfoldable pub candidates : ScanSetup → List RouteCandidate
candidates k = over_strategies k catalog

-- `RouteCandidate.key`
unfoldable pub candidate_key : RouteCandidate → String
candidate_key c = append (strategy_value c.strategy) (
    append "|" (
      append c.pair (
        append "|" (
          append c.buy.name (
            append "->" (append c.sell.name (append "|" (if c.flash_loan then "fl" else "pf"))))))))

abbrev keep_some :
    String → Option Evaluation → List (String × Evaluation) → List (String × Evaluation)
keep_some key none rest = rest
keep_some key (some v) rest = (key, v) ∷ rest

-- The evaluations that did not fail, with their keys. None also stands for an exception.
unfoldable pub evaluated : Scene → Engine → List RouteCandidate → List (String × Evaluation)
evaluated sc e [] = []
evaluated sc e (c ∷ cs) = keep_some (candidate_key c) (evaluate sc e c) (evaluated sc e cs)

abbrev enter_all : List (String × Evaluation) → List Evaluation → Dict Evaluation → Dict Evaluation
enter_all [] vs d = d
enter_all (_ ∷ ks) [] d = d
enter_all ((key, _) ∷ ks) (v ∷ vs) d = enter_all ks vs (insert key v d)

-- `scan`: what `latest` holds afterwards. It holds the objects that the alternatives are written to.
unfoldable pub scan : Scene → Engine → ScanSetup → Dict Evaluation → Dict Evaluation
scan sc e k latest =
    let found = evaluated sc e (candidates k) in
    enter_all found (annotate_alternatives sc (map (λ x. x.1) found)) latest
