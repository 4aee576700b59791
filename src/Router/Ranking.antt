-- ===== src/Router/Ranking.antt =====
-- `_annotate_alternatives` and `ranked` of engine/opportunity.py.
use fedr.Base.{
  ℕ, ◌+◌, String, Bool, true, false, Option, none, some, List, [], ◌∷◌, ◌++◌, if◌then◌else◌, ◌==◌,
  eqb, ltb,
}
use Prim.Native.String.{◌++◌ as append}
use fedr.Int.{ltb_ℤ}
use fedr.Dict.{Dict}
use fedr.Models.{blocked}
use fedr.Router.{Scene, Evaluation, preferred}
use fedr.Router.Evaluating.{is_safe}

-- `f"{o.pair}|{o.buy.venue}->{o.sell.venue}"`
unfoldable pub route_name : Evaluation → String
route_name v = append v.pair (append "|" (append v.buy.venue (append "->" v.sell.venue)))

-- The comparison of the keys: the decision, the worst case and the expected profit.
unfoldable pub outranks : Evaluation → Evaluation → Bool
outranks v w =
    if is_safe v.decision
    then if is_safe w.decision then earns_more v w else true
    else if is_safe w.decision
    then false
    else earns_more v w
  where
    earns_more : Evaluation → Evaluation → Bool
    earns_more v w =
        if ltb_ℤ w.profit.worst_case_profit v.profit.worst_case_profit
        then true
        else if ltb_ℤ v.profit.worst_case_profit w.profit.worst_case_profit
        then false
        else ltb_ℤ w.profit.expected_net_profit v.profit.expected_net_profit

abbrev pub challenge : ℕ → Evaluation → Option (ℕ × Evaluation) → Option (ℕ × Evaluation)
challenge i v none = some (i, v)
challenge i v (some (j, w)) = if outranks v w then some (i, v) else some (j, w)

-- `max(group, key=...)`: the place and the first of the best evaluations of a route.
unfoldable pub champion :
    String → ℕ → List Evaluation → Option (ℕ × Evaluation) → Option (ℕ × Evaluation)
champion route i [] best = best
champion route i (v ∷ vs) best =
    champion route (i + 1) vs (if route_name v == route then challenge i v best else best)

-- What becomes of the evaluation at a place, next to the best of its route.
unfoldable pub demoted : Scene → ℕ → Evaluation → Option (ℕ × Evaluation) → Evaluation
demoted sc i v none = v
demoted sc i v (some (j, best)) = if eqb i j then v else record v {
  block_reasons =
      v.block_reasons
      ++ sc.say (preferred best.strategy best.profit.worst_case_profit v.profit.worst_case_profit)
        ∷ [];
  decision = blocked;
}

unfoldable pub annotate_from : Scene → List Evaluation → ℕ → List Evaluation → List Evaluation
annotate_from sc all i [] = []
annotate_from sc all i (v ∷ vs) =
    demoted sc i v (champion (route_name v) 0 all none) ∷ annotate_from sc all (i + 1) vs

-- `_annotate_alternatives`, without the lists for display
unfoldable pub annotate_alternatives : Scene → List Evaluation → List Evaluation
annotate_alternatives sc vs = annotate_from sc vs 0 vs

-- The comparison of the sort keys of `ranked`.
unfoldable pub ranks_before : Evaluation → Evaluation → Bool
ranks_before v w =
    if is_safe v.decision
    then if is_safe w.decision then pays_more v w else true
    else if is_safe w.decision
    then false
    else pays_more v w
  where
    pays_more : Evaluation → Evaluation → Bool
    pays_more v w =
        if ltb_ℤ w.profit.worst_case_profit v.profit.worst_case_profit
        then true
        else if ltb_ℤ v.profit.worst_case_profit w.profit.worst_case_profit
        then false
        else if ltb_ℤ w.profit.expected_net_profit v.profit.expected_net_profit
        then true
        else if ltb_ℤ v.profit.expected_net_profit w.profit.expected_net_profit
        then false
        else ltb_ℤ v.risk.score w.risk.score

-- A stable insertion: before the first entry that does not rank before it.
unfoldable pub place : Evaluation → List Evaluation → List Evaluation
place v [] = v ∷ []
place v (w ∷ ws) = let rest = place v ws in if ranks_before w v then w ∷ rest else v ∷ w ∷ ws

unfoldable pub sort_ranked : List Evaluation → List Evaluation
sort_ranked [] = []
sort_ranked (v ∷ vs) = place v (sort_ranked vs)

unfoldable pub live_of : ℕ → Dict Evaluation → List Evaluation
live_of now [] = []
live_of now ((_, v) ∷ d) =
    let rest = live_of now d in if ltb now v.expires_at_ms then v ∷ rest else rest

-- `ranked`
unfoldable pub ranked : ℕ → Dict Evaluation → List Evaluation
ranked now latest = sort_ranked (live_of now latest)
