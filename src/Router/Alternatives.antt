-- ===== src/Router/Alternatives.antt =====
-- `_annotate_alternatives` of engine/opportunity.py leaves one route of several.
use fedr.Base.{
  ℕ, zero, suc, ◌+◌, String, ◌≡◌, ◌≢◌, refl, sym, ◌∙◌, ap, Bool, true, false, Option, none, some,
  List, [], ◌∷◌, if◌then◌else◌, ◌==◌, eqb, or_else, arith, Bool-cases, inl, inr, eq_iff, eq_refl,
}
use mathlib.Core.Path.{subst, ap₂}
use fedr.Models.{safe_to_execute, blocked}
use fedr.Router.{Scene, Evaluation}
use fedr.Router.Ranking.{
  route_name, outranks, challenge, champion, demoted, annotate_from, annotate_alternatives,
}

abbrev pub nth : ℕ → List Evaluation → Option Evaluation
nth i [] = none
nth zero (v ∷ vs) = some v
nth (suc i) (v ∷ vs) = nth i vs

outranks-irreflexive : (v : Evaluation) → outranks v v ≡ false
unfolding outranks
outranks-irreflexive v = ground arith

-- What does not outrank one does not outrank what outranks that.
outranks-transitive :
    (u v w : Evaluation) → outranks u w ≡ false → outranks v w ≡ true → outranks u v ≡ false
unfolding outranks
outranks-transitive u v w h k = ground arith

-- The best so far is not outranked.
abbrev Covers : Evaluation → Option (ℕ × Evaluation) → Type 0
Covers u none = ⊥
Covers u (some (j, w)) = outranks u w ≡ false

challenge-Covers_kept :
    (u v : Evaluation) (i : ℕ) (best : Option (ℕ × Evaluation))
    → Covers u best
    → Covers u (challenge i v best)
challenge-Covers_kept u v i none h = absurd h
challenge-Covers_kept u v i (some (j, w)) h = elim (Bool-cases (outranks v w)) [
  | inl e ↦ rw e (outranks-transitive u v w h e)
  | inr e ↦ rw e h
]

challenge-Covers :
    (v : Evaluation) (i : ℕ) (best : Option (ℕ × Evaluation)) → Covers v (challenge i v best)
challenge-Covers v i none = outranks-irreflexive v
challenge-Covers v i (some (j, w)) = elim (Bool-cases (outranks v w)) [
  | inl e ↦ rw e (outranks-irreflexive v)
  | inr e ↦ rw e e
]

champion-Covers_kept :
    (u : Evaluation) (route : String) (k : ℕ) (vs : List Evaluation)
    (best : Option (ℕ × Evaluation))
    → Covers u best
    → Covers u (champion route k vs best)
unfolding champion
champion-Covers_kept u route k [] best h = h
champion-Covers_kept u route k (v ∷ vs) best h =
    champion-Covers_kept u route (k + 1) vs _ (keeps (route_name v == route))
  where
    keeps : (b : Bool) → Covers u (if b then challenge k v best else best)
    keeps true = challenge-Covers_kept u v k best h
    keeps false = h

-- No evaluation of the route outranks the champion.
champion-Covers :
    (u : Evaluation) (route : String) (i k : ℕ) (vs : List Evaluation)
    (best : Option (ℕ × Evaluation))
    → nth i vs ≡ some u
    → (route_name u == route) ≡ true
    → Covers u (champion route k vs best)
unfolding champion
champion-Covers u route i k [] best h r = ground arith
champion-Covers u route zero k (v ∷ vs) best h r = champion-Covers_kept u route (k + 1) vs _ first
  where
    first : Covers u (if route_name v == route then challenge k v best else best)
    first =
        let e : v ≡ u = ap (λ o. or_else o v) h in
        subst (λ w. Covers w (if route_name v == route then challenge k v best else best)) e
          (rw (ap (λ w. route_name w == route) e ∙ r) (challenge-Covers v k best))
champion-Covers u route (suc i) k (v ∷ vs) best h r = champion-Covers u route i (k + 1) vs _ h r

-- The champion is the evaluation at its place.
abbrev IsAt : List Evaluation → Option (ℕ × Evaluation) → Type 0
IsAt all none = Unit
IsAt all (some (j, w)) = nth j all ≡ some w

challenge-IsAt :
    (all : List Evaluation) (v : Evaluation) (i : ℕ) (best : Option (ℕ × Evaluation))
    → nth i all ≡ some v
    → IsAt all best
    → IsAt all (challenge i v best)
challenge-IsAt all v i none e h = e
challenge-IsAt all v i (some (j, w)) e h = elim (Bool-cases (outranks v w)) [
  | inl q ↦ rw q e
  | inr q ↦ rw q h
]

champion-IsAt :
    (all : List Evaluation) (route : String) (k : ℕ) (vs : List Evaluation)
    (best : Option (ℕ × Evaluation))
    → ((i : ℕ) (v : Evaluation) → nth i vs ≡ some v → nth (k + i) all ≡ some v)
    → IsAt all best
    → IsAt all (champion route k vs best)
unfolding champion
champion-IsAt all route k [] best f h = h
champion-IsAt all route k (v ∷ vs) best f h =
    champion-IsAt all route (k + 1) vs _ later (next (route_name v == route))
  where
    later : (i : ℕ) (w : Evaluation) → nth i vs ≡ some w → nth (k + 1 + i) all ≡ some w
    later i w e = subst (λ n. nth n all ≡ some w) (omega arith) (f (suc i) w e)

    next : (b : Bool) → IsAt all (if b then challenge k v best else best)
    next true =
        challenge-IsAt all v k best (subst (λ n. nth n all ≡ some v) (omega arith) (f 0 v refl)) h
    next false = h

-- What stands at a place afterwards.
annotated : Scene → List Evaluation → ℕ → Option Evaluation → Option Evaluation
annotated sc all i none = none
annotated sc all i (some v) = some (demoted sc i v (champion (route_name v) 0 all none))

nth-annotate_from :
    (sc : Scene) (all : List Evaluation) (k i : ℕ) (vs : List Evaluation)
    → nth i (annotate_from sc all k vs) ≡ annotated sc all (k + i) (nth i vs)
unfolding annotate_from annotated
nth-annotate_from sc all k i [] = refl
nth-annotate_from sc all k zero (v ∷ vs) =
    ap (λ n. some (demoted sc n v (champion (route_name v) 0 all none))) (omega arith)
nth-annotate_from sc all k (suc i) (v ∷ vs) =
    nth-annotate_from sc all (k + 1) i vs ∙ ap (λ n. annotated sc all n (nth i vs)) (omega arith)

some_eq : (u v : Evaluation) → some u ≡ some v → u ≡ v
some_eq u v e = ap (λ o. or_else o u) e

-- The evaluation that a safe one was, the champion of its route.
abbrev IsChampion : List Evaluation → ℕ → Evaluation → Type 0
IsChampion all i v = champion (route_name v) 0 all none ≡ some (i, v)

eqb_eq : (i j : ℕ) → eqb i j ≡ true → i ≡ j
eqb_eq i j h = ground arith

blocked_safe : blocked ≢ safe_to_execute
blocked_safe h = ground arith

demoted-safe :
    (sc : Scene) (all : List Evaluation) (i : ℕ) (u v : Evaluation) (best : Option (ℕ × Evaluation))
    → nth i all ≡ some u
    → Covers u best
    → IsAt all best
    → demoted sc i u best ≡ v
    → v.decision ≡ safe_to_execute
    → (u ≡ v) × (best ≡ some (i, v))
unfolding demoted
demoted-safe sc all i u v none at c h = absurd c
demoted-safe sc all i u v (some (j, w)) at c h = elim (Bool-cases (eqb i j)) [
  | inl q ↦ rw q (λ e d.
      let ij : i ≡ j = eqb_eq i j q in
      let uw : u ≡ w = some_eq u w (sym at ∙ ap (λ n. nth n all) ij ∙ h) in
      (e, ap₂ (λ n x. some (n, x)) (sym ij) (sym uw ∙ e)))
  | inr q ↦ rw q (λ e d. absurd (blocked_safe (ap (λ x. x.decision) e ∙ d)))
]

place_eq :
    (j i : ℕ) (w v : Evaluation)
    → ◌≡◌ {A = Option (ℕ × Evaluation)} (some (j, w)) (some (i, v))
    → j ≡ i
place_eq j i w v e = ap (λ o. place_of o j) e
  where
    place_of : Option (ℕ × Evaluation) → ℕ → ℕ
    place_of none n = n
    place_of (some (m, _)) n = m

annotated_from :
    (sc : Scene) (vs : List Evaluation) (i : ℕ) (v : Evaluation) (o : Option Evaluation)
    → nth i vs ≡ o
    → annotated sc vs i o ≡ some v
    → v.decision ≡ safe_to_execute
    → (nth i vs ≡ some v) × IsChampion vs i v
unfolding annotated
annotated_from sc vs i v none e k d = ground arith
annotated_from sc vs i v (some u) e k d =
    let best = champion (route_name u) 0 vs none in
    let (uv, c) =
      demoted-safe sc vs i u v best e
        (champion-Covers u (route_name u) i 0 vs none e (eq_refl (route_name u)))
        (champion-IsAt vs (route_name u) 0 vs none
          (λ n w h. subst (λ n'. nth n' vs ≡ some w) (omega arith) h) tt)
        (some_eq (demoted sc i u best) v k) d in
    (e ∙ ap some uv, ap (λ w. champion (route_name w) 0 vs none) (sym uv) ∙ c)

-- A safe evaluation at a place afterwards stood there before, and is the champion of its route.
annotated-safe :
    (sc : Scene) (vs : List Evaluation) (i : ℕ) (v : Evaluation)
    → nth i (annotate_alternatives sc vs) ≡ some v
    → v.decision ≡ safe_to_execute
    → (nth i vs ≡ some v) × IsChampion vs i v
unfolding annotate_alternatives
annotated-safe sc vs i v h d =
    annotated_from sc vs i v (nth i vs) refl
      (ap (λ n. annotated sc vs n (nth i vs)) (omega arith)
        ∙ sym (nth-annotate_from sc vs 0 i vs)
        ∙ h)
      d

covered :
    (u v : Evaluation) (i : ℕ) (best : Option (ℕ × Evaluation))
    → Covers u best
    → best ≡ some (i, v)
    → outranks u v ≡ false
covered u v i none c e = absurd c
covered u v i (some (j, w)) c e = subst (λ o. Covers u o) e c

-- Of the evaluations of a route at most one stays safe: if one is safe afterwards, it was so before,
-- none of its route outranked it, and no other of its route is safe afterwards.
pub annotate_alternatives-best :
    (sc : Scene) (vs : List Evaluation) (i : ℕ) (v : Evaluation)
    → nth i (annotate_alternatives sc vs) ≡ some v
    → v.decision ≡ safe_to_execute
    → (nth i vs ≡ some v)
      × ((j : ℕ) (w : Evaluation)
          → nth j vs ≡ some w
          → route_name w ≡ route_name v
          → outranks w v ≡ false)
      × ((j : ℕ) (w : Evaluation)
          → nth j (annotate_alternatives sc vs) ≡ some w
          → route_name w ≡ route_name v
          → w.decision ≡ safe_to_execute
          → j ≡ i)
annotate_alternatives-best sc vs i v h d =
    let (e, c) = annotated-safe sc vs i v h d in
    (
      e,
      (λ j w k r.
          covered w v i (champion (route_name v) 0 vs none)
            (champion-Covers w (route_name v) j 0 vs none k
              ((eq_iff (route_name w) (route_name v)).1 r))
            c),
      (λ j w k r d'.
          let (_, c') = annotated-safe sc vs j w k d' in
          place_eq j i w v (sym c' ∙ ap (λ t. champion t 0 vs none) r ∙ c)),
    )
