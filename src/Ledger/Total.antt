-- ===== src/Ledger/Total.antt =====
-- `total_usd`, `load` and `dump` of connectors/paper/ledger.py.
use fedr.Base.{String, ◌≡◌, refl, Option, [], ◌∷◌, arith, or_else, Option-cases, inl, inr, ◌∙◌, ap}
use mathlib.Core.Path.{ap₂}
use fedr.Int.{
  pos, ◌+ℤ◌, ◌-ℤ◌, int_laws, +ℤ_cancel_right, shift-+ℤ, shift-+ℤ_back, min_ℤ, pos_part, neg_part,
}
use fedr.Decimal.{Decimal}
use fedr.Decimal.Laws.{zero-mul_dec}
use fedr.Dict.{Dict, lookup, insert, sum_by, sum_by-insert, sum_by-insert_new}
use fedr.Ledger.{
  Balance, PaperLedger, empty_balance, get, put, acct, balances, reserve, release, touched, load,
  dump, map_values, load_account, dump_account, worth, before_colon, usd_value, total_usd,
}

usd_value-empty :
    (price : String → Option Decimal) (a : String) → usd_value price a empty_balance ≡ pos 0
unfolding usd_value
usd_value-empty price a = grind (arith, zero-mul_dec)

usd_value-congr :
    (price : String → Option Decimal) (a : String) (b c : Balance)
    → b.free +ℤ b.used ≡ c.free +ℤ c.used
    → usd_value price a b ≡ usd_value price a c
unfolding usd_value
usd_value-congr price a b c h = ap (worth (price (before_colon a))) h

sum_by-nil : (price : String → Option Decimal) → sum_by (usd_value price) [] ≡ pos 0
unfolding sum_by
sum_by-nil price = refl

venue_usd-insert :
    (price : String → Option Decimal) (a : String) (b : Balance) (d : Dict Balance)
    → sum_by (usd_value price) (insert a b d)
        +ℤ usd_value price a (or_else (lookup a d) empty_balance)
      ≡ sum_by (usd_value price) d +ℤ usd_value price a b
venue_usd-insert price a b d = elim (Option-cases (lookup a d)) [
  | inl e ↦
      rw (e, usd_value-empty price a, sum_by-insert_new (usd_value price) a b d e) (omega int_laws)
  | inr (w, e) ↦ rw e (sum_by-insert (usd_value price) a b w d e)
]

-- A write changes the total by what the account counts for.
total_usd-put :
    (price : String → Option Decimal) (v a : String) (b : Balance) (l : PaperLedger)
    → total_usd price (put v a b l) +ℤ usd_value price a (get l v a)
      ≡ total_usd price l +ℤ usd_value price a b
unfolding total_usd put get balances
total_usd-put price v a b l =
    let whole = λ (_ : String) (d : Dict Balance). sum_by (usd_value price) d in
    elim (Option-cases (lookup v l.bal)) [
      | inl e ↦
          rw (e, sum_by-insert_new whole v _ l.bal e)
            (omega (
              int_laws,
              ap pos_part (venue_usd-insert price a b []),
              ap neg_part (venue_usd-insert price a b []),
              ap pos_part (sum_by-nil price),
              ap neg_part (sum_by-nil price),
            ))
      | inr (d, e) ↦ rw e (
          omega (
            int_laws,
            ap pos_part (sum_by-insert whole v (insert a b d) d l.bal e),
            ap neg_part (sum_by-insert whole v (insert a b d) d l.bal e),
            ap pos_part (venue_usd-insert price a b d),
            ap neg_part (venue_usd-insert price a b d),
          ))
    ]

-- A write that keeps what the account counts for keeps the total.
total_usd-put_same :
    (price : String → Option Decimal) (v a : String) (b : Balance) (l : PaperLedger)
    → b.free +ℤ b.used ≡ (get l v a).free +ℤ (get l v a).used
    → total_usd price (put v a b l) ≡ total_usd price l
total_usd-put_same price v a b l h = +ℤ_cancel_right _ _ (usd_value price a (get l v a)) (
    total_usd-put price v a b l
    ∙ ap (λ t. total_usd price l +ℤ t) (usd_value-congr price a b (get l v a) h))

total_usd-acct :
    (price : String → Option Decimal) (v a : String) (l : PaperLedger)
    → total_usd price (acct v a l) ≡ total_usd price l
unfolding acct
total_usd-acct price v a l = total_usd-put_same price v a (get l v a) l refl

total_usd-touched :
    (price : String → Option Decimal) (l : PaperLedger)
    → total_usd price (touched l) ≡ total_usd price l
unfolding total_usd touched
total_usd-touched price l = refl

-- Reserving, whether granted or refused, and releasing leave the value of the ledger as it was.
pub total_usd-reserve :
    (price : String → Option Decimal) (v a : String) (x : Decimal) (l : PaperLedger)
    → (total_usd price (reserve v a x l).0 ≡ total_usd price l)
      × (total_usd price (release v a x l) ≡ total_usd price l)
unfolding reserve release
total_usd-reserve price v a x l =
    let l' = acct v a l in
    let b = get l' v a in
    let take = min_ℤ x b.used in
    (
      ground (
        arith,
        total_usd-acct price v a l,
        total_usd-touched price (put v a (record { free = b.free -ℤ x; used = b.used +ℤ x }) l'),
        total_usd-put_same price v a (record { free = b.free -ℤ x; used = b.used +ℤ x }) l'
            (shift-+ℤ b.free b.used x),
      ),
      total_usd-touched price (put v a (record { free = b.free +ℤ take; used = b.used -ℤ take }) l')
          ∙ total_usd-put_same price v a (record { free = b.free +ℤ take; used = b.used -ℤ take })
              l' (shift-+ℤ_back b.free b.used take)
          ∙ total_usd-acct price v a l,
    )

load_assets : (d : Dict Balance) → map_values load_account (map_values dump_account d) ≡ d
load_assets [] = refl
load_assets (x ∷ d) = ap (◌∷◌ x) (load_assets d)

load_venues :
    (d : Dict (Dict Balance))
    → map_values (map_values load_account) (map_values (map_values dump_account) d) ≡ d
load_venues [] = refl
load_venues ((k, x) ∷ d) = ap₂ ◌∷◌ (ap (λ t. (k, t)) (load_assets x)) (load_venues d)

-- What `dump` saves, `load` restores.
pub load-dump : (l m : PaperLedger) → (load (dump l) m).bal ≡ l.bal
unfolding load dump
load-dump l m = load_venues l.bal
