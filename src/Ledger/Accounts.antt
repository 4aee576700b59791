-- ===== src/Ledger/Accounts.antt =====
-- What a read of connectors/paper/ledger.py sees after each write.
use fedr.Base.{String, ◌≡◌, refl, ◌&&◌, arith, ◌==◌, eq_iff, if◌then◌else◌}
use fedr.Int.{◌+ℤ◌}
use fedr.Decimal.{Decimal}
use fedr.Dict.{insert, lookup-insert}
use fedr.Ledger.{Balance, PaperLedger, get, put, acct, balances, add_free, touched}

pub get-put :
    (v a : String) (b : Balance) (l : PaperLedger) (v' a' : String)
    → get (put v a b l) v' a' ≡ (if v == v' && a == a' then b else get l v' a')
unfolding get put balances
get-put v a b l v' a' = ground (
  arith,
  eq_iff v v',
  eq_iff a a',
  lookup-insert v v' (insert a b (balances l v)) l.bal,
  lookup-insert a a' b (balances l v),
)

pub get-put_self : (v a : String) (b : Balance) (l : PaperLedger) → get (put v a b l) v a ≡ b
get-put_self v a b l = ground (arith, get-put v a b l v a, eq_iff v v, eq_iff a a)

-- To enter an account changes no balance.
pub get-acct :
    (v a : String) (l : PaperLedger) (v' a' : String) → get (acct v a l) v' a' ≡ get l v' a'
unfolding acct
get-acct v a l v' a' = ground (arith, get-put v a (get l v a) l v' a', eq_iff v v', eq_iff a a')

pub get-add_free :
    (v a : String) (x : Decimal) (l : PaperLedger) (v' a' : String)
    → get (add_free v a x l) v' a' ≡ (
        if v == v' && a == a'
        then record { free = (get l v a).free +ℤ x; used = (get l v a).used }
        else get l v' a')
unfolding add_free
get-add_free v a x l v' a' =
    get-put v a (record { free = (get l v a).free +ℤ x; used = (get l v a).used }) l v' a'

pub get-touched : (l : PaperLedger) (v a : String) → get (touched l) v a ≡ get l v a
unfolding get touched
get-touched l v a = refl
