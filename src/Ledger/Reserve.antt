-- ===== src/Ledger/Reserve.antt =====
-- `reserve`, `release` and `adjust` of connectors/paper/ledger.py.
use fedr.Base.{String, ◌≡◌, Bool, false, ◌&&◌, arith, ◌==◌, eq_iff, eq_refl, if◌then◌else◌, not}
use fedr.Int.{
  pos, ◌+ℤ◌, ◌-ℤ◌, ltb_ℤ, leb_ℤ, min_ℤ, ◌≤ℤ◌, int_laws, sub-add_cancel, add-sub_cancel, +ℤ_parts,
}
use fedr.Decimal.{Decimal}
use fedr.Ledger.{PaperLedger, done, insufficient, get, acct, reserve, release, adjust}
use fedr.Ledger.Accounts.{get-put, get-acct, get-touched}

-- A reservation of no more than is free moves that much from free to used in its account, and one
-- of more raises. No other account changes, and after a raise none does.
pub reserve-get :
    (v a : String) (x : Decimal) (l : PaperLedger) (v' a' : String)
    → let b = get l v a in
      let (l', r) = reserve v a x l in
      (r ≡ (if leb_ℤ x b.free then done tt else insufficient))
      × (get l' v' a' ≡ (
          if leb_ℤ x b.free && (v == v' && a == a')
          then record { free = b.free -ℤ x; used = b.used +ℤ x }
          else get l v' a'))
unfolding reserve
reserve-get v a x l v' a' = grind (
  arith,
  get-touched,
  get-acct v a l v a,
  get-acct v a l v' a',
  get-put v a (record { free = (get l v a).free -ℤ x; used = (get l v a).used +ℤ x }) (acct v a l)
      v' a',
)

-- A release gives back what it is asked to, or what is in use if that is less.
pub release-get :
    (v a : String) (x : Decimal) (l : PaperLedger) (v' a' : String)
    → let b = get l v a in
      let take = min_ℤ x b.used in
      get (release v a x l) v' a' ≡ (
        if v == v' && a == a'
        then record { free = b.free +ℤ take; used = b.used -ℤ take }
        else get l v' a')
unfolding release
release-get v a x l v' a' =
    let b = get l v a in
    let take = min_ℤ x b.used in
    grind (
      arith,
      get-touched,
      get-acct v a l v a,
      get-acct v a l v' a',
      get-put v a (record { free = b.free +ℤ take; used = b.used -ℤ take }) (acct v a l) v' a',
    )

-- An adjustment books the change, or raises and changes no balance. It raises exactly when the
-- free balance would fall below 0 and the caller has not allowed that.
pub adjust-get :
    (v a : String) (x : Decimal) (ok : Bool) (l : PaperLedger) (v' a' : String)
    → let b = get l v a in
      let (l', r) = adjust v a x ok l in
      let refused = ltb_ℤ (b.free +ℤ x) (pos 0) && not ok in
      (r ≡ (if refused then insufficient else done (b.free +ℤ x)))
      × (get l' v' a' ≡ (
          if not refused && (v == v' && a == a')
          then record { free = b.free +ℤ x; used = b.used }
          else get l v' a'))
unfolding adjust
adjust-get v a x ok l v' a' =
    let b = get l v a in
    grind (
      arith,
      get-touched,
      get-acct v a l v a,
      get-acct v a l v' a',
      get-put v a (record { free = b.free +ℤ x; used = b.used }) (acct v a l) v' a',
    )

-- Reserving an amount and releasing it again restores every account.
pub release-reserve :
    (v a : String) (x : Decimal) (l : PaperLedger) (v' a' : String)
    → pos 0 ≤ℤ (get l v a).used
    → x ≤ℤ (get l v a).free
    → get (release v a x (reserve v a x l).0) v' a' ≡ get l v' a'
release-reserve v a x l v' a' h k =
    let l' = (reserve v a x l).0 in
    let b = get l v a in
    grind (
      arith,
      (reserve-get v a x l v a).1,
      (reserve-get v a x l v' a').1,
      release-get v a x l' v' a',
      +ℤ_parts b.used x,
      sub-add_cancel b.free x,
      add-sub_cancel b.used x,
      eq_iff v v',
      eq_iff a a',
      eq_refl v,
      eq_refl a,
    )

-- No free and no reserved amount is below 0.
abbrev pub IsSolvent : PaperLedger → Type 0
IsSolvent l = (v a : String) → (pos 0 ≤ℤ (get l v a).free) × (pos 0 ≤ℤ (get l v a).used)

-- Reservations move money and make none: what an account holds in all stays, whatever the outcome.
pub reserve-conserves :
    (v a : String) (x : Decimal) (l : PaperLedger) (v' a' : String)
    → let b = get l v' a' in
      let c = get (reserve v a x l).0 v' a' in c.free +ℤ c.used ≡ b.free +ℤ b.used
reserve-conserves v a x l v' a' =
    grind (int_laws, (reserve-get v a x l v' a').1, eq_iff v v', eq_iff a a')

pub reserve-IsSolvent :
    (v a : String) (x : Decimal) (l : PaperLedger)
    → pos 0 ≤ℤ x
    → IsSolvent l
    → IsSolvent (reserve v a x l).0
reserve-IsSolvent v a x l h s v' a' =
    grind (int_laws, (reserve-get v a x l v' a').1, s v a, s v' a', eq_iff v v', eq_iff a a')

pub release-IsSolvent :
    (v a : String) (x : Decimal) (l : PaperLedger)
    → pos 0 ≤ℤ x
    → IsSolvent l
    → IsSolvent (release v a x l)
release-IsSolvent v a x l h s v' a' =
    grind (int_laws, release-get v a x l v' a', s v a, s v' a', eq_iff v v', eq_iff a a')

pub adjust-IsSolvent :
    (v a : String) (x : Decimal) (l : PaperLedger)
    → IsSolvent l
    → IsSolvent (adjust v a x false l).0
adjust-IsSolvent v a x l s v' a' =
    grind (int_laws, (adjust-get v a x false l v' a').1, s v a, s v' a', eq_iff v v', eq_iff a a')
