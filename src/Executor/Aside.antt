-- ===== src/Executor/Aside.antt =====
-- What `_reserve` and `_release_unused` of engine/execution/executor.py do to the paper balances.
use fedr.Base.{
  String, Bool, true, false, ◌&&◌, ◌≡◌, refl, arith, ◌==◌, eq_iff, eq_refl, if◌then◌else◌, ◌∙◌, sym,
  ap,
}
use fedr.Int.{pos, +ℤ_zero, add-sub_cancel, ◌+ℤ◌, ◌-ℤ◌, ◌≤ℤ◌, ltb_ℤ, max_ℤ, int_laws}
use fedr.Decimal.{Decimal, zero_dec}
use fedr.Ledger.{PaperLedger, Outcome, done, insufficient, get, reserve, release}
use fedr.Ledger.Reserve.{reserve-get, release-get, release-reserve}
use fedr.Inventory.{Need}
use fedr.Orders.{OrderResult, quote_amount}
use fedr.Executor.Reserving.{reserve_pair, after_buy, after_sell, spent}

abbrev pub SameBalances : PaperLedger → PaperLedger → Type 0
SameBalances l l' = (v a : String) → get l' v a ≡ get l v a

reserve-insufficient :
    (v a : String) (x : Decimal) (l : PaperLedger)
    → (reserve v a x l).1 ≡ insufficient
    → SameBalances l (reserve v a x l).0
reserve-insufficient v a x l h v' a' = grind (arith, reserve-get v a x l v' a')

reserve-done :
    (v a : String) (x : Decimal) (l : PaperLedger)
    → (reserve v a x l).1 ≡ done tt
    → x ≤ℤ (get l v a).free
reserve-done v a x l h = grind (arith, reserve-get v a x l v a)

release-SameBalances :
    (v a : String) (x : Decimal) (l l' : PaperLedger)
    → SameBalances l l'
    → SameBalances (release v a x l) (release v a x l')
release-SameBalances v a x l l' h v' a' =
    grind (arith, release-get v a x l v' a', release-get v a x l' v' a', h v a, h v' a')

-- After the first reservation, a refusal of the second gives the first back.
after_sell-refused :
    (buy : Need) (l : PaperLedger) (r : PaperLedger × Outcome (Unit {0}))
    → (r.1 ≡ insufficient → SameBalances l r.0)
    → (after_sell buy r).1 ≡ false
    → SameBalances (release buy.venue buy.asset buy.amount l) (after_sell buy r).0
after_sell-refused buy l (l', done _) h k = ground arith
after_sell-refused buy l (l', insufficient) h k =
    release-SameBalances buy.venue buy.asset buy.amount l l' (h refl)

after_buy-refused :
    (buy sell : Need) (l : PaperLedger) (r : PaperLedger × Outcome (Unit {0}))
    → (r.1 ≡ insufficient → SameBalances l r.0)
    → (r.1 ≡ done tt → SameBalances l (release buy.venue buy.asset buy.amount r.0))
    → (after_buy buy sell r).1 ≡ false
    → SameBalances l (after_buy buy sell r).0
after_buy-refused buy sell l (l', insufficient) h g k = h refl
after_buy-refused buy sell l (l', done _) h g k =
    let s =
      after_sell-refused buy l' (reserve sell.venue sell.asset sell.amount l')
        (reserve-insufficient sell.venue sell.asset sell.amount l') k in
    λ v a. s v a ∙ g refl v a

-- A reservation of the two legs that is refused, at either of them, leaves every balance of the
-- paper ledger as it was.
pub reserve_pair-refused :
    (buy sell : Need) (l : PaperLedger)
    → pos 0 ≤ℤ (get l buy.venue buy.asset).used
    → (reserve_pair buy sell l).1 ≡ false
    → (v a : String) → get (reserve_pair buy sell l).0 v a ≡ get l v a
unfolding reserve_pair
reserve_pair-refused buy sell l h k =
    after_buy-refused buy sell l (reserve buy.venue buy.asset buy.amount l)
      (reserve-insufficient buy.venue buy.asset buy.amount l)
      (λ d v a.
        release-reserve buy.venue buy.asset buy.amount l v a h
          (reserve-done buy.venue buy.asset buy.amount l d))
      k

-- The part of an amount of a need that concerns an account.
abbrev pub charged : Need → Decimal → String → String → Decimal
charged n x v a = if n.venue == v && n.asset == a then x else zero_dec

reserve-used :
    (n : Need) (l : PaperLedger) (v a : String)
    → (reserve n.venue n.asset n.amount l).1 ≡ done tt
    → (get (reserve n.venue n.asset n.amount l).0 v a).used
      ≡ (get l v a).used +ℤ charged n n.amount v a
reserve-used n l v a h =
    grind (int_laws, reserve-get n.venue n.asset n.amount l v a, eq_iff n.venue v, eq_iff n.asset a)

release-used :
    (n : Need) (x : Decimal) (l : PaperLedger) (v a : String)
    → x ≤ℤ (get l n.venue n.asset).used
    → (get (release n.venue n.asset x l) v a).used ≡ (get l v a).used -ℤ charged n x v a
release-used n x l v a h =
    grind (int_laws, release-get n.venue n.asset x l v a, eq_iff n.venue v, eq_iff n.asset a)

-- What is set aside at an account, after a step that sets the amount of a need aside.
abbrev SetsAside : Need → PaperLedger → PaperLedger → Type 0
SetsAside n l l' = (v a : String) → (get l' v a).used ≡ (get l v a).used +ℤ charged n n.amount v a

after_sell-used :
    (buy sell : Need) (l : PaperLedger) (r : PaperLedger × Outcome (Unit {0}))
    → (r.1 ≡ done tt → SetsAside sell l r.0)
    → (after_sell buy r).1 ≡ true
    → SetsAside sell l (after_sell buy r).0
after_sell-used buy sell l (l', insufficient) h k = ground arith
after_sell-used buy sell l (l', done _) h k = h refl

abbrev SetsBothAside : Need → Need → PaperLedger → PaperLedger → Type 0
SetsBothAside buy sell l l' =
    (v a : String)
    → (get l' v a).used
      ≡ ((get l v a).used +ℤ charged buy buy.amount v a) +ℤ charged sell sell.amount v a

after_buy-used :
    (buy sell : Need) (l : PaperLedger) (r : PaperLedger × Outcome (Unit {0}))
    → (r.1 ≡ done tt → SetsAside buy l r.0)
    → (after_buy buy sell r).1 ≡ true
    → SetsBothAside buy sell l (after_buy buy sell r).0
after_buy-used buy sell l (l', insufficient) h k = ground arith
after_buy-used buy sell l (l', done _) h k = λ v a.
    let u =
      after_sell-used buy sell l' (reserve sell.venue sell.asset sell.amount l')
        (λ d w b. reserve-used sell l' w b d) k v a in
    u ∙ ap (λ x. x +ℤ charged sell sell.amount v a) (h refl v a)

-- A reservation of the two legs that is granted sets both amounts aside.
pub reserve_pair-used :
    (buy sell : Need) (l : PaperLedger)
    → (reserve_pair buy sell l).1 ≡ true
    → SetsBothAside buy sell l (reserve_pair buy sell l).0
unfolding reserve_pair
reserve_pair-used buy sell l k =
    after_buy-used buy sell l (reserve buy.venue buy.asset buy.amount l)
      (λ d v a. reserve-used buy l v a d) k

-- What the selling leg uses up of what is set aside for it: the quote amount of a short that is
-- filled, or the base that is sold.
abbrev pub used_by : Bool → OrderResult → Decimal
used_by true r = if ltb_ℤ zero_dec r.filled then quote_amount r else zero_dec
used_by false r = r.filled

-- The two submissions take what they spend from what is set aside.
abbrev pub Spends :
    Bool → Need → Need → OrderResult → OrderResult → PaperLedger → PaperLedger → Type 0
Spends perp_short buy sell b s l l' =
    (v a : String)
    → (get l' v a).used
      ≡ ((get l v a).used -ℤ charged buy (spent b) v a) -ℤ charged sell (used_by perp_short s) v a

charged-at : (n : Need) (x : Decimal) → charged n x n.venue n.asset ≡ x
charged-at n x = rw (eq_refl n.venue, eq_refl n.asset) refl

charged-positive : (n : Need) (x : Decimal) (v a : String) → pos 0 ≤ℤ x → pos 0 ≤ℤ charged n x v a
charged-positive n x v a h = ground arith

enough : (u p q t x : Decimal) → pos 0 ≤ℤ u → p ≡ x → pos 0 ≤ℤ q → t ≡ (u +ℤ p) +ℤ q → x ≤ℤ t
enough u p q t x h e k r = grind int_laws

less_first : (u p q t : Decimal) → t ≡ (u +ℤ p) +ℤ q → t -ℤ p ≡ u +ℤ q
less_first u p q t h = grind int_laws

-- Two releases of what is set aside beside another amount leave that amount.
two_releases-used :
    (buy sell : Need) (x y : Decimal) (u : String → String → Decimal) (l : PaperLedger)
    → ((v a : String) → pos 0 ≤ℤ u v a)
    → pos 0 ≤ℤ x
    → pos 0 ≤ℤ y
    → ((v a : String) → (get l v a).used ≡ (u v a +ℤ charged buy x v a) +ℤ charged sell y v a)
    → (v a : String)
    → (get (release sell.venue sell.asset y (release buy.venue buy.asset x l)) v a).used ≡ u v a
two_releases-used buy sell x y u l nonneg x0 y0 h v a =
    let l1 = release buy.venue buy.asset x l in
    let bought = h buy.venue buy.asset in
    let first = λ (w c : String). release-used buy x l w c (
      enough (u buy.venue buy.asset) (charged buy x buy.venue buy.asset)
        (charged sell y buy.venue buy.asset) _ x (nonneg buy.venue buy.asset) (charged-at buy x)
        (charged-positive sell y buy.venue buy.asset y0) bought) in
    let second = λ (w c : String).
      first w c ∙ less_first (u w c) (charged buy x w c) (charged sell y w c) _ (h w c) in
    let sold = release-used sell y l1 v a (
      enough (u sell.venue sell.asset) (charged sell y sell.venue sell.asset) (pos 0) _ y
        (nonneg sell.venue sell.asset) (charged-at sell y) (ground arith)
        (second sell.venue sell.asset ∙ sym (+ℤ_zero _))) in
    sold
    ∙ ap (λ t. t -ℤ charged sell y v a) (second v a)
    ∙ add-sub_cancel (u v a) (charged sell y v a)

charged_left :
    (n : Need) (x y : Decimal) (v a : String)
    → charged n (x -ℤ y) v a ≡ charged n x v a -ℤ charged n y v a
charged_left n x y v a = grind int_laws

left_over :
    (u b s c d t t' : Decimal)
    → t ≡ (u +ℤ b) +ℤ s
    → t' ≡ (t -ℤ c) -ℤ d
    → t' ≡ (u +ℤ (b -ℤ c)) +ℤ (s -ℤ d)
left_over u b s c d t t' h k = grind int_laws

max_zero : (x y : Decimal) → y ≤ℤ x → (max_ℤ zero_dec (x -ℤ y) ≡ x -ℤ y) × (pos 0 ≤ℤ x -ℤ y)
max_zero x y h = grind int_laws

-- Two releases of what is left of the amounts set aside leave nothing of them.
pub released-used :
    (perp_short : Bool) (buy sell : Need) (b s : OrderResult) (l l' : PaperLedger)
    → ((v a : String) → pos 0 ≤ℤ (get l v a).used)
    → (reserve_pair buy sell l).1 ≡ true
    → Spends perp_short buy sell b s (reserve_pair buy sell l).0 l'
    → spent b ≤ℤ buy.amount
    → used_by perp_short s ≤ℤ sell.amount
    → (v a : String)
    → (get
        (release sell.venue sell.asset
          (max_ℤ zero_dec (sell.amount -ℤ used_by perp_short s))
          (release buy.venue buy.asset (max_ℤ zero_dec (buy.amount -ℤ spent b)) l'))
        v
        a).used
      ≡ (get l v a).used
released-used perp_short buy sell b s l l' nonneg k sp b1 s1 v a =
    let (p, p0) = max_zero buy.amount (spent b) b1 in
    let (q, q0) = max_zero sell.amount (used_by perp_short s) s1 in
    rw (p, q)
      (two_releases-used buy sell (buy.amount -ℤ spent b) (sell.amount -ℤ used_by perp_short s)
        (λ w c. (get l w c).used) l' nonneg p0 q0
        (λ w c.
          left_over (get l w c).used _ _ _ _ _ _ (reserve_pair-used buy sell l k w c) (sp w c)
          ∙ rw
              (
                charged_left buy buy.amount (spent b) w c,
                charged_left sell sell.amount (used_by perp_short s) w c,
              )
              refl)
        v a)
