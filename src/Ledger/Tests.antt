-- ===== src/Ledger/Tests.antt =====
-- The paper ledger of connectors/paper/ledger.py on small balances.
use fedr.Base.{
  String, ◌≡◌, refl, true, false, Option, none, some, List, [], ◌∷◌, arith, ◌==◌, if◌then◌else◌,
  ◌≢◌, eq_iff,
}
use mathlib.Core.Bool.{false≢true}
use fedr.Int.{pos, negsuc, ◌+ℤ◌, ◌-ℤ◌}
use fedr.Decimal.{Decimal}
use fedr.Dict.{lookup, insert}
use fedr.Ledger.{
  PaperLedger, Balance, buy, sell, done, insufficient, get, put, acct, balances, touched, reserve,
  release, adjust, settle_fill, settle_perp, collateral, pay, add_free, load, dump, total_usd,
}
use fedr.Ledger.Reserve.{IsSolvent, release-reserve, reserve-conserves}
use fedr.Ledger.Settle.{settle_fill-get, settle_perp-close-open}
use fedr.Ledger.Shorts.{settle_perp-close_two}
use fedr.Ledger.Calls.{Call, run, run-IsSolvent}

abbrev book : PaperLedger
book = record {
  bal =
      (
        "kraken",
        ("USDC", record { free = pos 1200; used = pos 100 })
            ∷ ("BTC", record { free = pos 40; used = pos 0 })
            ∷ [],
      )
      ∷ [];
  dirty = false;
}

abbrev calls : List Call
calls =
    Call.reserve "kraken" "USDC" (pos 500)
    ∷ Call.settle_fill "kraken" "BTC" "USDC" buy (pos 7) (pos 450) (pos 2)
    ∷ Call.release "kraken" "USDC" (pos 48)
    ∷ Call.adjust "kraken" "BTC" (negsuc 99)
    ∷ []

-- The last call asks for more than there is, and changes nothing.
run-calls : get (run calls book) "kraken" "BTC" ≡ record { free = pos 47; used = pos 0 }
unfolding run fedr.Ledger.Calls.call reserve settle_fill release adjust get put acct balances
    touched pay add_free lookup insert ◌+ℤ◌ ◌-ℤ◌
run-calls = refl

book-IsSolvent : IsSolvent book
unfolding get lookup
book-IsSolvent v a = ground arith

run-IsSolvent_example : IsSolvent (run calls book)
run-IsSolvent_example = run-IsSolvent calls book (omega arith) book-IsSolvent

release-reserve_example :
    get (release "kraken" "USDC" (pos 9) (reserve "kraken" "USDC" (pos 9) book).0) "kraken" "BTC"
    ≡ get book "kraken" "BTC"
unfolding get lookup
release-reserve_example =
    release-reserve "kraken" "USDC" (pos 9) book "kraken" "BTC" (omega arith) (omega arith)

reserve-conserves_example :
    let c = get (reserve "kraken" "USDC" (pos 9) book).0 "kraken" "USDC" in
    c.free +ℤ c.used ≡ pos 1300
unfolding get lookup ◌+ℤ◌
reserve-conserves_example = reserve-conserves "kraken" "USDC" (pos 9) book "kraken" "USDC"

btc-ne-usdc : ◌≢◌ {A = String} "BTC" "USDC"
btc-ne-usdc e = absurd (false≢true ((eq_iff "BTC" "USDC").1 e))

settle_fill-get_example :
    let bought = settle_fill "kraken" "BTC" "USDC" buy (pos 7) (pos 90) (pos 2) true book in
    let sold = settle_fill "kraken" "BTC" "USDC" sell (pos 7) (pos 90) (pos 2) true book in
    (get bought "kraken" "USDC" ≡ record { free = pos 1200; used = pos 8 })
    × (get sold "kraken" "USDC" ≡ record { free = pos 1288; used = pos 100 })
unfolding get lookup ◌+ℤ◌ ◌-ℤ◌
settle_fill-get_example =
    settle_fill-get "kraken" "BTC" "USDC" (pos 7) (pos 90) (pos 2) book "kraken" "USDC" btc-ne-usdc

settle_perp-close-open_example :
    let opened = settle_perp "kraken" "USDC" sell (pos 150) (pos 1) false book in
    let closed = settle_perp "kraken" "USDC" buy (pos 120) (pos 1) true opened in
    let c = get closed "kraken" "USDC" in
    (c.free +ℤ c.used ≡ pos 1328)
    × ((get opened "kraken" (collateral "USDC")).free ≡ pos 150)
    × ((get closed "kraken" (collateral "USDC")).free ≡ pos 0)
    × (get closed "kraken" "BTC" ≡ record { free = pos 40; used = pos 0 })
unfolding get lookup ◌+ℤ◌ ◌-ℤ◌ collateral
settle_perp-close-open_example =
    settle_perp-close-open "kraken" "USDC" (pos 150) (pos 120) (pos 1) (pos 1) book "kraken" "BTC"
      refl

-- One USDC is worth 1, and nothing else has a price.
abbrev price_of : String → Option Decimal
price_of a = if a == "USDC" then some (pos 1000000000000000000) else none

-- Shorts of 50 and 60 are opened; the first is closed at 40 and the second at 55.
settle_perp-close_two_example :
    let both =
      settle_perp "kraken" "USDC" sell
        (pos 60)
        (pos 1)
        false
        (settle_perp "kraken" "USDC" sell (pos 50) (pos 1) false book) in
    let one = settle_perp "kraken" "USDC" buy (pos 40) (pos 1) true both in
    let none_left = settle_perp "kraken" "USDC" buy (pos 55) (pos 1) true one in
    let c = get one "kraken" "USDC" in
    let d = get none_left "kraken" "USDC" in
    ((get both "kraken" (collateral "USDC")).free ≡ pos 110)
    × ((get one "kraken" (collateral "USDC")).free ≡ pos 0)
    × (c.free +ℤ c.used ≡ pos 1367)
    × (d.free +ℤ d.used ≡ pos 1311)
unfolding get lookup ◌+ℤ◌ ◌-ℤ◌ collateral
settle_perp-close_two_example =
    settle_perp-close_two "kraken" "USDC" (pos 50) (pos 60) (pos 40) (pos 55) (pos 1) (pos 1)
      (pos 1) (pos 1) book refl
