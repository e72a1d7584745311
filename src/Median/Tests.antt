-- ===== src/Median/Tests.antt =====
-- Runs of pkg/math/voteweighted/voteweighted.go on concrete reports.
use mathlib.Core.List.Perm
use orynx.Prelude.{
  ℕ, ◌*◌, ◌/◌, ◌^◌, ◌≡◌, refl, [], ◌∷◌, Option, none, some, Text, codes, ◌==◌, leb, if◌then◌else◌,
  arith,
}
use orynx.Prelude.Dict.{Dict, get, put}
use orynx.Prelude.Int.{ℤ, pos}
use orynx.Prelude.Sorting.{by_insertion}
use orynx.CurrencyPair.{CurrencyPair, CurrencyPair-discrete}
use orynx.Median.{
  PricePerValidator, PriceInfo, Prices, MedianEnv, compute_median, median, meets_threshold,
  collect_prices, select_prices, add_prices, median_loop,
}
use orynx.Median.Weights.{IsMedian}
use orynx.Median.Correct.{compute_median-IsMedian}
use orynx.Median.Collect.{reports, for_pair, summary}
use orynx.Median.Quorum.{
  NoPanic, quorum_price, with_sorter, median-quorum_price, median_deterministic,
}

abbrev vote : ℕ → ℕ → PricePerValidator
vote w p = record { vote_weight = w; price = pos p }

abbrev three_votes : PriceInfo
three_votes = record { prices = vote 1 10 ∷ vote 3 20 ∷ vote 2 15 ∷ []; total_weight = 6 }

median_of_three : compute_median by_insertion three_votes ≡ some (pos 15)
unfolding compute_median median_loop
median_of_three = refl

compute_median-IsMedian_example :
    (m : ℤ) × (compute_median by_insertion three_votes ≡ some m)
    × IsMedian (three_votes.total_weight / 2) three_votes.prices m
compute_median-IsMedian_example = compute_median-IsMedian by_insertion three_votes (λ e. cc) refl

abbrev btc : CurrencyPair
btc = record { base = codes "BTC"; quote = codes "USD" }

abbrev eth : CurrencyPair
eth = record { base = codes "ETH"; quote = codes "USD" }

-- Three validators with 10 tokens each; the third one is not in the store.
abbrev pub bonded : Text → Option ℕ
bonded [] = none
bonded (b ∷ bz) = if b == b'x' then none else some 10

-- `LegacyDec` with 18 decimals, cut off.
abbrev pub env : MedianEnv
env = record {
  validator = bonded;
  total_bonded_tokens = some 30;
  LegacyDec = ℕ;
  from_int = λ n. n * 10 ^ 18;
  quo = λ a b. if b == 0 then none else some (a * 10 ^ 18 / b);
  gte = λ a b. leb b a;
  threshold = 666666666666666666;
  sorter = by_insertion;
}

abbrev providers : Dict Text Prices
providers =
    (codes "a", (btc, some (pos 100)) ∷ (eth, some (pos 7)) ∷ [])
    ∷ (codes "b", (btc, some (pos 102)) ∷ (eth, none) ∷ [])
    ∷ (codes "x", (btc, some (pos 999)) ∷ [])
    ∷ []

abbrev providers' : Dict Text Prices
providers' =
    (codes "x", (btc, some (pos 999)) ∷ [])
    ∷ (codes "a", (btc, some (pos 100)) ∷ (eth, some (pos 7)) ∷ [])
    ∷ (codes "b", (btc, some (pos 102)) ∷ (eth, none) ∷ [])
    ∷ []

median_of_providers : median env providers ≡ some ((btc, some (pos 100)) ∷ [])
unfolding median select_prices meets_threshold compute_median median_loop collect_prices add_prices
    get put
median_of_providers = ground arith

pub env-NoPanic : NoPanic env 30
unfolding meets_threshold
env-NoPanic weight e = cc

median-quorum_price_example :
    (prices : Prices) × (median env providers ≡ some prices)
    × ((cp : CurrencyPair)
        → get CurrencyPair-discrete cp prices
          ≡ quorum_price env 30 (summary (for_pair cp (reports bonded providers))))
median-quorum_price_example = median-quorum_price env providers refl env-NoPanic

median_deterministic_example :
    (prices prices' : Prices) × (median env providers ≡ some prices)
    × (median (with_sorter env by_insertion) providers' ≡ some prices')
    × ((cp : CurrencyPair)
        → get CurrencyPair-discrete cp prices ≡ get CurrencyPair-discrete cp prices')
median_deterministic_example =
    median_deterministic env by_insertion providers providers' refl env-NoPanic (Perm.refl _)
