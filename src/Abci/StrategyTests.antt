-- ===== src/Abci/StrategyTests.antt =====
-- Runs of abci/strategies on one tracked pair: caches, deltas and price bytes.
use orynx.Prelude.{
  ℕ, ◌≤◌, ◌<◌, ◌≡◌, ◌↔◌, ◌^◌, refl, List, [], ◌∷◌, Option, none, some, Result, ok, err, arith,
  length, ℕ_discrete,
}
use orynx.Prelude.Dict.{get, put}
use orynx.Prelude.Int.{pos, ◌-ℤ◌, ◌≤ℤ◌}
use orynx.OracleKeeper.{State, KeeperError, QuotePrice, price_not_exist}
use orynx.OracleKeeper.Store.{Listed, listed_store}
use orynx.OracleKeeper.Tests.{btc, tracked, tracked-Inv, btc-IsReadable}
use orynx.Abci.{Context, other_mode, maximum_price_size}
use orynx.Abci.Strategies.{
  OracleReader, DeltaCache, keeper_reader, reset_prices, get_on_chain_price, delta_encoded_price,
  delta_decoded_price,
}
use orynx.Abci.Strategies.BigInt.{
  big_int_gob, big_int_gob-IsGob, big_int_encode, length-big_int_encode_iff,
}
use orynx.Abci.Strategies.Lookups.{
  new_cache, Lookup, by_pair, by_id, answers, direct_answers, answers-direct_answers,
}
use orynx.Abci.Strategies.Prices.{IsFresh, delta_decoded_price-delta_encoded_price}

abbrev at_height : ℕ → Context
at_height h = record {
  block_height = h;
  block_time = 0;
  exec_mode = other_mode;
  enable_height = none;
}

abbrev calls : List (Context × Lookup)
calls = (at_height 7, by_pair btc) ∷ (at_height 7, by_id 0) ∷ (at_height 8, by_id 0) ∷ []

abbrev world : ℕ → State Listed
world h = tracked

answers-direct_answers_example :
    answers (keeper_reader listed_store) world calls new_cache
    ≡ direct_answers (keeper_reader listed_store) world calls
answers-direct_answers_example =
    answers-direct_answers listed_store world calls (λ h. tracked-Inv) (btc-IsReadable, tt)

-- A state that is the on-chain price of every pair, if there is one.
abbrev found_price : Option ℕ → Result KeeperError QuotePrice
found_price none = err price_not_exist
found_price (some n) = ok (record { price = pos n; block_timestamp = 0; block_height = 0 })

abbrev priced : OracleReader (Option ℕ)
priced = record {
  id_of = λ cp w. some 0;
  pair_from_id = λ id w. some btc;
  price_of = λ cp w. found_price w;
  num_pairs = λ w. ok 1;
  num_removed = λ w. ok 0;
  all_pairs = λ w. btc ∷ [];
}

abbrev new_deltas : DeltaCache
new_deltas = record { ids = new_cache; price_cache = []; price_height = 0 }

new_deltas-IsFresh : (h : ℕ) (w : Option ℕ) → IsFresh priced (at_height h) w new_deltas
unfolding reset_prices get
new_deltas-IsFresh h w cp p e = absurd (ground arith)

-- 90 at an on-chain price of 100, which is the delta -10.
minus_ten :
    (delta_encoded_price priced big_int_gob (at_height 7) btc (pos 90) (some 100) new_deltas).0
    ≡ ok (3 ∷ 10 ∷ [])
unfolding delta_encoded_price get_on_chain_price reset_prices get big_int_encode ◌-ℤ◌ ℕ_discrete
minus_ten = refl

delta_decoded_price-delta_encoded_price_example :
    ((delta_decoded_price priced big_int_gob
        (at_height 8)
        btc
        (3 ∷ 10 ∷ [])
        (some 100)
        new_deltas).0
      ≡ ok (pos 90))
    × (pos 0 ≤ℤ pos 90)
delta_decoded_price-delta_encoded_price_example =
    delta_decoded_price-delta_encoded_price priced big_int_gob (at_height 7) (at_height 8) btc
      (pos 90) (some 100) new_deltas new_deltas big_int_gob-IsGob (new_deltas-IsFresh 7 (some 100))
      (new_deltas-IsFresh 8 (some 100)) minus_ten

-- The same after the price has become 103, unseen by the cache.
stale_minus_ten :
    (delta_encoded_price priced big_int_gob
      (at_height 7)
      btc
      (pos 90)
      (some 103)
      (get_on_chain_price priced (at_height 7) btc (some 100) new_deltas).1).0
    ≡ ok (3 ∷ 10 ∷ [])
unfolding delta_encoded_price get_on_chain_price reset_prices get put big_int_encode ◌-ℤ◌ ℕ_discrete
stale_minus_ten = ground arith

length-big_int_encode_iff_example :
    (length (big_int_encode (pos (2 ^ 255))) ≤ maximum_price_size) ↔ (2 ^ 255 < 256 ^ 32)
length-big_int_encode_iff_example = length-big_int_encode_iff (pos (2 ^ 255))
