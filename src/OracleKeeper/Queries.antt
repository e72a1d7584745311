-- ===== src/OracleKeeper/Queries.antt =====
-- The read methods of x/oracle/keeper/keeper.go and the query server of x/oracle/keeper/grpc_query.go.
use orynx.Prelude.{
  ℕ, List, [], ◌∷◌, map, Option, none, some, Text, Result, ok, err, ◌>>=◌, ◌>>◌, or_fail, wrap_err,
  ℕ_discrete,
}
use orynx.Prelude.Dict.{Dict, put}
use orynx.CurrencyPair.{CurrencyPair, to_string, from_string, validate_basic, legacy_decimals}
use orynx.OracleKeeper.{
  PairStore, CurrencyPairState, QuotePrice, Entries, State, KeeperError, find, not_found,
  price_not_exist, invalid_pair, market_map_failure,
}

-- `IterateCurrencyPairs`: the pairs handed to the callback, and the error that ends the iteration.
unfoldable pub iterate_currency_pairs :
    Entries → List (CurrencyPair × CurrencyPairState) × Option KeeperError
iterate_currency_pairs [] = ([], none)
iterate_currency_pairs ((k, v) ∷ m) =
    let (rest, failed) = iterate_currency_pairs m in
    elim (from_string k) [ err e ↦ ([], some (invalid_pair e)) | ok cp ↦ ((cp, v) ∷ rest, failed) ]

-- What `GetMarket` of x/marketmap says of a key: its decimals, `ErrNotFound`, or another error.
pub data MarketAnswer : Type 0 where
  decimals_of : ℕ → MarketAnswer
  no_market market_error : MarketAnswer

-- `QuotePriceWithNonce`; `none` is the zero value of `QuotePrice`.
pub record QuotePriceWithNonce : Type 0 where
  pub quote_price : Option QuotePrice
  pub nonce : ℕ

pub record GetPriceResponse : Type 0 where
  pub price : Option QuotePrice
  pub nonce : ℕ
  pub decimals : ℕ
  pub id : ℕ

abbrev price_of : Option QuotePrice → Result KeeperError QuotePrice
price_of none = err price_not_exist
price_of (some qp) = ok qp

-- An error other than `QuotePriceNotExistError` is passed on.
abbrev pub tolerate_no_price :
    Result KeeperError QuotePrice → Result KeeperError (Option QuotePrice)
tolerate_no_price (ok qp) = ok (some qp)
tolerate_no_price (err KeeperError.price_not_exist) = ok none
tolerate_no_price (err e) = err e

abbrev pub pair_of : CurrencyPair × CurrencyPairState → CurrencyPair
pair_of (cp, v) = cp

-- `types.CurrencyPairMapping`
abbrev pub mapping_of : CurrencyPair × CurrencyPairState → ℕ × CurrencyPair
mapping_of (cp, v) = (v.id, cp)

module _ (c : PairStore) where
  unfoldable pub get_price_for_currency_pair :
      CurrencyPair → State c.Store → Result KeeperError QuotePrice
  get_price_for_currency_pair cp s = do cps ← or_fail (find c cp s) not_found; price_of cps.price

  unfoldable pub get_nonce_for_currency_pair : CurrencyPair → State c.Store → Result KeeperError ℕ
  get_nonce_for_currency_pair cp s = do cps ← or_fail (find c cp s) not_found; ok cps.nonce

  unfoldable pub get_price_with_nonce_for_currency_pair :
      CurrencyPair → State c.Store → Result KeeperError QuotePriceWithNonce
  unfolding get_price_for_currency_pair get_nonce_for_currency_pair
  get_price_with_nonce_for_currency_pair cp s = do
    qp ← tolerate_no_price (get_price_for_currency_pair cp s)
    nonce ← get_nonce_for_currency_pair cp s
    ok (record { quote_price = qp; nonce = nonce })

  abbrev pub next_currency_pair_id : State c.Store → ℕ
  next_currency_pair_id s = s.next_id

  unfoldable pub get_id_for_currency_pair : CurrencyPair → State c.Store → Option ℕ
  get_id_for_currency_pair cp s = elim (find c cp s) [ none ↦ none | some cps ↦ some cps.id ]

  unfoldable pub get_currency_pair_from_id : ℕ → State c.Store → Option CurrencyPair
  get_currency_pair_from_id id s = elim (c.match_exact id s.store) [
    | none ↦ none
    | some key ↦ elim (from_string key) [ err e ↦ none | ok cp ↦ some cp ]
  ]

  -- The callback of `GetAllCurrencyPairs`; the error of the iteration is dropped.
  unfoldable pub get_all_currency_pairs : State c.Store → List CurrencyPair
  get_all_currency_pairs s = map pair_of (iterate_currency_pairs (c.entries s.store)).0

  abbrev pub pairs_by_id :
      List (CurrencyPair × CurrencyPairState) → Dict ℕ CurrencyPair → Dict ℕ CurrencyPair
  pairs_by_id [] m = m
  pairs_by_id ((cp, v) ∷ l) m = pairs_by_id l (put ℕ_discrete v.id cp m)

  -- The counter only sizes the map; the error of the iteration is dropped.
  unfoldable pub get_currency_pair_mapping :
      State c.Store → Result KeeperError (Dict ℕ CurrencyPair)
  get_currency_pair_mapping s = do
    num_pairs ← or_fail s.num_cps not_found
    ok (pairs_by_id (iterate_currency_pairs (c.entries s.store)).0 [])

  unfoldable pub get_currency_pair_mapping_list :
      State c.Store → Result KeeperError (List (ℕ × CurrencyPair))
  get_currency_pair_mapping_list s =
      let (l, failed) = iterate_currency_pairs (c.entries s.store) in
      elim failed [ some e ↦ err e | none ↦ ok (map mapping_of l) ]

  unfoldable pub get_num_removed_currency_pairs : State c.Store → Result KeeperError ℕ
  get_num_removed_currency_pairs s = or_fail s.num_removes not_found

  unfoldable pub get_num_currency_pairs : State c.Store → Result KeeperError ℕ
  get_num_currency_pairs s = or_fail s.num_cps not_found

-- The first argument is the market map keeper, if there is one.
unfoldable pub get_decimals_for_currency_pair :
    Option (Text → MarketAnswer) → CurrencyPair → Result KeeperError ℕ
get_decimals_for_currency_pair none cp = ok (legacy_decimals cp)
get_decimals_for_currency_pair (some get_market) cp = elim (get_market (to_string cp)) [
  | decimals_of d ↦ ok d
  | no_market ↦ ok (legacy_decimals cp)
  | market_error ↦ err market_map_failure
]

module _ (c : PairStore) (mm : Option (Text → MarketAnswer)) where
  -- The part that `GetPrice` and `GetPrices` share.
  unfoldable pub price_response : CurrencyPair → State c.Store → Result KeeperError GetPriceResponse
  price_response cp s = do
    qpn ← get_price_with_nonce_for_currency_pair c cp s
    id ← or_fail (get_id_for_currency_pair c cp s) not_found
    decimals ← get_decimals_for_currency_pair mm cp
    ok (record { price = qpn.quote_price; nonce = qpn.nonce; decimals = decimals; id = id })

  unfoldable pub get_price : CurrencyPair → State c.Store → Result KeeperError GetPriceResponse
  unfolding price_response
  get_price cp s = do wrap_err invalid_pair (validate_basic cp); price_response cp s

  unfoldable pub get_prices : List Text → State c.Store → Result KeeperError (List GetPriceResponse)
  get_prices [] s = ok []
  get_prices (cid ∷ cids) s = do
    cp ← wrap_err invalid_pair (from_string cid)
    p ← price_response cp s
    ps ← get_prices cids s
    ok (p ∷ ps)
