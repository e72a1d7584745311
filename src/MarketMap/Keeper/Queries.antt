-- ===== src/MarketMap/Keeper/Queries.antt =====
-- x/marketmap/keeper/query.go, and GetAllMarketsList of keeper.go. A request that is nil is `none`.
use orynx.Prelude.{
  ℕ, ◌≡◌, ◌↔◌, Option, some, Text, Text-discrete, List, map, Result, ok, ◌>>=◌, ◌>>◌, or_fail,
  wrap_err, arith,
}
use orynx.Prelude.Dict.{get}
use orynx.CurrencyPair.{CurrencyPair, PairError, to_string, validate_basic}
use orynx.MarketMap.{Market, MarketMap}
use orynx.MarketMap.Store.{MapStore}
use orynx.MarketMap.Keeper.{State, Params, get_all_markets}

pub data QueryError : Type 0 where
  nil_request missing_market missing_height missing_params : QueryError
  bad_request_pair : PairError → QueryError

pub record MarketMapResponse : Type 0 where
  pub market_map : MarketMap
  pub last_updated : ℕ
  pub chain_id : Text

module _ (c : MapStore Market) (W : Type 0) where
  -- The response of `MarketMap`. A missing height is an error, which comes with a response that is not used.
  unfoldable pub query_market_map :
      Text → Option (Unit {0}) → State c.Store W → Result QueryError MarketMapResponse
  query_market_map chain_id req s = do
    u ← or_fail req nil_request
    height ← or_fail s.last_updated missing_height
    ok (
        let r : MarketMapResponse = record {
          market_map = get_all_markets c W s;
          last_updated = height;
          chain_id = chain_id;
        } in
        r)

  abbrev pub get_all_markets_list : State c.Store W → List Market
  get_all_markets_list s = map (λ (e : Text × Market). e.1) (c.entries s.markets)

  unfoldable pub query_markets :
      Option (Unit {0}) → State c.Store W → Result QueryError (List Market)
  query_markets req s = or_fail req nil_request >> ok (get_all_markets_list s)

  unfoldable pub query_market : Option CurrencyPair → State c.Store W → Result QueryError Market
  query_market req s = do
    cp ← or_fail req nil_request
    wrap_err bad_request_pair (validate_basic cp)
    or_fail (c.look (to_string cp) s.markets) missing_market

  unfoldable pub query_last_updated : Option (Unit {0}) → State c.Store W → Result QueryError ℕ
  query_last_updated req s = or_fail req nil_request >> or_fail s.last_updated missing_height

  unfoldable pub query_params : Option (Unit {0}) → State c.Store W → Result QueryError Params
  query_params req s = or_fail req nil_request >> or_fail s.params missing_params

  -- For a valid pair, `Market` answers with what the map of `MarketMap` has under the pair's string.
  query_market-query_market_map :
      (chain_id : Text) (cp : CurrencyPair) (s : State c.Store W) (r : MarketMapResponse)
      (market : Market)
      → validate_basic cp ≡ ok tt
      → query_market_map chain_id (some tt) s ≡ ok r
      → (query_market (some cp) s ≡ ok market)
        ↔ (get Text-discrete (to_string cp) r.market_map ≡ some market)
  unfolding query_market query_market_map
  query_market-query_market_map chain_id cp s r market v e =
      ground (arith, v, c.get-entries (to_string cp) s.markets)
