-- ===== src/OracleKeeper/Tests.antt =====
-- Runs of x/oracle/keeper on a listed store.
use orynx.Prelude.{
  ℕ, ◌≡◌, refl, [], ◌∷◌, All, none, some, Text, Text-discrete, codes, length, ok, arith,
}
use orynx.Prelude.Dict.{get, IsMap}
use orynx.Prelude.Int.{pos}
use orynx.CurrencyPair.{CurrencyPair, to_string, from_string}
use orynx.CurrencyPair.RoundTrip.{from_string-to_string}
use orynx.OracleKeeper.{
  State, CurrencyPairState, QuotePrice, find, create_currency_pair, remove_currency_pair,
  set_price_for_currency_pair, server_disabled, pair_not_exist, new_currency_pair_state, u64_mod,
}
use orynx.OracleKeeper.Store.{listed_store, Listed, Entries}
use orynx.OracleKeeper.Invariant.{Inv}
use orynx.OracleKeeper.Counting.{create_currency_pair-Inv, Created}
use orynx.OracleKeeper.Prices.{set_prices, set_prices-nonce, set_price_uncounted}
use orynx.OracleKeeper.Queries.{get_id_for_currency_pair, get_currency_pair_from_id}
use orynx.Prelude.{Result}
use orynx.OracleKeeper.{begin_blocker, KeeperError}
use orynx.OracleKeeper.Steps.{Reach, here, next, removes, begins, KeepsIds, Reach-KeepsIds}
use orynx.OracleKeeper.Lookup.{from_id-of_pair, HasReadableKeys, IsReadable}
use orynx.OracleKeeper.GenesisState.{CurrencyPairGenesis, GenesisState, validate, state_of}
use orynx.OracleKeeper.Genesis.{init_genesis, init_genesis-Inv}

abbrev pub btc : CurrencyPair
btc = record { base = codes "BTC"; quote = codes "USD" }

abbrev eth : CurrencyPair
eth = record { base = codes "ETH"; quote = codes "USD" }

abbrev quote_at : ℕ → QuotePrice
quote_at p = record { price = pos p; block_timestamp = 1000; block_height = 12 }

abbrev pub btc_state : CurrencyPairState
btc_state = record { price = some (quote_at 100); nonce = 3; id = 0 }

abbrev empty_store : Listed
empty_store = record { items = []; is_map = tt }

abbrev pub one_entry : Entries
one_entry = (codes "BTC/USD", btc_state) ∷ []

pub one_entry-IsMap : IsMap Text-discrete one_entry
unfolding get
one_entry-IsMap = (refl, tt)

abbrev pub one_pair : Listed
one_pair = record { items = one_entry; is_map = one_entry-IsMap }

abbrev empty_state : State Listed
empty_state = record { store = empty_store; next_id = 0; num_removes = none; num_cps = none }

-- One tracked pair.
abbrev pub tracked : State Listed
tracked = record { store = one_pair; next_id = 1; num_removes = some 0; num_cps = some 1 }

pub btc_key : to_string btc ≡ codes "BTC/USD"
unfolding to_string
btc_key = refl

eth_key : to_string eth ≡ codes "ETH/USD"
unfolding to_string
eth_key = refl

pub tracked-Inv : Inv listed_store tracked
unfolding get
tracked-Inv = record {
  ids = record { fresh = λ k v e. ground arith; distinct = λ j k v w p q e. ground arith };
  counted = refl;
  removes = λ e. cc e;
}

pub find-btc : find listed_store btc tracked ≡ some btc_state
unfolding get to_string
find-btc = ground arith

find-eth : find listed_store eth tracked ≡ none
unfolding get to_string
find-eth = ground arith

create_currency_pair-Inv_example :
    (s' : State Listed) × (create_currency_pair listed_store eth tracked ≡ (ok tt, s'))
    × Inv listed_store s'
    × Created listed_store eth tracked s'
create_currency_pair-Inv_example =
    create_currency_pair-Inv listed_store eth tracked tracked-Inv (ground arith) find-eth

set_prices-nonce_example :
    find listed_store btc (set_prices listed_store btc (quote_at 101 ∷ quote_at 102 ∷ []) tracked)
    ≡ some (record { price = some (quote_at 102); nonce = 5; id = 0 })
set_prices-nonce_example =
    set_prices-nonce listed_store btc (quote_at 101 ∷ quote_at 102 ∷ []) tracked tracked-Inv
      find-btc (ground arith)

set_price_uncounted_example :
    (s' : State Listed) × (set_price_for_currency_pair listed_store eth (quote_at 5) tracked
      ≡ (ok tt, s'))
    × (find listed_store eth s' ≡ some (new_currency_pair_state 1 0 (some (quote_at 5))))
    × (s'.num_cps ≡ some 1)
    × (length s'.store.items ≡ 2)
set_price_uncounted_example =
    set_price_uncounted listed_store eth (quote_at 5) tracked tracked-Inv (ground arith) find-eth

pub btc-IsReadable : IsReadable btc
unfolding orynx.CurrencyPair.validate_basic orynx.CurrencyPair.core_validate
    orynx.CurrencyPair.validate_asset orynx.CurrencyPair.is_legacy_asset_string
    orynx.CurrencyPair.contains orynx.CurrencyPair.validate_legacy_asset_string
    orynx.CurrencyPair.is_upper orynx.CurrencyPair.to_upper
btc-IsReadable = ground arith

pub id_of_btc : get_id_for_currency_pair listed_store btc tracked ≡ some 0
unfolding get_id_for_currency_pair get to_string
id_of_btc = ground arith

pub tracked-HasReadableKeys : HasReadableKeys one_entry
unfolding get to_string
tracked-HasReadableKeys k v e =
    let key : k ≡ codes "BTC/USD" = ground arith in
    (
      btc,
      rw key (from_string-to_string btc btc-IsReadable.0 btc-IsReadable.1 btc-IsReadable.2),
      rw key btc_key,
    )

pub btc_of_id : get_currency_pair_from_id listed_store 0 tracked ≡ some btc
btc_of_id = from_id-of_pair listed_store btc tracked tracked-Inv btc-IsReadable id_of_btc

abbrev btc_genesis : CurrencyPairGenesis
btc_genesis = record {
  currency_pair = btc;
  currency_pair_price = some (quote_at 100);
  nonce = 3;
  id = 0;
}

abbrev genesis : GenesisState
genesis = record { currency_pair_genesis = btc_genesis ∷ []; next_id = 1 }

genesis_valid : validate genesis ≡ ok tt
unfolding validate orynx.OracleKeeper.GenesisState.validate_from
    orynx.OracleKeeper.GenesisState.validate_entry
genesis_valid = ground (arith, btc-IsReadable.0)

no_entry : (k : Text) → get Text-discrete k empty_store.items ≡ none
unfolding get
no_entry k = refl

init_genesis-Inv_example :
    (s' : State Listed) × (init_genesis listed_store genesis empty_state ≡ (ok tt, s'))
    × Inv listed_store s'
    × (s'.next_id ≡ 1)
    × All (λ cpg. find listed_store cpg.currency_pair s' ≡ some (state_of cpg)) (btc_genesis ∷ [])
init_genesis-Inv_example =
    init_genesis-Inv listed_store genesis empty_state genesis_valid no_entry (ground arith)

eth_read : from_string (codes "ETH/USD") ≡ ok eth
unfolding from_string orynx.CurrencyPair.validate_basic orynx.CurrencyPair.core_validate
    orynx.CurrencyPair.validate_asset orynx.CurrencyPair.is_legacy_asset_string
    orynx.CurrencyPair.contains orynx.CurrencyPair.validate_legacy_asset_string
    orynx.CurrencyPair.is_upper orynx.CurrencyPair.to_upper orynx.CurrencyPair.split
eth_read = ground arith

-- The pair is removed, and a block begins.
abbrev removed : Result KeeperError (Unit {0}) × State Listed
removed = remove_currency_pair listed_store btc tracked

abbrev begun : Result KeeperError (Unit {0}) × State Listed
begun = begin_blocker listed_store removed.1

removal_run : Reach listed_store tracked begun.1
removal_run =
    next (next here (removes btc tracked removed.1 removed.0 (omega arith) refl))
      (begins removed.1 begun.1 begun.0 refl)

Reach-KeepsIds_example : Inv listed_store begun.1 × KeepsIds listed_store tracked begun.1
Reach-KeepsIds_example = Reach-KeepsIds listed_store removal_run tracked-Inv
