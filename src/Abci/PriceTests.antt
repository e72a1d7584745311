-- ===== src/Abci/PriceTests.antt =====
-- Runs of the price path, from the oracle service of a validator to the state: two validators, one pair.
use orynx.Prelude.{
  All, sym, ℕ, zero, suc, ◌∙◌, ◌≡◌, ◌≢◌, ◌↔◌, refl, ap, List, [], ◌∷◌, none, some, Text,
  Text-discrete, codes, Result, ok, err, true, arith, ℕ_discrete, inl, inr, Option-cases,
}
use orynx.Prelude.Dict.{Dict, get, put, IsMap}
use orynx.Prelude.Int.{ℤ, pos}
use orynx.CurrencyPair.{CurrencyPair, CurrencyPair-discrete, to_string, from_string}
use orynx.Median.{median, PricePerValidator, meets_threshold, compute_median, median_loop}
use orynx.Median.Tests.{env, env-NoPanic}
use orynx.OracleKeeper.{State, find}
use orynx.OracleKeeper.Store.{Listed, listed_store}
use orynx.OracleKeeper.Lookup.{id-of_from_id}
use orynx.OracleKeeper.Ids.{IsUsedId}
use orynx.OracleKeeper.Queries.{
  get_id_for_currency_pair, get_all_currency_pairs, iterate_currency_pairs, get_num_currency_pairs,
}
use orynx.OracleKeeper.Tests.{
  btc, tracked, tracked-Inv, tracked-HasReadableKeys, btc-IsReadable, id_of_btc, btc_of_id,
}
use orynx.Aggregator.{value_or, aggregate_data_from_context}
use orynx.Abci.{
  Context, Codec, AbciError, OracleVoteExtension, ExtendedCommitInfo, ExtendedVoteInfo,
  finalize_mode, commit, codec_error, vote_extensions_enabled,
}
use orynx.Abci.Strategies.{
  keeper_reader, default_strategy, default_decoded_price, IdCache, OracleReader, reset_ids,
}
use orynx.Abci.Strategies.BigInt.{big_int_gob, big_int_decode, big_int_gob-IsGob, big_int_encode}
use orynx.Abci.Strategies.Lookups.{new_cache}
use orynx.Abci.Votes.{
  Vote, VoteAggregator, read_prices, aggregate_oracle_votes, get_price_for_validator,
}
use orynx.Abci.Votes.Collected.{aggregated, aggregate_oracle_votes_lem}
use orynx.Abci.Votes.Reported.{HasOneId, IsReported, read_prices_iff}
use orynx.Abci.Extension.{
  VoteExtensionHandler, transform_prices, Handling, extend_vote, respond, verify_vote_extension,
  prices_are, client_failed, accept_extension,
}
use orynx.Abci.Extension.Decimal.{parse_decimal}
use orynx.Abci.Extension.Written.{
  WriteMeaning, transform_prices_lem, default_writes, written_prices, written_entry, IsOffered,
}
use orynx.Abci.Extension.Delta.{delta_writes}
use orynx.Prelude.Int.{◌-ℤ◌, ◌+ℤ◌}
use orynx.OracleKeeper.Queries.{get_price_for_currency_pair}
use orynx.Abci.Strategies.{DeltaCache, delta_strategy, state_price, reset_prices}
use orynx.Abci.Extension.Accepted.{
  HasShortPrices, encoded, extend_vote_lem, verify_vote_extension-extend_vote,
}
use orynx.Abci.Extension.RoundTrip.{Agree, read_prices-transform_prices}
use orynx.Abci.Extension.Liveness.{IsResponse, extend_vote-IsResponse}
use orynx.Abci.Strategies.Prices.{default_decoded_price-default_encoded_price}
use orynx.Abci.Strategies.{default_encoded_price, default_max_num_cp}
use orynx.Abci.RoundTrip.{IsFaithful}
use orynx.CurrencyPair.RoundTrip.{from_string-to_string}
use orynx.Abci.Votes.Extraction.{get_oracle_votes}
use orynx.Abci.Votes.Reading.{value, value-some, Meaning, reports}
use orynx.Abci.Votes.Instances.{default_meaning}
use orynx.Abci.Applier.{PriceApplier, Applied, apply_prices_from_vote_extensions}
use orynx.Abci.PreBlock.{pre_blocker}
use mathlib.Core.Path.{subst}
use orynx.Abci.Applier.Writes.{IsStorable}
use orynx.Abci.Votes.Reading.{store_reported, price_of_pair}
use orynx.Median.Collect.{for_pair, summary}
use orynx.Median.Collect as Collect
use orynx.Median.Quorum.{quorum_price}
use orynx.Abci.PreBlock.Medians.{HasMedians, pre_blocker-HasMedians}

abbrev ctx : Context
ctx = record {
  block_height = 10;
  block_time = 2000;
  exec_mode = finalize_mode;
  enable_height = some 5;
}

-- An extension is the bytes of one price, of the pair with id 0.
abbrev encode_prices : Dict ℕ Text → Result AbciError Text
encode_prices ((zero, b ∷ bz) ∷ []) = ok (b ∷ bz)
encode_prices _ = err codec_error

abbrev test_extensions : Codec OracleVoteExtension
test_extensions = record {
  encode = λ ve. encode_prices ve.prices;
  decode = λ bz. ok (record { prices = (0, bz) ∷ [] });
}

abbrev vote_of : Text → Text → ExtendedVoteInfo
vote_of address bz = record {
  address = address;
  power = 10;
  vote_extension = some bz;
  extension_signature = none;
  block_id_flag = commit;
}

-- A commit in which both validators report the price whose bytes are the transaction.
abbrev test_commits : Codec ExtendedCommitInfo
test_commits = record {
  encode = λ info. err codec_error;
  decode =
      λ bz. ok (record { round = 0; votes = vote_of (codes "a") bz ∷ vote_of (codes "b") bz ∷ [] });
}

abbrev k : OracleReader (State Listed)
k = keeper_reader listed_store

abbrev applier : PriceApplier listed_store
applier = record {
  strategy = default_strategy k big_int_gob;
  address_string = λ a. a;
  ve_codec = test_extensions;
  ext_commit_codec = test_commits;
}

abbrev start : Applied listed_store IdCache
start = record {
  voter = record {
    price_aggregator = record {
      aggregate_fn = none;
      aggregate_fn_from_context = some (λ x. median env);
      provider_data = (codes "old", (btc, some (pos 1)) ∷ []) ∷ [];
      aggregated_data = [];
    };
    cache = new_cache;
  };
  chain = tracked;
}

abbrev price_tx : Text
price_tx = 2 ∷ 150 ∷ []

abbrev both_votes : List Vote
both_votes =
    record {
      cons_address = codes "a";
      oracle_vote_extension = record { prices = (0, price_tx) ∷ [] };
    }
    ∷ record {
      cons_address = codes "b";
      oracle_vote_extension = record { prices = (0, price_tx) ∷ [] };
    }
    ∷ []

abbrev reads : Meaning applier.strategy ctx tracked
reads = default_meaning k big_int_gob ctx tracked

new_cache-IsGood : reads.IsGood new_cache
unfolding default_meaning reset_ids get
new_cache-IsGood id cp e = absurd (ground arith)

is_enabled : vote_extensions_enabled ctx ≡ true
unfolding vote_extensions_enabled
is_enabled = ground arith

votes_are : get_oracle_votes test_extensions test_commits (price_tx ∷ []) ≡ ok both_votes
unfolding get_oracle_votes
votes_are = refl

abbrev btc_text : Text
btc_text = codes "BTC/USD"

parsed : from_string btc_text ≡ ok btc
unfolding to_string
parsed = from_string-to_string btc btc-IsReadable.0 btc-IsReadable.1 btc-IsReadable.2

all_pairs : get_all_currency_pairs listed_store tracked ≡ btc ∷ []
unfolding get_all_currency_pairs iterate_currency_pairs
all_pairs = ground (arith, parsed)

decoded : default_decoded_price big_int_gob price_tx ≡ ok (pos 150)
unfolding default_decoded_price big_int_decode
decoded = refl

reported :
    store_reported reads [] (price_of_pair reads price_tx (reads.pair_at 0))
    ≡ (btc, some (pos 150)) ∷ []
unfolding put default_meaning
reported = ground (arith, btc_of_id, decoded)

said_are :
    reports reads applier.address_string both_votes []
    ≡ (codes "a", (btc, some (pos 150)) ∷ []) ∷ (codes "b", (btc, some (pos 150)) ∷ []) ∷ []
unfolding put
said_are = ground (arith, reported)

abbrev price_of_ten : PricePerValidator
price_of_ten = record { vote_weight = 10; price = pos 150 }

of_btc :
    for_pair btc (
      Collect.reports env.validator
        ((codes "a", (btc, some (pos 150)) ∷ []) ∷ (codes "b", (btc, some (pos 150)) ∷ []) ∷ []))
    ≡ price_of_ten ∷ price_of_ten ∷ []
of_btc = ground arith

median_is :
    quorum_price env 30
      (some (record { prices = price_of_ten ∷ price_of_ten ∷ []; total_weight = 20 }))
    ≡ some (some (pos 150))
unfolding meets_threshold compute_median median_loop
median_is = refl

-- The median of the votes has few bits.
medians_fit :
    All
      (λ cp. IsStorable (
        quorum_price env 30 (
          summary (
            for_pair cp (
              Collect.reports env.validator
                (reports reads applier.address_string both_votes []))))))
      (get_all_currency_pairs listed_store tracked)
medians_fit = rw (all_pairs, said_are, of_btc) (subst IsStorable (sym median_is) (omega arith), tt)

pre_blocker-HasMedians_example :
    (a' : Applied listed_store IdCache) × (pre_blocker listed_store applier ctx
        (some (price_tx ∷ []))
        start
      ≡ (ok tt, a'))
    × HasMedians listed_store applier ctx
        (price_tx ∷ [])
        start
        env
        30
        (reports reads (λ a. a) both_votes [])
        tracked
        a'.chain
pre_blocker-HasMedians_example =
    pre_blocker-HasMedians listed_store applier ctx (price_tx ∷ []) start reads both_votes
      (λ x. env) tracked-Inv tracked-HasReadableKeys new_cache-IsGood refl refl env-NoPanic
      is_enabled votes_are medians_fit

aggregate_oracle_votes_lem_example :
    let (r, v') =
      aggregate_oracle_votes applier.strategy (λ a. a) ctx tracked both_votes start.voter in
    let said = reports reads (λ a. a) both_votes [] in
    (r ≡ aggregated (median env said))
    × reads.IsGood v'.cache
    × (v'.price_aggregator.aggregate_fn_from_context ≡ some (λ x. median env))
    × ((address : Text)
        → (get_price_for_validator applier.strategy (λ a. a) address v').0
          ≡ ok (value_or [] (get Text-discrete address said)))
aggregate_oracle_votes_lem_example =
    aggregate_oracle_votes_lem reads (λ a. a) both_votes start.voter refl new_cache-IsGood

reads-HasOneId : HasOneId reads
unfolding default_meaning
reads-HasOneId i j cp e f =
    let p = id-of_from_id listed_store i tracked {cp = cp} tracked-HasReadableKeys e in
    let q = id-of_from_id listed_store j tracked {cp = cp} tracked-HasReadableKeys f in
    ground (arith, p, q)

abbrev one_price : Dict ℕ Text
one_price = (0, price_tx) ∷ []

one_price-IsMap : IsMap ℕ_discrete one_price
unfolding get
one_price-IsMap = (refl, tt)

read_prices_iff_example :
    (get CurrencyPair-discrete btc
        (read_prices applier.strategy ctx tracked one_price [] new_cache).0
      ≡ some (some (pos 150)))
    ↔ IsReported reads btc (pos 150) one_price
read_prices_iff_example =
    read_prices_iff reads one_price btc (pos 150) new_cache new_cache-IsGood reads-HasOneId
      one_price-IsMap

abbrev handler : VoteExtensionHandler listed_store
handler = record {
  own_strategy = default_strategy k big_int_gob;
  extension_codec = test_extensions;
  price_applier = applier;
}

-- The oracle service of a validator has one price.
abbrev offered : Dict Text Text
offered = (codes "BTC/USD", codes "150") ∷ []

offered-IsMap : IsMap Text-discrete offered
unfolding get
offered-IsMap = (refl, tt)

abbrev writes : WriteMeaning (default_strategy k big_int_gob) ctx tracked
writes = default_writes k big_int_gob ctx tracked

only_offer :
    (cp : CurrencyPair) (p : ℤ) → IsOffered writes offered cp p → (cp ≡ btc) × (p ≡ pos 150)
unfolding get parse_decimal
only_offer cp p (name, decimal, g, f, q) = ground (arith, parsed)

agrees : Agree writes reads offered
unfolding default_writes default_meaning
agrees = record {
  ids = λ cp p id o e.
      let same = (only_offer cp p o).0 in ground (arith, same, id_of_btc, btc_of_id, e);
  prices = λ cp p bz e.
      let encoded = value-some (default_encoded_price big_int_gob p) e in
      let decoded =
        (default_decoded_price-default_encoded_price big_int_gob p {bz = bz} big_int_gob-IsGob
          encoded).0 in
      ap value decoded;
}

encoded_150 : value (default_encoded_price big_int_gob (pos 150)) ≡ some price_tx
unfolding default_encoded_price big_int_encode ℕ_discrete
encoded_150 = refl

short_prices : HasShortPrices writes offered
unfolding default_writes
short_prices cp p bz o e = let same = (only_offer cp p o).1 in ground (arith, encoded_150, same)

written : written_prices writes offered [] ≡ ok one_price
unfolding default_writes put parse_decimal
written = ground (arith, parsed, id_of_btc, encoded_150)

new_cache-IsWritable : writes.IsGood new_cache
unfolding default_writes
new_cache-IsWritable = tt

-- The same offer as a delta to the price of the state, which is 100.
abbrev no_deltas : DeltaCache
no_deltas = record { ids = new_cache; price_cache = []; price_height = 0 }

no_deltas-IsFresh : (delta_writes k big_int_gob ctx tracked).IsGood no_deltas
unfolding delta_writes reset_prices get
no_deltas-IsFresh cp p e = absurd (ground arith)

on_chain_price : state_price (k.price_of btc tracked) ≡ ok (pos 100)
unfolding get_price_for_currency_pair get to_string
on_chain_price = ground arith

encoded_50 : big_int_gob.gob_encode (pos 150 -ℤ pos 100) ≡ ok (2 ∷ 50 ∷ [])
unfolding big_int_encode ℕ_discrete ◌-ℤ◌ ◌+ℤ◌
encoded_50 = refl

delta_offer :
    written_prices (delta_writes k big_int_gob ctx tracked) offered [] ≡ ok ((0, 2 ∷ 50 ∷ []) ∷ [])
unfolding delta_writes put parse_decimal
delta_offer = ground (arith, parsed, id_of_btc, on_chain_price, encoded_50)

transformed_delta :
    (transform_prices (delta_strategy k big_int_gob) ctx tracked offered [] no_deltas).0
    ≡ ok ((0, 2 ∷ 50 ∷ []) ∷ [])
transformed_delta =
    (transform_prices_lem (delta_writes k big_int_gob ctx tracked) offered [] no_deltas
      no_deltas-IsFresh).0
    ∙ delta_offer

transformed :
    (transform_prices handler.own_strategy ctx tracked offered [] new_cache).0 ≡ ok one_price
transformed = (transform_prices_lem writes offered [] new_cache new_cache-IsWritable).0 ∙ written

read_prices-transform_prices_example :
    let read = (read_prices applier.strategy ctx tracked one_price [] new_cache).0 in
    ((cp : CurrencyPair) (p : ℤ)
      → get CurrencyPair-discrete cp read ≡ some (some p)
      → IsOffered writes offered cp p)
    × ((cp : CurrencyPair) (p : ℤ) (id : ℕ) (bz : Text)
        → IsOffered writes offered cp p
        → written_entry writes cp p ≡ some (id, bz)
        → (q : ℤ) × (get CurrencyPair-discrete cp read ≡ some (some q))
          × IsOffered writes offered cp q)
read_prices-transform_prices_example =
    read_prices-transform_prices writes reads offered new_cache new_cache new_cache-IsWritable
      new_cache-IsGood agrees reads-HasOneId offered-IsMap short_prices transformed

abbrev idle : Handling listed_store handler
idle = record { own_cache = new_cache; applied = start }

extend_vote-IsResponse_example :
    IsResponse listed_store handler
      (extend_vote listed_store handler ctx client_failed (some (price_tx ∷ [])) idle).0
extend_vote-IsResponse_example =
    extend_vote-IsResponse listed_store handler ctx client_failed (price_tx ∷ []) idle

writes_used_ids :
    (cp : CurrencyPair) (id : ℕ) → writes.id_at cp ≡ some id → IsUsedId listed_store tracked id
unfolding default_writes get_id_for_currency_pair
writes_used_ids cp id e = elim (Option-cases (find listed_store cp tracked)) [
  | inl n ↦ absurd (ground arith)
  | inr (v, f) ↦ (to_string cp, v, f, ground arith)
]

-- A proposal whose commit has no votes.
abbrev no_votes : Codec ExtendedCommitInfo
no_votes = record {
  encode = λ info. err codec_error;
  decode = λ bz. ok (record { round = 0; votes = [] });
}

abbrev quiet_handler : VoteExtensionHandler listed_store
quiet_handler = record handler { price_applier = record applier { ext_commit_codec = no_votes } }

-- No prices come out of it.
abbrev quiet_voter : VoteAggregator IdCache
quiet_voter = record {
  price_aggregator = record {
    aggregate_fn = none;
    aggregate_fn_from_context = some (λ x ps. some []);
    provider_data = [];
    aggregated_data = [];
  };
  cache = new_cache;
}

abbrev quiet_start : Applied listed_store IdCache
quiet_start = record start { voter = quiet_voter }

abbrev quiet : Handling listed_store quiet_handler
quiet = record { own_cache = new_cache; applied = quiet_start }

quiet_apply :
    apply_prices_from_vote_extensions listed_store quiet_handler.price_applier ctx
      ([] ∷ [])
      quiet_start
    ≡ (ok [], quiet_start)
unfolding apply_prices_from_vote_extensions aggregate_oracle_votes aggregate_data_from_context
    get_oracle_votes get
quiet_apply = ground (arith, all_pairs)

abbrev entry_extension : Text → OracleVoteExtension
entry_extension bz = record { prices = (0, bz) ∷ [] }

encode_prices_lem :
    (ps : Dict ℕ Text) {bz : Text}
    → encode_prices ps ≡ ok bz
    → (entry_extension bz ≡ record { prices = ps }) × (bz ≢ [])
encode_prices_lem [] {bz} e = absurd (ground arith)
encode_prices_lem ((zero, []) ∷ []) {bz} e = absurd (ground arith)
encode_prices_lem ((zero, b ∷ bs) ∷ []) {bz} e = (ground arith, λ n. ground arith)
encode_prices_lem ((zero, []) ∷ q ∷ ps) {bz} e = absurd (ground arith)
encode_prices_lem ((zero, b ∷ bs) ∷ q ∷ ps) {bz} e = absurd (ground arith)
encode_prices_lem ((suc n, bs) ∷ ps) {bz} e = absurd (ground arith)

test_extensions-IsFaithful : IsFaithful test_extensions
test_extensions-IsFaithful = record {
  decode-encode = λ ve {bz} e. ap ok (encode_prices_lem ve.prices e).0;
  not_empty = λ ve {bz} e. (encode_prices_lem ve.prices e).1;
}

tracked_limit : default_max_num_cp k ctx tracked ≡ ok 1
unfolding default_max_num_cp get_num_currency_pairs
tracked_limit = refl

quiet_answer :
    (extend_vote listed_store quiet_handler ctx (prices_are offered) (some ([] ∷ [])) quiet).0
    ≡ (some price_tx, none)
quiet_answer =
    extend_vote_lem listed_store quiet_handler ctx ([] ∷ []) offered quiet quiet_start quiet_apply
      writes new_cache-IsWritable
    ∙ ap (λ r. respond listed_store quiet_handler (encoded listed_store quiet_handler r)) written

verify_vote_extension-extend_vote_example :
    verify_vote_extension listed_store quiet_handler ctx tracked (some (some price_tx))
    ≡ (some accept_extension, none)
verify_vote_extension-extend_vote_example =
    verify_vote_extension-extend_vote listed_store quiet_handler ctx ctx ([] ∷ []) offered quiet
      quiet_start tracked 1 quiet_apply writes new_cache-IsWritable offered-IsMap short_prices
      writes_used_ids tracked-Inv tracked_limit (omega arith) test_extensions-IsFaithful
      quiet_answer
