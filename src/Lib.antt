-- ===== src/Lib.antt =====
-- Orynx: a price oracle for Cosmos chains, its on-chain core and its side-car, as definitions and
-- theorems.
--
-- The parts and how they interact. Validators attach prices to their votes (vote extensions). The
-- proposer of the next block prunes the votes whose extensions are not valid and puts the rest as the
-- first transaction of the proposal; the other validators check it. The prices of all validators are then
-- combined to one stake-weighted median for each currency pair, which is written to the state of
-- x/oracle. Which pairs exist follows the market map of x/marketmap, whose hooks create pairs. The prices
-- that a validator offers come from its side-car: providers fetch prices of exchanges, an aggregator
-- converts them to common tickers and takes their median, and the side-car serves the result; it follows
-- the market map too.
--
--   Prelude.antt and its folder: byte strings, results, a state and error monad, Go maps as association
--   lists, signed integers over the native numbers, sums that do not depend on an order, stable sorting.
--   CurrencyPair.antt: pkg/types/currency_pair.go (ValidateBasic = validate_basic, String = to_string,
--   CurrencyPairFromString = from_string, and so on). CurrencyPair/Format and /RoundTrip are about
--   validation and parsing, /Slash about slashes in the fields.
--   Median.antt: pkg/math/voteweighted/voteweighted.go (Median = median, whose two loops are
--   collect_prices and select_prices; ComputeMedian = compute_median with median_loop). Median/Weights says
--   what a weighted median is.
--   OracleKeeper.antt: x/oracle/keeper/keeper.go and abci.go (the state and the operations on it);
--   OracleKeeper/Store is the interface of the store, /Queries the read methods and grpc_query.go,
--   /GenesisState and /Genesis are x/oracle/types/genesis.go and x/oracle/keeper/genesis.go, /MsgServer is
--   msg_server.go and hooks.go, /Invariant is what the operations keep true.
--   Abci.antt: abci/ve/utils.go (VoteExtensionsEnabled and ValidateOracleVoteExtension) and the shared
--   data; Abci/Proposals is abci/proposals/proposals.go and validate.go, and Abci/Supermajority is
--   ValidateVoteExtensions and ValidateExtendedCommitAgainstLastCommit of abci/ve/utils.go.
--   Aggregator.antt: aggregator/aggregator.go and options.go, each method one step of a state.
--   Abci/Strategies.antt: abci/strategies/currencypair (default.go, delta.go, hash.go), with /Reader for
--   what needs no cache, /BigInt for the price bytes, /Lookups, /Prices and /Hash for what the caches,
--   the encodings and the hashes do. Abci/Votes.antt: abci/strategies/aggregator/vote_aggregator.go, with
--   GetOracleVotes in /Extraction; /Reading says what votes mean without caches, /Instances that the default
--   and the delta strategy only remember. Abci/Applier.antt: price_applier.go beside it. Abci/Codecs.antt:
--   abci/strategies/codec/codec.go. Abci/Extension.antt: abci/ve/vote_extension.go
--   (ExtendVoteHandler = extend_vote, VerifyVoteExtensionHandler = verify_vote_extension); /Written says what
--   a vote extension means, and /Delta that the delta strategy is such a writer. Abci/PreBlock.antt:
--   abci/preblock/oracle/preblock.go, with utils.go in /Reports.
--   OracleKeeper/Steps is the step relation of the oracle module.
--   MarketMap.antt: x/marketmap/types/market.go, ticker.go and provider.go; MarketMap/Keeper is
--   x/marketmap/keeper/keeper.go, MarketMap/Keeper/MsgServer is msg_server.go, MarketMap/Keeper/Queries is
--   query.go, and MarketMap/Keeper/Genesis is genesis.go, with genesis.go and params.go of x/marketmap/types;
--   MarketMap/Keeper/Messages is msg.go there. MarketMap/Equal is the Equal methods of the types.
--   BigMath.antt: pkg/math/math.go (CalculateMedian = calculate_median, ScaleBigFloat = scale_big_float);
--   BigMath/Middle says what the middle of a sorted list is.
--   IndexPrice.antt: pkg/math/oracle/aggregator.go and utils.go (IndexPriceAggregator, AggregatePrices =
--   aggregate_prices); /Converted is about single prices and /Aggregated about a whole round.
--   Config.antt: oracle/config (api.go, websocket.go, provider.go, metrics.go, oracle.go and app.go);
--   /Valid says what a valid configuration is.
--   Provider.antt: providers/types/response.go and providers/base (provider.go, fetch.go, utils.go and
--   config.go; updateData = update_data, recv = recv); /Latest is about the merge of results.
--   Provider/Query.antt: providers/base/api/handlers (Query = query, Fetch = fetch, with send and
--   handle_answer); /Rounds is about what is asked for, /Failed about fetches. Provider/WebSocket.antt:
--   providers/base/websocket/handlers (Start = start, with connect and recv; Dial = dial, Close = close) and
--   startWebSocket of providers/base/fetch.go; /Closed is about the connections that stay open.
--   Slices.antt: pkg/slices/slices.go, pkg/arrays/arrays.go, and the batches of Query in
--   providers/base/api/handlers/api_query_handler.go; /Cover says what chunks and batches cover.
--   SideCar.antt: oracle/oracle.go, update.go, market_mapper.go and interfaces.go, and oracle/types/market.go
--   (OracleImpl, fetchAllPrices = fetch_all_prices, UpdateMarketMap = update_market_map). SideCar/Laws is
--   what it relies on of an aggregator, which IndexPrice meets; /Fresh is about the age of prices, /Tickers
--   about what providers are asked for, /Fetched and /EndToEnd about a round of prices, /Updated about
--   market map updates, with a step relation of the side-car. SideCar/Lifecycle is oracle/lifecycle.go,
--   init.go and options.go (New = new, Init = init_provider and init_each, Start = start, with its loop in
--   run, Stop = cancel_oracle and wait); /Lifecycle/Inited, /Started and /Stopped are about these. SideCar/Runs
--   has the runs of the side-car, /Spawned the providers that a run adds, /Served what a run serves.
--   The Tests modules, Abci/PriceTests and Abci/StrategyTests run the definitions on concrete inputs and
--   apply the theorems there.
--
-- Conventions and bounds. A Go string is its bytes; strings.ToUpper is modelled on ASCII text. A Go map is
-- its entries in the order of one iteration, so a statement about a map covers every order. Weights,
-- powers, heights and sizes are numbers that are never negative; sums of sizes in bytes are taken not to
-- wrap at 64 bits. Prices are integers of any size,
-- until the price applier makes one an Int of the SDK, which panics above 256 bits (is_int). The uint64
-- counters of the keeper wrap at 2 ^ 64, and
-- a theorem that needs room in them says so. A panic is an error or `none`. All loops are structural
-- recursion over their input, and no fuel is used, apart from the counted loop of RemoveMarketAuthorities,
-- whose count is the length of the slice it ranges over, and of the bytes of a big integer, whose fuel is
-- the number itself, which its quotients by 256 never outlast, and of Chunk, which needs one turn more than
-- its input is long at a positive size, for which its callers check. Times are nanoseconds, and durations
-- are taken not to saturate; the number of batches, which the source rounds up from a quotient of floats,
-- is taken to be exact.
--
-- Parameters stand for what the repository calls but does not hold: the collections of the Cosmos SDK
-- (interfaces PairStore and MapStore with the documented laws of Get, Set, Remove, Iterate and of the
-- unique index, which lists of entries meet), sort.SliceStable (StableSort, met by insertion sort; the laws
-- ask for a total and transitive test, which the median's test is), LegacyDec and the validator store,
-- JSON parsing, the proposal handlers of the application, and the hooks of other modules. Protobuf
-- marshalling, zlib and zstd, SHA-256, bech32 addresses, the answer of the oracle service, the PreBlock
-- calls of other modules, public keys and signatures are parameters too; the proposal handlers take the
-- strategy's GetMaxNumCP and the codecs as arguments. GobEncode, GobDecode and SetString of big.Int are
-- written out. The int64 sums of voting power wrap at 64 bits; the theorem about two thirds of the power
-- asks for a total below 2 ^ 62.
--
-- The floats of the side-car are big.Float of math/big, by its documented methods: the record Floats has the
-- operations, of which those that may find no number return an option, and the laws that Cmp is a total
-- order. The clock, the responses of the exchanges, the factories
-- of their handlers, and the casts of option values are arguments. The loops of the query handlers take
-- what the network, the ticker and the context do as a list of events. Contexts and
-- goroutines are kept as flags: whether a context is set and live, and which providers were started. That a
-- goroutine ends is one of the events that the loop of Start sees, since it need not: a web socket that
-- cannot connect waits for the channel to take its response, whatever its context.
--
-- Not modelled: logs, metrics, latencies and events; failures of the store other than a missing key or
-- a clash in the unique index; panics inside a strategy; of the side-car the writing of the market map
-- file and the ticker cache of web sockets; the clients and parsers of the
-- exchanges and the heartbeat of web sockets, which are network input and output; service and commands.
pub mod Prelude
pub mod CurrencyPair
pub mod Median
pub mod OracleKeeper
pub mod Aggregator
pub mod Abci
pub mod MarketMap
pub mod BigMath
pub mod IndexPrice
pub mod Config
pub mod Provider
pub mod Slices
pub mod SideCar
