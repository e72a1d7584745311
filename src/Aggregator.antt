-- ===== src/Aggregator.antt =====
-- aggregator/aggregator.go and options.go: the store of what each provider reported and of the value
-- aggregated from it. Every method locks the store, so it is one step of a state. An aggregate function
-- that panics is one that returns `none`, and a panic of a method is an error.
use orynx.Prelude.{List, [], ◌∷◌, Option, none, some}
use orynx.Prelude.Action.{Action, ◌>>=◌, gets, modify, or_raise}
use orynx.Prelude.Dict.{Dict, get, put}

pub data AggregatorError : Type 0 where
  nil_aggregate_fn aggregate_fn_panic : AggregatorError

-- `AggregateFn`
abbrev pub AggregateFn : Type 0 → Type 0 → Type 0
AggregateFn K V = Dict K V → Option V

-- `DataAggregator`; C is the type of contexts.
pub record DataAggregator (C K V : Type 0) : Type 0 where
  pub aggregate_fn : Option (AggregateFn K V)
  pub aggregate_fn_from_context : Option (C → AggregateFn K V)
  pub provider_data : Dict K V
  pub aggregated_data : V

-- `DataAggregatorOption`
abbrev pub DataAggregatorOption : Type 0 → Type 0 → Type 0 → Type 0
DataAggregatorOption C K V = DataAggregator C K V → DataAggregator C K V

abbrev pub Aggregating : Type 0 → Type 0 → Type 0 → Type 0 → Type 0
Aggregating C K V = Action (DataAggregator C K V) AggregatorError

-- A missing key has the zero value.
abbrev pub value_or : {V : Type 0} → V → Option V → V
value_or fallback none = fallback
value_or fallback (some v) = v

module _ {C K V : Type 0} where
  -- `WithAggregateFn`
  abbrev pub with_aggregate_fn : AggregateFn K V → DataAggregatorOption C K V
  with_aggregate_fn fn opts = record opts { aggregate_fn = some fn }

  -- `WithAggregateFnFromContext`
  abbrev pub with_aggregate_fn_from_context : (C → AggregateFn K V) → DataAggregatorOption C K V
  with_aggregate_fn_from_context fn opts = record opts { aggregate_fn_from_context = some fn }

  abbrev apply_options :
      List (DataAggregatorOption C K V) → DataAggregator C K V → DataAggregator C K V
  apply_options [] agg = agg
  apply_options (opt ∷ opts) agg = apply_options opts (opt agg)

  -- `NewDataAggregator`; the first argument is the zero value of V.
  abbrev pub new_data_aggregator : V → List (DataAggregatorOption C K V) → DataAggregator C K V
  new_data_aggregator empty opts = apply_options opts (record {
    aggregate_fn = none;
    aggregate_fn_from_context = none;
    provider_data = [];
    aggregated_data = empty;
  })

  abbrev pub get_provider_data : Aggregating C K V (Dict K V)
  get_provider_data = gets (λ p. p.provider_data)

  abbrev pub reset_provider_data : Aggregating C K V (Unit {0})
  reset_provider_data = modify (λ p. record p { provider_data = [] })

  abbrev pub get_aggregated_data : Aggregating C K V V
  get_aggregated_data = gets (λ p. p.aggregated_data)

  abbrev pub set_aggregated_data : V → Aggregating C K V (Unit {0})
  set_aggregated_data v = modify (λ p. record p { aggregated_data = v })

  unfoldable pub aggregate_data : Aggregating C K V (Unit {0})
  aggregate_data = do
    fn ← or_raise (← gets (λ p. p.aggregate_fn)) nil_aggregate_fn
    provider_data ← get_provider_data
    value ← or_raise (fn provider_data) aggregate_fn_panic
    set_aggregated_data value

  unfoldable pub aggregate_data_from_context : C → Aggregating C K V (Unit {0})
  aggregate_data_from_context ctx = do
    fn ← or_raise (← gets (λ p. p.aggregate_fn_from_context)) nil_aggregate_fn
    provider_data ← get_provider_data
    value ← or_raise (fn ctx provider_data) aggregate_fn_panic
    set_aggregated_data value

  module _ (eq? : Discrete K) where
    abbrev pub set_provider_data : K → V → Aggregating C K V (Unit {0})
    set_provider_data provider data_of =
        modify (λ p. record p { provider_data = put eq? provider data_of p.provider_data })

    abbrev pub get_data_by_provider : V → K → Aggregating C K V V
    get_data_by_provider empty provider =
        gets (λ p. value_or empty (get eq? provider p.provider_data))
