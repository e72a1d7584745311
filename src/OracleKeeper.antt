-- ===== src/OracleKeeper.antt =====
-- x/oracle/keeper/keeper.go and abci.go: the on-chain state of the price feeds. A method takes and
-- returns the whole state; `uint64` counters wrap at 2 ^ 64.
pub mod Store
pub mod Queries
pub mod GenesisState
pub mod Genesis
pub mod MsgServer
pub mod Invariant
pub mod Prices
pub mod Counting
pub mod Lookup
pub mod Ids
pub mod Steps
pub mod Tests
use orynx.Prelude.{
  ℕ, ◌+◌, ◌-◌, ◌%◌, ◌^◌, Bool, true, false, not, List, [], ◌∷◌, Option, none, some, Text,
}
use orynx.Prelude.Action.{Action, ◌>>=◌, ◌>>◌, pure, raise, gets, modify, raise_if, or_raise}
use orynx.CurrencyPair.{CurrencyPair, PairError, to_string}
pub use Store.{PairStore, CurrencyPairState, QuotePrice, Entries}

pub data KeeperError : Type 0 where
  not_found pair_not_exist pair_already_exists price_not_exist id_in_use : KeeperError
  bad_authority server_disabled market_map_failure invalid_genesis : KeeperError
  invalid_pair : PairError → KeeperError

-- The collections of `Keeper`. A counter is `none` until genesis sets it.
pub record State (S : Type 0) : Type 0 where
  pub store : S
  pub next_id : ℕ
  pub num_removes : Option ℕ
  pub num_cps : Option ℕ

abbrev pub u64_mod : ℕ
u64_mod = 2 ^ 64

-- `val++` and `val--` on a uint64.
abbrev pub u64_inc : ℕ → ℕ
u64_inc n = (n + 1) % u64_mod

abbrev pub u64_dec : ℕ → ℕ
u64_dec n = (n + (u64_mod - 1)) % u64_mod

abbrev pub is_some {ℓ} : {A : Type ℓ} → Option A → Bool
is_some none = false
is_some (some a) = true

-- `types.NewCurrencyPairState`
abbrev pub new_currency_pair_state : ℕ → ℕ → Option QuotePrice → CurrencyPairState
new_currency_pair_state id nonce price = record { price = price; nonce = nonce; id = id }

module _ (c : PairStore) where
  abbrev pub Keeping : Type 0 → Type 0
  Keeping = Action (State c.Store) KeeperError

  -- `k.currencyPairs.Get(ctx, cp.String())`
  abbrev pub find : CurrencyPair → State c.Store → Option CurrencyPairState
  find cp s = c.look (to_string cp) s.store

  -- `HasCurrencyPair`
  abbrev pub has_currency_pair : CurrencyPair → State c.Store → Bool
  has_currency_pair cp s = is_some (find cp s)

  -- `k.currencyPairs.Set`
  abbrev pub set_state : CurrencyPair → CurrencyPairState → Keeping (Unit {0})
  set_state cp v = do
    store ← gets (λ s. s.store)
    store' ← or_raise (c.set (to_string cp) v store) id_in_use
    modify (λ s. record s { store = store' })

  -- `k.nextCurrencyPairID.Next`
  abbrev pub take_id : Keeping ℕ
  take_id = do id ← gets (λ s. s.next_id); modify (λ s. record s { next_id = u64_inc id }); pure id

  abbrev pub increment_removed_cp_counter : Keeping (Unit {0})
  increment_removed_cp_counter = do
    val ← or_raise (← gets (λ s. s.num_removes)) not_found
    modify (λ s. record s { num_removes = some (u64_inc val) })

  abbrev pub increment_cp_counter : Keeping (Unit {0})
  increment_cp_counter = do
    val ← or_raise (← gets (λ s. s.num_cps)) not_found
    modify (λ s. record s { num_cps = some (u64_inc val) })

  abbrev pub decrement_cp_counter : Keeping (Unit {0})
  decrement_cp_counter = do
    val ← or_raise (← gets (λ s. s.num_cps)) not_found
    modify (λ s. record s { num_cps = some (u64_dec val) })

  unfoldable pub remove_currency_pair : CurrencyPair → Keeping (Unit {0})
  remove_currency_pair cp = do
    raise_if (not (← gets (has_currency_pair cp))) pair_not_exist
    modify (λ s. record s { store = c.remove (to_string cp) s.store })
    increment_removed_cp_counter
    decrement_cp_counter

  unfoldable pub create_currency_pair : CurrencyPair → Keeping (Unit {0})
  create_currency_pair cp = do
    raise_if (← gets (has_currency_pair cp)) pair_already_exists
    id ← take_id
    set_state cp (new_currency_pair_state id 0 none)
    increment_cp_counter

  -- The state that `SetPriceForCurrencyPair` writes for a pair that exists, or for a new one.
  abbrev pub updated_state : QuotePrice → Option CurrencyPairState → Keeping CurrencyPairState
  updated_state qp none = do id ← take_id; pure (new_currency_pair_state id 0 (some qp))
  updated_state qp (some cps) = pure (record cps { nonce = u64_inc cps.nonce; price = some qp })

  unfoldable pub set_price_for_currency_pair : CurrencyPair → QuotePrice → Keeping (Unit {0})
  set_price_for_currency_pair cp qp = do cps ← updated_state qp (← gets (find cp)); set_state cp cps

  -- `BeginBlocker` (abci.go)
  unfoldable pub begin_blocker : Keeping (Unit {0})
  begin_blocker = modify (λ s. record s { num_removes = some 0 })
