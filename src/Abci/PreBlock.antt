-- ===== src/Abci/PreBlock.antt =====
-- abci/preblock/oracle/preblock.go: before the transactions of a block run, the prices of its vote
-- extensions are written to the state. The PreBlock calls of the other modules are a parameter.
pub mod Medians
pub mod Reports
use orynx.Prelude.{
  Bool, true, false, List, Option, none, some, Text, Result, ok, err, if◌then◌else◌,
}
use orynx.Prelude.Action.{Action, ◌>>=◌, ◌>>◌, pure, raise, map_error}
use orynx.OracleKeeper.{PairStore, State}
use orynx.Median.{Prices}
use orynx.Abci.{Context, vote_extensions_enabled}
use orynx.Abci.Applier.{Applied, ApplyError, PriceApplier, apply_prices_from_vote_extensions}

pub data PreBlockError : Type 0 where
  nil_finalize_request module_failure : PreBlockError
  apply_failure : ApplyError → PreBlockError

module _ (c : PairStore) (pa : PriceApplier c) where
  abbrev pub PreBlocking : Type 0 → Type 0
  PreBlocking = Action (Applied c pa.strategy.Cache) PreBlockError

  abbrev pub drop_prices : Prices → Unit {0}
  drop_prices prices = tt

  -- The part that both pre-blockers share.
  abbrev pub apply_block : Context → List Text → PreBlocking (Unit {0})
  apply_block ctx txs =
      if vote_extensions_enabled ctx
      then (do
        prices ← map_error apply_failure (apply_prices_from_vote_extensions c pa ctx txs)
        pure (drop_prices prices))
      else pure tt

  -- `PreBlocker`; a request is the transactions of its block.
  unfoldable pub pre_blocker : Context → Option (List Text) → PreBlocking (Unit {0})
  pre_blocker ctx none = raise nil_finalize_request
  pre_blocker ctx (some txs) = apply_block ctx txs

  -- `mm.PreBlock` on the state of the oracle module, with its error.
  abbrev run_modules : (State c.Store → Bool × State c.Store) → PreBlocking (Unit {0})
  run_modules modules a =
      let (failed, s) = modules a.chain in
      (if failed then err module_failure else ok tt, record a { chain = s })

  -- `WrappedPreBlocker`
  unfoldable pub wrapped_pre_blocker :
      (State c.Store → Bool × State c.Store) → Context → Option (List Text) → PreBlocking (Unit {0})
  wrapped_pre_blocker modules ctx none = raise nil_finalize_request
  wrapped_pre_blocker modules ctx (some txs) = do run_modules modules; apply_block ctx txs
