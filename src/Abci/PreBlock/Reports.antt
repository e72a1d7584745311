-- ===== src/Abci/PreBlock/Reports.antt =====
-- abci/preblock/oracle/utils.go: what the pre-blocker records of each validator once the prices of the
-- block are written.
use orynx.Prelude.{Bool, true, false, List, [], ◌∷◌, Option, none, some, Text, if◌then◌else◌}
use orynx.Prelude.Dict.{get}
use orynx.Prelude.Int.{ℤ}
use orynx.CurrencyPair.{CurrencyPair, CurrencyPair-discrete}
use orynx.Median.{Prices}
use orynx.Abci.{BlockIdFlag, unknown, absent, commit, nil_vote}

-- `servicemetrics.ReportStatus`, with the price of `AddValidatorPriceForTicker`.
pub data ReportStatus : Type 0 where
  voted_absent missing_price : ReportStatus
  with_price : ℤ → ReportStatus

abbrev pub is_commit : BlockIdFlag → Bool
is_commit commit = true
is_commit unknown = false
is_commit absent = false
is_commit nil_vote = false

abbrev pub status_of : Option (Option ℤ) → ReportStatus
status_of none = missing_price
status_of (some none) = missing_price
status_of (some (some price)) = with_price price

-- One turn of the inner loop.
abbrev pub pair_status : BlockIdFlag → Prices → CurrencyPair → ReportStatus
pair_status flag prices cp =
    if is_commit flag then status_of (get CurrencyPair-discrete cp prices) else voted_absent

abbrev pub pair_reports :
    BlockIdFlag → Prices → List CurrencyPair → List (CurrencyPair × ReportStatus)
pair_reports flag prices [] = []
pair_reports flag prices (cp ∷ cps) =
    (cp, pair_status flag prices cp) ∷ pair_reports flag prices cps

-- `recordValidatorReports`: the reports of each validator of a commit, from the prices of a validator.
abbrev pub validator_reports :
    (Text → Prices)
    → List CurrencyPair
    → List (Text × BlockIdFlag)
    → List (Text × List (CurrencyPair × ReportStatus))
validator_reports prices_for cps [] = []
validator_reports prices_for cps ((validator, flag) ∷ votes) =
    (validator, pair_reports flag (prices_for validator) cps)
    ∷ validator_reports prices_for cps votes
