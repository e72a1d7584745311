-- ===== src/Median/Collect.antt =====
-- The first loop of `Median` (pkg/math/voteweighted/voteweighted.go): what is collected for a pair.
use mathlib.Core.List.{map, filter, append-nil, append_assoc}
use orynx.Prelude.{
  ℕ, ◌+◌, ◌≡◌, refl, List, [], ◌∷◌, ◌++◌, Option, none, some, Text, arith, Option-cases, inl, inr,
  ap, ◌∙◌, sym,
}
use orynx.Prelude.Dict.{Dict, get, put, get-put, IsMap, put-IsMap}
use orynx.Prelude.Sums.{sum_by}
use orynx.CurrencyPair.{CurrencyPair, CurrencyPair-discrete}
use orynx.Median.{
  PricePerValidator, PriceInfo, Prices, add_prices, add_validator, collect_prices, add_report,
  info_or_new,
}
use orynx.Median.Weights.{weight_of}

abbrev pub Report : Type 0
Report = CurrencyPair × PricePerValidator

-- The prices of one validator that are not nil.
abbrev pub reports_of : ℕ → Prices → List Report
reports_of weight [] = []
reports_of weight ((cp, none) ∷ ps) = reports_of weight ps
reports_of weight ((cp, some price) ∷ ps) =
    (cp, record { vote_weight = weight; price = price }) ∷ reports_of weight ps

abbrev reports_at : Option ℕ → Prices → List Report
reports_at none ps = []
reports_at (some weight) ps = reports_of weight ps

-- The reports of all validators that the store knows.
abbrev pub reports : (Text → Option ℕ) → Dict Text Prices → List Report
reports validator [] = []
reports validator ((address, ps) ∷ rest) =
    reports_at (validator address) ps ++ reports validator rest

abbrev pub for_pair : CurrencyPair → List Report → List PricePerValidator
for_pair cp rs = map (λ r. r.1) (filter (λ r. CurrencyPair-discrete cp r.0) rs)

-- The price info that holds exactly the given reports; there is none without reports.
abbrev pub summary : List PricePerValidator → Option PriceInfo
summary [] = none
summary (r ∷ rs) = some (record { prices = r ∷ rs; total_weight = sum_by weight_of (r ∷ rs) })

abbrev extend : Option PriceInfo → List PricePerValidator → Option PriceInfo
extend o [] = o
extend o (r ∷ rs) = extend (some (add_report r.vote_weight r.price (info_or_new o))) rs

for_pair-append :
    (cp : CurrencyPair) (xs ys : List Report)
    → for_pair cp (xs ++ ys) ≡ for_pair cp xs ++ for_pair cp ys
for_pair-append cp [] ys = refl
for_pair-append cp ((k, r) ∷ xs) ys = ground (arith, for_pair-append cp xs ys)

extend-append :
    (o : Option PriceInfo) (xs ys : List PricePerValidator)
    → extend o (xs ++ ys) ≡ extend (extend o xs) ys
extend-append o [] ys = refl
extend-append o (x ∷ xs) ys =
    extend-append (some (add_report x.vote_weight x.price (info_or_new o))) xs ys

get-add_prices :
    (cp : CurrencyPair) (weight : ℕ) (ps : Prices) (infos : Dict CurrencyPair PriceInfo)
    → get CurrencyPair-discrete cp (add_prices weight ps infos)
      ≡ extend (get CurrencyPair-discrete cp infos) (for_pair cp (reports_of weight ps))
unfolding add_prices
get-add_prices cp weight [] infos = refl
get-add_prices cp weight ((k, none) ∷ ps) infos = get-add_prices cp weight ps infos
get-add_prices cp weight ((k, some price) ∷ ps) infos =
    let info = add_report weight price (info_or_new (get CurrencyPair-discrete k infos)) in
    ground (
      arith,
      get-add_prices cp weight ps (put CurrencyPair-discrete k info infos),
      get-put CurrencyPair-discrete cp k info infos,
    )

get-collect_prices :
    (cp : CurrencyPair) (validator : Text → Option ℕ) (providers : Dict Text Prices)
    (infos : Dict CurrencyPair PriceInfo)
    → get CurrencyPair-discrete cp (collect_prices validator providers infos)
      ≡ extend (get CurrencyPair-discrete cp infos) (for_pair cp (reports validator providers))
unfolding collect_prices
get-collect_prices cp validator [] infos = refl
get-collect_prices cp validator ((address, ps) ∷ rest) infos =
    elim (Option-cases (validator address)) [
      | inl e ↦ rw (e, add_validator, reports_at) (get-collect_prices cp validator rest infos)
      | inr (weight, e) ↦
          rw (e, add_validator, reports_at)
            (get-collect_prices cp validator rest (add_prices weight ps infos)
              ∙ ap (λ o. extend o (for_pair cp (reports validator rest)))
                  (get-add_prices cp weight ps infos)
              ∙ sym (
                  extend-append _ (for_pair cp (reports_of weight ps))
                    (for_pair cp (reports validator rest)))
              ∙ ap (extend (get CurrencyPair-discrete cp infos))
                  (sym (for_pair-append cp (reports_of weight ps) (reports validator rest))))
    ]

extend-some :
    (info : PriceInfo) (rs : List PricePerValidator)
    → extend (some info) rs
      ≡ some (record {
        prices = info.prices ++ rs;
        total_weight = info.total_weight + sum_by weight_of rs;
      })
extend-some info [] = ground (arith, append-nil info.prices)
extend-some info (r ∷ rs) = ground (
  arith,
  extend-some (add_report r.vote_weight r.price info) rs,
  append_assoc info.prices (r ∷ []) rs,
)

extend-none : (rs : List PricePerValidator) → extend none rs ≡ summary rs
extend-none [] = refl
extend-none (r ∷ rs) =
    ground (arith, extend-some (add_report r.vote_weight r.price (info_or_new none)) rs)

-- For each pair, what the first loop of `Median` keeps is exactly the non-nil prices of the known
-- validators for that pair, with the sum of their weights, and nothing if there is no such price.
pub collect_prices-summary :
    (cp : CurrencyPair) (validator : Text → Option ℕ) (providers : Dict Text Prices)
    → get CurrencyPair-discrete cp (collect_prices validator providers [])
      ≡ summary (for_pair cp (reports validator providers))
unfolding get
collect_prices-summary cp validator providers =
    get-collect_prices cp validator providers []
    ∙ extend-none (for_pair cp (reports validator providers))

add_prices-IsMap :
    (weight : ℕ) (ps : Prices) (infos : Dict CurrencyPair PriceInfo)
    → IsMap CurrencyPair-discrete infos
    → IsMap CurrencyPair-discrete (add_prices weight ps infos)
unfolding add_prices
add_prices-IsMap weight [] infos h = h
add_prices-IsMap weight ((cp, none) ∷ ps) infos h = add_prices-IsMap weight ps infos h
add_prices-IsMap weight ((cp, some price) ∷ ps) infos h =
    add_prices-IsMap weight ps _ (put-IsMap CurrencyPair-discrete cp _ infos h)

pub collect_prices-IsMap :
    (validator : Text → Option ℕ) (providers : Dict Text Prices)
    (infos : Dict CurrencyPair PriceInfo)
    → IsMap CurrencyPair-discrete infos
    → IsMap CurrencyPair-discrete (collect_prices validator providers infos)
unfolding collect_prices
collect_prices-IsMap validator [] infos h = h
collect_prices-IsMap validator ((address, ps) ∷ rest) infos h =
    collect_prices-IsMap validator rest _ (step (validator address))
  where
    step : (o : Option ℕ) → IsMap CurrencyPair-discrete (add_validator o ps infos)
    step none = h
    step (some weight) = add_prices-IsMap weight ps infos h
