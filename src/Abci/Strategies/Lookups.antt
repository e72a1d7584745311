-- ===== src/Abci/Strategies/Lookups.antt =====
-- The id caches of abci/strategies/currencypair/default.go against lookups without a cache. The state
-- of the oracle module is the same in every call at one height.
use orynx.Prelude.{
  ℕ, ◌≡◌, refl, List, [], ◌∷◌, Option, none, some, Result, ok, err, arith, ℕ_discrete, inl, inr,
  Option-cases,
}
use orynx.Prelude.Action.{◌>>=◌, pure}
use orynx.Prelude.Dict.{get, get-put}
use orynx.CurrencyPair.{CurrencyPair}
use orynx.OracleKeeper.{PairStore, State}
use orynx.OracleKeeper.Invariant.{Inv}
use orynx.OracleKeeper.Lookup.{IsReadable, from_id-of_pair}
use orynx.Abci.{Context}
use orynx.Abci.Strategies.{
  OracleReader, keeper_reader, StrategyError, IdCache, Caching, reset_ids, cache_id, default_id,
  default_from_id, unknown_pair, unknown_id,
}

-- A call of a strategy, and what it returns.
pub data Lookup : Type 0 where
  by_pair : CurrencyPair → Lookup
  by_id : ℕ → Lookup

pub data Answer : Type 0 where
  the_id : ℕ → Answer
  the_pair : CurrencyPair → Answer

abbrev pub as_answer {ℓ} :
    {A : Type ℓ} → StrategyError → (A → Answer) → Option A → Result StrategyError Answer
as_answer e f none = err e
as_answer e f (some a) = ok (f a)

module _ {W : Type 0} (k : OracleReader W) where
  abbrev pub look_up : Context → Lookup → W → Caching k Answer
  look_up ctx (by_pair cp) w = do id ← default_id k ctx cp w; pure (the_id id)
  look_up ctx (by_id id) w = do cp ← default_from_id k ctx id w; pure (the_pair cp)

  -- The answer of the state alone.
  abbrev pub direct_answer : Lookup → W → Result StrategyError Answer
  direct_answer (by_pair cp) w = as_answer unknown_pair the_id (k.id_of cp w)
  direct_answer (by_id id) w = as_answer unknown_id the_pair (k.pair_from_id id w)

  -- Every cached pair is the one that the state has under the id.
  abbrev pub IdsFit : W → IdCache → Type 0
  IdsFit w c =
      (id : ℕ) (cp : CurrencyPair)
      → get ℕ_discrete id c.id_cache ≡ some cp
      → k.pair_from_id id w ≡ some cp

  -- The id of a pair leads back to the pair.
  abbrev pub IsResolved : CurrencyPair → W → Type 0
  IsResolved cp w = (id : ℕ) → k.id_of cp w ≡ some id → k.pair_from_id id w ≡ some cp

  pub cache_id-IdsFit :
      (id : ℕ) (cp : CurrencyPair) (w : W) (c : IdCache)
      → k.pair_from_id id w ≡ some cp
      → IdsFit w c
      → IdsFit w (cache_id id cp c)
  cache_id-IdsFit id cp w c e f j cp' q =
      ground (arith, get-put ℕ_discrete j id cp c.id_cache, f j cp')

  module _ (world : ℕ → W) where
    abbrev pub IsCoherent : IdCache → Type 0
    IsCoherent c = IdsFit (world c.previous_height) c

    pub reset_ids-IsCoherent :
        (ctx : Context) (c : IdCache)
        → IsCoherent c
        → IdsFit (world ctx.block_height) (reset_ids ctx c)
          × ((reset_ids ctx c).previous_height ≡ ctx.block_height)
    unfolding reset_ids get
    reset_ids-IsCoherent ctx c f = (λ id cp e. ground (arith, f id cp), ground arith)

    -- The ids of a call of `ID` lead back to their pairs.
    abbrev pub ResolvesCall : Context → Lookup → Type 0
    ResolvesCall ctx (by_pair cp) = IsResolved cp (world ctx.block_height)
    ResolvesCall ctx (by_id id) = Unit

    abbrev IsDirect : Context → Lookup → IdCache → Type 0
    IsDirect ctx q c =
        let (r, c') = look_up ctx q (world ctx.block_height) c in
        (r ≡ direct_answer q (world ctx.block_height)) × IsCoherent c'

    look_up-IsDirect :
        (ctx : Context) (q : Lookup) (c : IdCache)
        → IsCoherent c
        → ResolvesCall ctx q
        → IsDirect ctx q c
    unfolding default_id default_from_id
    look_up-IsDirect ctx (by_pair cp) c f r =
        let (fit, same) = reset_ids-IsCoherent ctx c f in
        elim (Option-cases (k.id_of cp (world ctx.block_height))) [
          | inl e ↦ (ground arith, λ id cp' q. ground (arith, fit id cp'))
          | inr (id, e) ↦ (
            ground arith,
            λ j cp' q. ground (
              arith,
              cache_id-IdsFit id cp (world ctx.block_height) (reset_ids ctx c) (r id e) fit j cp',
            ),
          )
        ]
    look_up-IsDirect ctx (by_id id) c f r =
        let (fit, same) = reset_ids-IsCoherent ctx c f in
        let w = world ctx.block_height in
        let c1 = reset_ids ctx c in
        elim (Option-cases (get ℕ_discrete id c1.id_cache)) [
          | inr (cp, e) ↦ (ground (arith, fit id cp e), λ j cp' q. ground (arith, fit j cp'))
          | inl e ↦ elim (Option-cases (k.pair_from_id id w)) [
            | inl d ↦ (ground arith, λ j cp' q. ground (arith, fit j cp'))
            | inr (cp, d) ↦
                (ground arith, λ j cp' q. ground (arith, cache_id-IdsFit id cp w c1 d fit j cp'))
          ]
        ]

    -- The answers to a list of calls, each at the height of its context.
    abbrev pub answers : List (Context × Lookup) → IdCache → List (Result StrategyError Answer)
    answers [] c = []
    answers ((ctx, q) ∷ qs) c =
        let (r, c') = look_up ctx q (world ctx.block_height) c in r ∷ answers qs c'

    abbrev pub direct_answers : List (Context × Lookup) → List (Result StrategyError Answer)
    direct_answers [] = []
    direct_answers ((ctx, q) ∷ qs) = direct_answer q (world ctx.block_height) ∷ direct_answers qs

    abbrev pub ResolvesAll : List (Context × Lookup) → Type 0
    ResolvesAll [] = Unit
    ResolvesAll ((ctx, q) ∷ qs) = ResolvesCall ctx q × ResolvesAll qs

    pub answers-direct :
        (qs : List (Context × Lookup)) (c : IdCache)
        → IsCoherent c
        → ResolvesAll qs
        → answers qs c ≡ direct_answers qs
    answers-direct [] c f r = refl
    answers-direct ((ctx, q) ∷ qs) c f r =
        let (same, f') = look_up-IsDirect ctx q c f r.0 in
        ground (arith, same, answers-direct qs (look_up ctx q (world ctx.block_height) c).1 f' r.1)

-- The cache of `NewDefaultCurrencyPairStrategy`.
abbrev pub new_cache : IdCache
new_cache = record { id_cache = []; previous_height = 0 }

module _ (c : PairStore) (world : ℕ → State c.Store) where
  abbrev pub AreReadable : List (Context × Lookup) → Type 0
  AreReadable [] = Unit
  AreReadable ((ctx, by_pair cp) ∷ qs) = IsReadable cp × AreReadable qs
  AreReadable ((ctx, by_id id) ∷ qs) = AreReadable qs

  readable_resolves :
      (qs : List (Context × Lookup))
      → ((h : ℕ) → Inv c (world h))
      → AreReadable qs
      → ResolvesAll (keeper_reader c) world qs
  readable_resolves [] i r = tt
  readable_resolves ((ctx, by_pair cp) ∷ qs) i r = (
    λ id e. from_id-of_pair c cp (world ctx.block_height) (i ctx.block_height) r.0 e,
    readable_resolves qs i r.1,
  )
  readable_resolves ((ctx, by_id id) ∷ qs) i r = (tt, readable_resolves qs i r)

  -- The default strategy refines lookups without a cache: if the oracle state is the same in all calls at
  -- one height and keeps the invariant, and every pair asked for is readable, then any sequence of calls
  -- of `ID` and `FromID`, at any heights, from a new strategy answers each call as the state of its height
  -- does.
  pub answers-direct_answers :
      (qs : List (Context × Lookup))
      → ((h : ℕ) → Inv c (world h))
      → AreReadable qs
      → answers (keeper_reader c) world qs new_cache ≡ direct_answers (keeper_reader c) world qs
  unfolding get
  answers-direct_answers qs i r =
      answers-direct (keeper_reader c) world qs new_cache (λ id cp e. absurd (ground arith))
        (readable_resolves qs i r)
