-- ===== src/Abci/Strategies/Hash.antt =====
-- Hashed pair ids (abci/strategies/currencypair/hash.go): ids of 64 bits that no keeper state holds,
-- resolved through the cache.
use orynx.Prelude.{
  ℕ, ◌≡◌, refl, List, [], ◌∷◌, ◌++◌, All, Option, none, some, Text, Result, ok, arith, ℕ_discrete,
  inl, inr, Option-cases, Result-cases,
}
use orynx.Prelude.Dict.{get, get-put}
use orynx.CurrencyPair.{CurrencyPair, to_string}
use orynx.Abci.{Context}
use orynx.Abci.Strategies.{
  OracleReader, StrategyError, IdCache, reset_ids, cache_id, hash_from_id, fill_cache, fetch_hashed,
}

module _ {W : Type 0} (k : OracleReader W) (hash_id : Text → Result StrategyError ℕ) where
  -- Every cached pair is under its hash.
  abbrev pub HashesFit : IdCache → Type 0
  HashesFit c =
      (id : ℕ) (cp : CurrencyPair)
      → get ℕ_discrete id c.id_cache ≡ some cp
      → hash_id (to_string cp) ≡ ok id

  reset_ids-HashesFit : (ctx : Context) (c : IdCache) → HashesFit c → HashesFit (reset_ids ctx c)
  unfolding reset_ids get
  reset_ids-HashesFit ctx c f id cp e = ground (arith, f id cp)

  cache_id-HashesFit :
      (cp : CurrencyPair) (c : IdCache) {id : ℕ}
      → hash_id (to_string cp) ≡ ok id
      → HashesFit c
      → HashesFit (cache_id id cp c)
  cache_id-HashesFit cp c {id} e f j cp' q =
      ground (arith, get-put ℕ_discrete j id cp c.id_cache, f j cp')

  fill_cache-HashesFit :
      (cps : List CurrencyPair) (c : IdCache)
      → HashesFit c
      → HashesFit (fill_cache k hash_id cps c).1
  fill_cache-HashesFit [] c f = f
  fill_cache-HashesFit (cp ∷ cps) c f = elim (Result-cases (hash_id (to_string cp))) [
    | inr (x, e) ↦ rw e f
    | inl (id, e) ↦ rw e (fill_cache-HashesFit cps (cache_id id cp c) (cache_id-HashesFit cp c e f))
  ]

  fetch_hashed_sound :
      (id : ℕ) (w : W) (o : Option CurrencyPair) (c : IdCache)
      → get ℕ_discrete id c.id_cache ≡ o
      → HashesFit c
      → HashesFit (fetch_hashed k hash_id id w o c).1
        × ((cp : CurrencyPair)
            → (fetch_hashed k hash_id id w o c).0 ≡ ok cp
            → hash_id (to_string cp) ≡ ok id)
  fetch_hashed_sound id w (some cp) c e f = (f, λ cp' q. f id cp' (ground arith))
  fetch_hashed_sound id w none c e f =
      let filled = fill_cache k hash_id (k.all_pairs w) c in
      let fit = fill_cache-HashesFit (k.all_pairs w) c f in
      elim (Result-cases filled.0) [
        | inr (x, d) ↦ (λ j cp q. ground (arith, fit j cp), λ cp q. absurd (ground arith))
        | inl (u, d) ↦ elim (Option-cases (get ℕ_discrete id filled.1.id_cache)) [
          | inl n ↦ (λ j cp q. ground (arith, fit j cp), λ cp q. absurd (ground arith))
          | inr (cp', n) ↦ (λ j cp q. ground (arith, fit j cp), λ cp q. fit id cp (ground arith))
        ]
      ]

  -- `FromID` returns no pair under a wrong hash: from a cache whose pairs are under their hashes, the
  -- pair that it returns has the id as its hash, and the cache stays such.
  pub hash_from_id_sound :
      (ctx : Context) (id : ℕ) (w : W) (c : IdCache)
      → HashesFit c
      → HashesFit (hash_from_id k hash_id ctx id w c).1
        × ((cp : CurrencyPair)
            → (hash_from_id k hash_id ctx id w c).0 ≡ ok cp
            → hash_id (to_string cp) ≡ ok id)
  unfolding hash_from_id
  hash_from_id_sound ctx id w c f =
      let c1 = reset_ids ctx c in
      fetch_hashed_sound id w (get ℕ_discrete id c1.id_cache) c1 refl (reset_ids-HashesFit ctx c f)

  abbrev Hashes : CurrencyPair → Type 0
  Hashes cp = (id : ℕ) × (hash_id (to_string cp) ≡ ok id)

  abbrev HasEntry : ℕ → IdCache → Type 0
  HasEntry id c = (cp : CurrencyPair) × (get ℕ_discrete id c.id_cache ≡ some cp)

  cache_id-HasEntry :
      (id j : ℕ) (cp : CurrencyPair) (c : IdCache) → HasEntry id c → HasEntry id (cache_id j cp c)
  cache_id-HasEntry id j cp c (old, e) = elim (ℕ_discrete id j) [
    | yes p ↦ (cp, ground (arith, get-put ℕ_discrete id j cp c.id_cache))
    | no n ↦ (old, ground (arith, get-put ℕ_discrete id j cp c.id_cache))
  ]

  fill_cache-ok :
      (cps : List CurrencyPair) (c : IdCache)
      → All Hashes cps
      → (fill_cache k hash_id cps c).0 ≡ ok tt
  fill_cache-ok [] c h = refl
  fill_cache-ok (cp ∷ cps) c h = rw h.0.1 (fill_cache-ok cps (cache_id h.0.0 cp c) h.1)

  fill_cache-keeps :
      (id : ℕ) (cps : List CurrencyPair) (c : IdCache)
      → All Hashes cps
      → HasEntry id c
      → HasEntry id (fill_cache k hash_id cps c).1
  fill_cache-keeps id [] c h e = e
  fill_cache-keeps id (cp ∷ cps) c h e =
      rw h.0.1
        (fill_cache-keeps id cps (cache_id h.0.0 cp c) h.1 (cache_id-HasEntry id h.0.0 cp c e))

  fill_cache-adds :
      (cp : CurrencyPair) (l r : List CurrencyPair) (c : IdCache) {id : ℕ}
      → All Hashes (l ++ cp ∷ r)
      → hash_id (to_string cp) ≡ ok id
      → HasEntry id (fill_cache k hash_id (l ++ cp ∷ r) c).1
  fill_cache-adds cp [] r c {id} h e = rw e (
      fill_cache-keeps id r (cache_id id cp c) h.1
        (cp, ground (arith, get-put ℕ_discrete id id cp c.id_cache)))
  fill_cache-adds cp (x ∷ l) r c {id} h e =
      rw h.0.1 (fill_cache-adds cp l r (cache_id h.0.0 x c) h.1 e)

  -- A tracked pair is found under its hash, in any cache whose pairs are under their hashes: `FromID`
  -- succeeds, and if no two strings have this hash, then it returns a pair with the same string.
  pub hash_from_id_complete :
      (ctx : Context) (cp : CurrencyPair) (l r : List CurrencyPair) (w : W) (c : IdCache) {id : ℕ}
      → k.all_pairs w ≡ l ++ cp ∷ r
      → All Hashes (l ++ cp ∷ r)
      → HashesFit c
      → hash_id (to_string cp) ≡ ok id
      → ((s : Text) → hash_id s ≡ ok id → s ≡ to_string cp)
      → (cp' : CurrencyPair) × ((hash_from_id k hash_id ctx id w c).0 ≡ ok cp')
        × (to_string cp' ≡ to_string cp)
  unfolding hash_from_id
  hash_from_id_complete ctx cp l r w c {id} t h f e inj =
      let c1 = reset_ids ctx c in
      elim (Option-cases (get ℕ_discrete id c1.id_cache)) [
        | inr (cp', d) ↦
            (cp', ground arith, inj (to_string cp') (reset_ids-HashesFit ctx c f id cp' d))
        | inl d ↦
            let (cp', q) = fill_cache-adds cp l r c1 h e in
            let fit = fill_cache-HashesFit (l ++ cp ∷ r) c1 (reset_ids-HashesFit ctx c f) in
            (
              cp',
              ground (arith, fill_cache-ok (l ++ cp ∷ r) c1 h),
              inj (to_string cp') (fit id cp' q),
            )
      ]
