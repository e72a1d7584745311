-- ===== src/MarketMap/Keeper/MsgServer/Sweep.antt =====
-- `RemoveMarketAuthorities` (x/marketmap/keeper/msg_server.go), whose loop deletes from the slice that
-- it ranges over.
use orynx.Prelude.{
  ℕ, zero, suc, ◌≤◌, ◌≡◌, refl, true, false, List, [], ◌∷◌, Text, ok, length, arith, if◌then◌else◌,
  Bool-cases, inl, inr,
}
use orynx.MarketMap.{is_member}
use orynx.MarketMap.Keeper.MsgServer.{sweep}

-- What the message asks for: the authorities that are not to be removed.
abbrev pub without : List Text → List Text → List Text
without removed [] = []
without removed (a ∷ auths) =
    if is_member a removed then without removed auths else a ∷ without removed auths

-- No two neighbours are both to be removed.
abbrev pub AreIsolated : List Text → List Text → Type 0
AreIsolated removed [] = Unit
AreIsolated removed (a ∷ []) = Unit
AreIsolated removed (a ∷ b ∷ auths) =
    (is_member a removed ≡ true → is_member b removed ≡ false) × AreIsolated removed (b ∷ auths)

sweep_none :
    (removed : List Text) (n : ℕ) → is_member [] removed ≡ false → sweep removed n [] ≡ ok []
unfolding sweep
sweep_none removed zero h = refl
sweep_none removed (suc n) h = ground arith

AreIsolated-tail :
    (removed : List Text) (a : Text) (auths : List Text)
    → AreIsolated removed (a ∷ auths)
    → AreIsolated removed auths
AreIsolated-tail removed a [] h = tt
AreIsolated-tail removed a (b ∷ auths) h = h.1

sweep_enough :
    (removed : List Text) (n : ℕ) (auths : List Text)
    → is_member [] removed ≡ false
    → length auths ≤ n
    → AreIsolated removed auths
    → sweep removed n auths ≡ ok (without removed auths)
unfolding sweep
sweep_enough removed n [] h l i = sweep_none removed n h
sweep_enough removed zero (a ∷ auths) h l i = absurd (omega (arith, l))
sweep_enough removed (suc n) (a ∷ []) h l i = ground (arith, sweep_none removed n h)
sweep_enough removed (suc n) (a ∷ b ∷ auths) h l i = ground (
  arith,
  sweep_enough removed n (b ∷ auths) h,
  sweep_enough removed n auths h,
  AreIsolated-tail removed b auths i.1,
)

-- If no two neighbours are both to be removed, and the empty text is not to be removed, the loop leaves
-- exactly the authorities that are not to be removed.
pub sweep_isolated :
    (removed auths : List Text)
    → is_member [] removed ≡ false
    → AreIsolated removed auths
    → sweep removed (length auths) auths ≡ ok (without removed auths)
sweep_isolated removed auths h i = sweep_enough removed (length auths) auths h (omega arith) i

sweep_total :
    (removed : List Text) (n : ℕ) (auths : List Text)
    → is_member [] removed ≡ false
    → (rest : List Text) × (sweep removed n auths ≡ ok rest)
      × ((a : Text)
          → is_member a auths ≡ true
          → is_member a removed ≡ false
          → is_member a rest ≡ true)
      × ((a : Text) → is_member a rest ≡ true → is_member a auths ≡ true)
unfolding sweep is_member
sweep_total removed zero auths h = (auths, refl, λ a m n. m, λ a m. m)
sweep_total removed (suc n) [] h = ([], ground arith, λ a m k. m, λ a m. m)
sweep_total removed (suc n) (a ∷ []) h = elim (Bool-cases (is_member a removed)) [
  | inl m ↦ (
    [],
    ground (arith, sweep_none removed n h),
    λ x p q. ground arith,
    λ x p. absurd ground arith,
  )
  | inr m ↦ (a ∷ [], ground (arith, sweep_none removed n h), λ x p q. p, λ x p. p)
]
sweep_total removed (suc n) (a ∷ b ∷ auths) h = elim (Bool-cases (is_member a removed)) [
  | inl m ↦
      let (rest, e, kept, from) = sweep_total removed n auths h in
      (b ∷ rest, ground arith, λ x p q. ground (arith, kept x), λ x p. ground (arith, from x))
  | inr m ↦
      let (rest, e, kept, from) = sweep_total removed n (b ∷ auths) h in
      (a ∷ rest, ground arith, λ x p q. ground (arith, kept x), λ x p. ground (arith, from x))
]

-- If the empty text is not to be removed, the loop ends without an error, keeps every authority that is
-- not to be removed, and adds none.
pub sweep_lem :
    (removed auths : List Text)
    → is_member [] removed ≡ false
    → (rest : List Text) × (sweep removed (length auths) auths ≡ ok rest)
      × ((a : Text)
          → is_member a auths ≡ true
          → is_member a removed ≡ false
          → is_member a rest ≡ true)
      × ((a : Text) → is_member a rest ≡ true → is_member a auths ≡ true)
sweep_lem removed auths h = sweep_total removed (length auths) auths h

-- Of two first authorities that are both to be removed, the second one stays.
pub sweep_adjacent :
    (removed : List Text) (a b : Text) (auths : List Text)
    → is_member [] removed ≡ false
    → is_member a removed ≡ true
    → is_member b removed ≡ true
    → (rest : List Text) × (sweep removed (length (a ∷ b ∷ auths)) (a ∷ b ∷ auths) ≡ ok rest)
      × (is_member b rest ≡ true)
unfolding sweep is_member
sweep_adjacent removed a b auths h p q =
    let (rest, e, kept, from) = sweep_total removed (suc (length auths)) auths h in
    (b ∷ rest, ground arith, ground arith)
