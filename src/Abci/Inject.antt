-- ===== src/Abci/Inject.antt =====
-- `injectAndResize` (abci/proposals/proposals.go).
use orynx.Prelude.{ℕ, ◌+◌, ◌≤◌, ◌≡◌, ◌≢◌, refl, [], ◌∷◌, Text, Text-discrete, length, arith, false}
use orynx.Prelude.Sums.{sum_by}
use orynx.Abci.Proposals.{Txs, fill, starts_with_tx, is_empty_tx, inject_and_resize}

-- The bytes of a list of transactions.
abbrev pub total_bytes : Txs → ℕ
total_bytes = sum_by length

fill_bound :
    (max consumed : ℕ) (txs : Txs)
    → consumed ≤ max
    → consumed + total_bytes (fill max consumed txs) ≤ max
fill_bound max consumed [] h = omega arith
fill_bound max consumed (tx ∷ txs) h = ground (arith, fill_bound max (consumed + length tx) txs)

-- What is returned never takes more bytes than the block has.
pub total_bytes-inject_and_resize :
    (app_txs : Txs) (tx : Text) (max : ℕ) → total_bytes (inject_and_resize app_txs tx max) ≤ max
unfolding inject_and_resize
total_bytes-inject_and_resize app_txs tx max =
    ground (arith, fill_bound max 0 app_txs, fill_bound max (length tx) app_txs)

-- Filling again changes nothing.
fill-fill :
    (max consumed : ℕ) (txs : Txs)
    → fill max consumed (fill max consumed txs) ≡ fill max consumed txs
fill-fill max consumed [] = refl
fill-fill max consumed (tx ∷ txs) = ground (arith, fill-fill max (consumed + length tx) txs)

not_empty : (tx : Text) → tx ≢ [] → is_empty_tx tx ≡ false
not_empty [] n = absurd (n refl)
not_empty (b ∷ tx) n = refl

-- The head of a filled list is the head of the list.
starts_with-fill :
    (tx : Text) (max consumed : ℕ) (txs : Txs)
    → starts_with_tx tx txs ≡ false
    → starts_with_tx tx (fill max consumed txs) ≡ false
starts_with-fill tx max consumed [] h = refl
starts_with-fill tx max consumed (t ∷ txs) h = ground arith

-- Injecting is idempotent: the transaction is not injected a second time, and no other one is lost.
pub inject_and_resize_idempotent :
    (app_txs : Txs) (tx : Text) (max : ℕ)
    → inject_and_resize (inject_and_resize app_txs tx max) tx max ≡ inject_and_resize app_txs tx max
unfolding inject_and_resize
inject_and_resize_idempotent app_txs tx max = ground (
  arith,
  fill-fill max 0 app_txs,
  fill-fill max (length tx) app_txs,
  starts_with-fill tx max 0 app_txs,
  fill_bound max (length tx) app_txs,
)

-- A transaction that is not empty and fits the block is the first one of the result, once: either it
-- was put in front of what fits of the wrapped handler's transactions, or these had it in front.
pub inject_and_resize_head :
    (app_txs : Txs) (tx : Text) (max : ℕ)
    → tx ≢ []
    → length tx ≤ max
    → (rest : Txs) × (inject_and_resize app_txs tx max ≡ tx ∷ rest)
unfolding inject_and_resize
inject_and_resize_head [] tx max n h = (fill max (length tx) [], ground (arith, not_empty tx n))
inject_and_resize_head (t ∷ app_txs) tx max n h = elim (Text-discrete t tx) [
  | yes e ↦ (fill max (length t) app_txs, ground (arith, not_empty tx n))
  | no e ↦ (fill max (length tx) (t ∷ app_txs), ground (arith, not_empty tx n))
]
