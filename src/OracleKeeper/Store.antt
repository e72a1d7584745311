-- ===== src/OracleKeeper/Store.antt =====
-- The store of x/oracle/keeper/keeper.go: `collections.IndexedMap` with a unique index on the id
-- (package cosmossdk.io/collections), as an interface with its documented behaviour. A list of
-- entries meets it.
use orynx.Prelude.{
  ℕ, ◌≡◌, ◌≢◌, refl, [], ◌∷◌, Option, none, some, Text, Text-discrete, ite, arith, Bool, true,
  false, ℕ_discrete, if◌then◌else◌, Bool-cases, inl, inr, ap,
}
use orynx.Prelude.Dict.{Dict, get, put, delete, IsMap, get-put, get-delete, put-IsMap}
use orynx.Prelude.Counts.{delete-IsMap}
use orynx.Prelude.Int.{ℤ}

-- `types.QuotePrice`; a block time is a number.
pub record QuotePrice : Type 0 where
  pub price : ℤ
  pub block_timestamp : ℕ
  pub block_height : ℕ

-- `types.CurrencyPairState`
pub record CurrencyPairState : Type 0 where
  pub price : Option QuotePrice
  pub nonce : ℕ
  pub id : ℕ

abbrev pub Entries : Type 0
Entries = Dict Text CurrencyPairState

-- No other key holds this id.
abbrev pub IsFreeId : (Text → Option CurrencyPairState) → Text → ℕ → Type 0
IsFreeId look key i = (j : Text) (w : CurrencyPairState) → look j ≡ some w → j ≢ key → w.id ≢ i

pub record PairStore : Type 1 where
  pub Store : Type 0
  -- `Get`; `none` is `ErrNotFound`.
  pub look : Text → Store → Option CurrencyPairState
  -- `Set`; `none` is the error of the unique index.
  pub set : Text → CurrencyPairState → Store → Option Store
  pub remove : Text → Store → Store
  -- The entries in the order of `Iterate`.
  pub entries : Store → Entries
  -- The first primary key of `idIndex.MatchExact`.
  pub match_exact : ℕ → Store → Option Text
  pub set_free :
      (k : Text) (v : CurrencyPairState) (s : Store)
      → IsFreeId (λ j. look j s) k v.id
      → (s' : Store) × (set k v s ≡ some s')
  pub look-set :
      (j k : Text) (v : CurrencyPairState) (s s' : Store)
      → set k v s ≡ some s'
      → look j s' ≡ ite (Text-discrete j k) (some v) (look j s)
  pub look-remove :
      (j k : Text) (s : Store) → look j (remove k s) ≡ ite (Text-discrete j k) none (look j s)
  pub entries-IsMap : (s : Store) → IsMap Text-discrete (entries s)
  pub get-entries : (k : Text) (s : Store) → get Text-discrete k (entries s) ≡ look k s
  pub match_exact_some :
      (i : ℕ) (k : Text) (s : Store)
      → match_exact i s ≡ some k
      → (v : CurrencyPairState) × (look k s ≡ some v) × (v.id ≡ i)
  pub match_exact_none :
      (i : ℕ) (k : Text) (v : CurrencyPairState) (s : Store)
      → match_exact i s ≡ none
      → look k s ≡ some v
      → v.id ≢ i

-- The interface met by a list of entries.
abbrev pub Listed : Type 0
Listed = record { items : Entries; is_map : IsMap Text-discrete items }

-- Some other key has the id.
unfoldable pub id_taken : Text → ℕ → Entries → Bool
id_taken k i [] = false
id_taken k i ((j, w) ∷ m) =
    ite (Text-discrete j k) (id_taken k i m) (ite (ℕ_discrete w.id i) true (id_taken k i m))

unfoldable pub key_of_id : ℕ → Entries → Option Text
key_of_id i [] = none
key_of_id i ((j, w) ∷ m) = ite (ℕ_discrete w.id i) (some j) (key_of_id i m)

id_taken_free :
    (k : Text) (i : ℕ) (m : Entries)
    → IsMap Text-discrete m
    → IsFreeId (λ j. get Text-discrete j m) k i
    → id_taken k i m ≡ false
unfolding id_taken get
id_taken_free k i [] h f = refl
id_taken_free k i ((j, w) ∷ m) h f =
    ground (arith, id_taken_free k i m h.1 (λ l v e n. f l v (ground (arith, h.0)) n), f j w)

pub key_of_id-some :
    (i : ℕ) (k : Text) (m : Entries)
    → IsMap Text-discrete m
    → key_of_id i m ≡ some k
    → (v : CurrencyPairState) × (get Text-discrete k m ≡ some v) × (v.id ≡ i)
unfolding key_of_id get
key_of_id-some i k [] h e = cc
key_of_id-some i k ((j, w) ∷ m) h e = elim (ℕ_discrete w.id i) [
  | yes p ↦ (w, ground arith, p)
  | no n ↦ let (v, g, q) = key_of_id-some i k m h.1 (ground arith) in (v, ground (arith, g, h.0), q)
]

pub key_of_id-none :
    (i : ℕ) (k : Text) (v : CurrencyPairState) (m : Entries)
    → key_of_id i m ≡ none
    → get Text-discrete k m ≡ some v
    → v.id ≢ i
unfolding key_of_id get
key_of_id-none i k v [] e g = cc
key_of_id-none i k v ((j, w) ∷ m) e g = ground (arith, key_of_id-none i k v m)

unfoldable pub set_listed : Text → CurrencyPairState → Listed → Option Listed
set_listed k v s =
    if id_taken k v.id s.items
    then none
    else some (record {
      items = put Text-discrete k v s.items;
      is_map = put-IsMap Text-discrete k v s.items s.is_map;
    })

pub set_listed_free :
    (k : Text) (v : CurrencyPairState) (s : Listed)
    → IsFreeId (λ j. get Text-discrete j s.items) k v.id
    → (s' : Listed) × (set_listed k v s ≡ some s')
unfolding set_listed
set_listed_free k v s f = (
  record {
    items = put Text-discrete k v s.items;
    is_map = put-IsMap Text-discrete k v s.items s.is_map;
  },
  rw (id_taken_free k v.id s.items s.is_map f),
)

items_of : Option Listed → Entries
items_of none = []
items_of (some s) = s.items

pub look-set_listed :
    (j k : Text) (v : CurrencyPairState) (s s' : Listed)
    → set_listed k v s ≡ some s'
    → get Text-discrete j s'.items ≡ ite (Text-discrete j k) (some v) (get Text-discrete j s.items)
unfolding set_listed items_of
look-set_listed j k v s s' e = elim (Bool-cases (id_taken k v.id s.items)) [
  | inl t ↦ absurd (cc (rw t at e))
  | inr f ↦
      let same : put Text-discrete k v s.items ≡ s'.items = ap items_of (rw f at e) in
      rw (← same) (get-put Text-discrete j k v s.items)
]

abbrev pub listed_store : PairStore
listed_store = record {
  Store = Listed;
  look = λ k s. get Text-discrete k s.items;
  set = set_listed;
  remove = λ k s. record {
    items = delete Text-discrete k s.items;
    is_map = delete-IsMap Text-discrete k s.items s.is_map;
  };
  entries = λ s. s.items;
  match_exact = λ i s. key_of_id i s.items;
  set_free = set_listed_free;
  look-set = look-set_listed;
  look-remove = λ j k s. get-delete Text-discrete j k s.items;
  entries-IsMap = λ s. s.is_map;
  get-entries = λ k s. refl;
  match_exact_some = λ i k s. key_of_id-some i k s.items s.is_map;
  match_exact_none = λ i k v s. key_of_id-none i k v s.items;
}
