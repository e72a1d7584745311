-- ===== src/MarketMap/Store.antt =====
-- `collections.Map` (package cosmossdk.io/collections) with a string key, as an interface with its
-- documented behaviour, which a list of entries meets.
use orynx.Prelude.{◌≡◌, refl, Option, none, some, Text, Text-discrete, ite}
use orynx.Prelude.Dict.{Dict, get, put, delete, IsMap, get-put, get-delete, put-IsMap}
use orynx.Prelude.Counts.{delete-IsMap}

pub record MapStore (V : Type 0) : Type 1 where
  pub Store : Type 0
  -- `Get`; `none` is `ErrNotFound`.
  pub look : Text → Store → Option V
  pub set : Text → V → Store → Store
  pub remove : Text → Store → Store
  -- The entries in the order of `Iterate`.
  pub entries : Store → Dict Text V
  pub look-set :
      (j k : Text) (v : V) (s : Store)
      → look j (set k v s) ≡ ite (Text-discrete j k) (some v) (look j s)
  pub look-remove :
      (j k : Text) (s : Store) → look j (remove k s) ≡ ite (Text-discrete j k) none (look j s)
  pub entries-IsMap : (s : Store) → IsMap Text-discrete (entries s)
  pub get-entries : (k : Text) (s : Store) → get Text-discrete k (entries s) ≡ look k s

abbrev pub ListedMap : Type 0 → Type 0
ListedMap V = record { items : Dict Text V; is_map : IsMap Text-discrete items }

abbrev pub listed_map : {V : Type 0} → MapStore V
listed_map {V} = record {
  Store = ListedMap V;
  look = λ k s. get Text-discrete k s.items;
  set = λ k v s. record {
    items = put Text-discrete k v s.items;
    is_map = put-IsMap Text-discrete k v s.items s.is_map;
  };
  remove = λ k s. record {
    items = delete Text-discrete k s.items;
    is_map = delete-IsMap Text-discrete k s.items s.is_map;
  };
  entries = λ s. s.items;
  look-set = λ j k v s. get-put Text-discrete j k v s.items;
  look-remove = λ j k s. get-delete Text-discrete j k s.items;
  entries-IsMap = λ s. s.is_map;
  get-entries = λ k s. refl;
}
