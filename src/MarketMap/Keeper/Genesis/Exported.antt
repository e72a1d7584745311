-- ===== src/MarketMap/Keeper/Genesis/Exported.antt =====
-- What x/marketmap/keeper/genesis.go exports of a state that it has initialized.
use orynx.Prelude.{
  ◌≡◌, ◌≢◌, refl, ◌∙◌, Bool, List, [], ◌∷◌, Option, none, some, Text, Text-discrete, ok, All, arith,
}
use orynx.Prelude.Dict.{get, IsMap}
use orynx.Prelude.Action.{Action}
use orynx.MarketMap.{Market, MarketMap, ticker_string, validate_market_map}
use orynx.MarketMap.Valid.{IsValidEntry, validate_market_map_iff}
use orynx.MarketMap.Store.{MapStore}
use orynx.MarketMap.Keeper.{State, KeeperError, create_market}
use orynx.MarketMap.Keeper.Genesis.{
  GenesisState, validate_genesis, encoded, decoded, create_each, init_genesis, export_genesis,
}

module _ (c : MapStore Market) (W : Type 0) where
  abbrev or_held : Option Market → Option Market → Option Market
  or_held (some m) old = some m
  or_held none old = old

  -- Nothing is in the store under the keys of the entries.
  abbrev AreFree : MarketMap → State c.Store W → Type 0
  AreFree entries s = (k : Text) → get Text-discrete k entries ≢ none → c.look k s.markets ≡ none

  -- The loop writes exactly the entries.
  pub record Created (entries : MarketMap) (s s' : State c.Store W) : Type 0 where
    pub held :
        (k : Text)
        → c.look k s'.markets ≡ or_held (get Text-discrete k entries) (c.look k s.markets)
    pub same_world : s'.world ≡ s.world

  created_once :
      (key : Text) (market : Market) (s : State c.Store W)
      → key ≡ ticker_string market
      → c.look key s.markets ≡ none
      → create_market c W market s
        ≡ (ok tt, record s { markets = c.set (ticker_string market) market s.markets })
  unfolding create_market
  created_once key market s k n = ground arith

  -- After the first entry is written, the keys of the others are still free.
  still-AreFree :
      (key : Text) (market : Market) (entries : MarketMap) (s : State c.Store W)
      → get Text-discrete key entries ≡ none
      → key ≡ ticker_string market
      → AreFree ((key, market) ∷ entries) s
      → AreFree entries (record s { markets = c.set (ticker_string market) market s.markets })
  unfolding get
  still-AreFree key market entries s n same free k p =
      ground (arith, c.look-set k (ticker_string market) market s.markets, free k)

  create_each-Created :
      (entries : MarketMap) (s : State c.Store W)
      → IsMap Text-discrete entries
      → All (λ (e : Text × Market). e.0 ≡ ticker_string e.1) entries
      → AreFree entries s
      → (s' : State c.Store W) × (create_each c W entries s ≡ (ok tt, s')) × Created entries s s'
  unfolding create_each get
  create_each-Created [] s i keyed free = (s, refl, record { held = λ k. refl; same_world = refl })
  create_each-Created ((key, market) ∷ entries) s i keyed free =
      let s1 : State c.Store W = record s {
        markets = c.set (ticker_string market) market s.markets;
      } in
      let created : create_market c W market s ≡ (ok tt, s1) =
        created_once key market s keyed.0 (free key (ground arith)) in
      let (s', e, w) =
        create_each-Created entries s1 i.1 keyed.1
          (still-AreFree key market entries s i.0 keyed.0 free) in
      (
        s',
        ground (arith, created, e),
        record {
          held = λ k.
              ground (
                arith,
                w.held k,
                c.look-set k (ticker_string market) market s.markets,
                i.0,
                keyed.0,
              );
          same_world = w.same_world;
        },
      )

  entries-AreKeyed :
      (json_object : Text → Bool) (mm entries : MarketMap)
      → All (IsValidEntry json_object mm) entries
      → All (λ (e : Text × Market). e.0 ≡ ticker_string e.1) entries
  entries-AreKeyed json_object mm [] h = tt
  entries-AreKeyed json_object mm ((key, market) ∷ entries) h =
      (h.0.1, entries-AreKeyed json_object mm entries h.1)

  encoded-decoded : (list : List Text) → encoded (decoded list) ≡ list
  encoded-decoded [] = refl
  encoded-decoded (a ∷ list) = refl

  validated_map :
      (json_object is_address : Text → Bool) (gs : GenesisState)
      → validate_genesis json_object is_address gs ≡ ok tt
      → validate_market_map json_object gs.market_map ≡ ok tt
  unfolding validate_genesis
  validated_map json_object is_address gs h = ground arith

  -- What `InitGenesis` leaves of a state is what `ExportGenesis` reads: the same market under every key,
  -- the same height, authorities and admin.
  pub record IsExported (gs gs' : GenesisState) : Type 0 where
    pub markets :
        (key : Text) → get Text-discrete key gs'.market_map ≡ get Text-discrete key gs.market_map
    pub height : gs'.last_updated ≡ gs.last_updated
    pub authorities : encoded gs'.market_authorities ≡ encoded gs.market_authorities
    pub same_admin : gs'.admin ≡ gs.admin

  abbrev finished : State c.Store W → GenesisState → W → State c.Store W
  finished s gs w = record s {
    last_updated = some gs.last_updated;
    params = some (record { market_authorities = encoded gs.market_authorities; admin = gs.admin });
    world = w;
  }

  abbrev exported : State c.Store W → GenesisState → GenesisState
  exported s gs = record {
    market_map = c.entries s.markets;
    last_updated = gs.last_updated;
    market_authorities = decoded (encoded gs.market_authorities);
    admin = gs.admin;
  }

  -- If `ValidateBasic` accepts a genesis state, no market is in the store, and the hook succeeds, then
  -- `InitGenesis` succeeds, and `ExportGenesis` returns a genesis state with the same market under every
  -- key, the same height, the same authorities and the same admin.
  pub export_genesis-init_genesis :
      (json_object is_address : Text → Bool) (hook : MarketMap → Action W KeeperError (Unit {0}))
      (gs : GenesisState) (s : State c.Store W) (w : W)
      → IsMap Text-discrete gs.market_map
      → validate_genesis json_object is_address gs ≡ ok tt
      → ((k : Text) → c.look k s.markets ≡ none)
      → hook gs.market_map s.world ≡ (ok tt, w)
      → (s' : State c.Store W) × (gs' : GenesisState) × (init_genesis c W json_object is_address
            hook gs s
          ≡ (ok tt, s'))
        × (export_genesis c W s' ≡ ok gs')
        × IsExported gs gs'
  unfolding init_genesis export_genesis
  export_genesis-init_genesis json_object is_address hook gs s w i v empty h =
      let valid =
        (validate_market_map_iff json_object gs.market_map).0
          (validated_map json_object is_address gs v) in
      let (s1, e, made) =
        create_each-Created gs.market_map s i
          (entries-AreKeyed json_object gs.market_map gs.market_map valid) (λ k p. empty k) in
      let hooked : hook gs.market_map s1.world ≡ (ok tt, w) = rw made.same_world h in
      (
        finished s1 gs w,
        exported s1 gs,
        ground (arith, v, e, hooked),
        refl,
        record {
          markets = λ key. c.get-entries key s1.markets ∙ made.held key ∙ ground (arith, empty key);
          height = refl;
          authorities = encoded-decoded (encoded gs.market_authorities);
          same_admin = refl;
        },
      )
