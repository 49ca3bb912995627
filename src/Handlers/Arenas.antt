-- ===== src/Handlers/Arenas.antt =====
-- Arenas in dev/src/index.js: they are created, listed, deleted and shown.
use bananabreadwasm.Prelude.{
  ℕ, ◌-◌, ◌*◌, Bool, true, false, not, ◌&&◌, ◌||◌, Option, none, some, List, [], ◌∷◌, ◌++◌, map,
  any, select, length, ltb, if◌then◌else◌,
}
use bananabreadwasm.Text.{Text, codes, text_eq, is_empty, or_text}
use bananabreadwasm.Result.{
  Result, ok, err, throw_if, arenas_disabled, live_players_left, settlements_left,
}
use bananabreadwasm.Js.{Fields, Value, str, get_field, nullish_or, finite}
use bananabreadwasm.Normalize.{
  clean_text, clean_id, required_text, either_field, normalize_integer, normalize_page,
  normalize_page_size, normalize_game_sort_by, parse_json_object,
}
use bananabreadwasm.Rows.{Game, Player, is_alive, is_dead}
use bananabreadwasm.Table.{Query}
use bananabreadwasm.Players.{
  max_players, get_game, players_for_game, alive_players_for_game, player_for_token,
  with_fresh_player_count,
}
use bananabreadwasm.Settlement.{has_unresolved_settlement}
use bananabreadwasm.Views.{
  PublicGame, public_game, OwnerGame, owner_game, PublicPlayer, public_player, private_player,
}
use bananabreadwasm.Host.{
  Host, World, Exec, pure, lift, gets, modify, now, random_id, save_game, ◌>>=◌, ◌>>◌,
}
use bananabreadwasm.Handlers.Checks.{validate_enabled_settings}
use bananabreadwasm.Handlers.Config.{get_settings, is_true}

abbrev pub min_join_sats : ℕ
min_join_sats = 50

abbrev pub max_join_sats : ℕ
max_join_sats = 100

abbrev disconnect_grace_seconds : ℕ
disconnect_grace_seconds = 60

abbrev number_value : ℕ → Value
number_value n = Value.num (finite false n 0)

pub record CreatedGame : Type 0 where
  pub game : PublicGame
  pub public_url : Text

pub record ListedGames : Type 0 where
  pub games : List OwnerGame
  pub total : ℕ

-- `value === true || value === 'true'`
abbrev is_descending : Value → Bool
is_descending (str s) = text_eq s (codes "true")
is_descending value = is_true value

pub record DeleteCall : Type 0 where
  pub game_id : Text
  pub players : List Player

-- What `getPublicBananabreadwasmGame` returns.
pub record Lobby : Type 0 where
  pub game : PublicGame
  pub players : List PublicPlayer
  pub player : Option PublicPlayer
  pub can_join : Bool
  pub admissions_enabled : Bool
  pub minimum_join_sats : ℕ
  pub maximum_join_sats : ℕ
  pub disconnect_grace_seconds : ℕ
  pub server_time_ms : ℕ

abbrev some_of : Result PublicPlayer → Result (Option PublicPlayer)
some_of (ok p) = ok (some p)
some_of (err e) = err e

module _ (h : Host) where
  -- The id is drawn only if the request names none.
  abbrev id_or_random : Text → Exec h Text
  id_or_random given = if is_empty given then random_id h (codes "arena") else pure given

  unfoldable pub create_bananabreadwasm_game : Value → Exec h CreatedGame
  unfolding get_settings random_id
  create_bananabreadwasm_game input = do
    request ← lift (parse_json_object h.engine input)
    settings ← get_settings h
    lift (throw_if (not settings.enabled) arenas_disabled)
    lift (validate_enabled_settings settings)
    at ← now h
    id ← id_or_random (clean_id h.engine (get_field "id" request))
    let game : Game = record {
      id = id;
      settings_id = settings.id;
      wallet_id = settings.wallet_id;
      gateway_url = settings.gateway_url;
      server_secret = settings.server_secret;
      name =
          or_text (clean_text h.engine (get_field "name" request) 80)
            (codes "BananaBread public arena");
      join_amount =
          normalize_integer h.engine (either_field "joinAmount" "join_amount" request) max_join_sats
            min_join_sats max_join_sats;
      haircut =
          normalize_integer h.engine
            (nullish_or (get_field "haircut" request) (number_value settings.haircut))
            settings.haircut 0 100;
      players_count = 0;
      max_players = max_players;
      status = codes "active";
      created_at = at;
      updated_at = at;
    }
    save_game h game
    pure (record {
      game = public_game game;
      public_url = codes "/bananabreadwasm/games/" ++ game.id;
    })

  abbrev listing : Text → Text → Bool → ℕ → ℕ → Query Game
  listing search sort_by descending page rows_per_page = record {
    filter = λ g. true;
    search = search;
    search_fields = codes "name" ∷ codes "status" ∷ [];
    sort_by = sort_by;
    descending = descending;
    limit = rows_per_page;
    offset = (page - 1) * rows_per_page;
  }

  unfoldable pub list_bananabreadwasm_games : Value → Exec h ListedGames
  unfolding with_fresh_player_count owner_game
  list_bananabreadwasm_games input = do
    request ← lift (parse_json_object h.engine input)
    let query : Query Game =
        listing (clean_text h.engine (get_field "search" request) 256)
          (normalize_game_sort_by h.engine (get_field "sortBy" request))
          (is_descending (get_field "descending" request))
          (normalize_page h.engine (get_field "page" request))
          (normalize_page_size h.engine (get_field "rowsPerPage" request))
    gets λ w. record {
      games =
          map (λ g. owner_game h (with_fresh_player_count h g w) w) (h.games.page query w.games);
      total = h.games.total query w.games;
    }

  -- `for (const player of players) storage.delete(PLAYERS_TABLE, player.id)`
  unfoldable pub delete_players : List Player → World h → World h
  delete_players [] w = w
  delete_players (p ∷ ps) w =
      delete_players ps (record w { players = h.players.delete p.id w.players })

  -- What the call reads before it deletes, and its two tests.
  unfoldable pub delete_call : Value → Exec h DeleteCall
  unfolding get_game
  delete_call input = do
    request ← lift (parse_json_object h.engine input)
    game_id ← lift (required_text h.engine (get_field "gameId" request) "gameId" 128)
    stored ← get_game h game_id
    players ← gets (players_for_game h game_id 100)
    lift (throw_if (any (λ p. is_alive p.status) players) live_players_left)
    lift (throw_if (any has_unresolved_settlement players) settlements_left)
    pure (record { game_id = game_id; players = players })

  -- The deletions, when the tests have passed.
  abbrev pub delete_rows : DeleteCall → Exec h Text
  delete_rows call = do
    modify (delete_players call.players)
    modify λ w. record w { games = h.games.delete call.game_id w.games }
    pure call.game_id

  unfoldable pub delete_bananabreadwasm_game : Value → Exec h Text
  delete_bananabreadwasm_game input = delete_call input >>= delete_rows

  -- `player ? publicPlayer(player, true, game) : null`
  abbrev pub own_view : Option Player → Game → Result (Option PublicPlayer)
  own_view none g = ok none
  own_view (some p) g = some_of (private_player h.engine p g)

  -- The reply, when the arena is read.
  unfoldable pub show_lobby : Fields → Game → Exec h Lobby
  unfolding players_for_game alive_players_for_game player_for_token
  show_lobby request stored = do
    game ← gets (with_fresh_player_count h stored)
    settings ← get_settings h
    let token = clean_text h.engine (either_field "playerToken" "player_token" request) 128
    player ← gets (λ w. if is_empty token then none else player_for_token h game.id token w)
    players ← gets (players_for_game h game.id 100)
    own ← lift (own_view player game)
    live ← gets (alive_players_for_game h game.id)
    at ← now h
    pure (record {
      game = public_game game;
      players =
          map (λ p. public_player h.engine p false)
            (select (λ p. is_alive p.status || is_dead p.status) players);
      player = own;
      can_join =
          settings.enabled && text_eq game.status (codes "active") && ltb (length live) max_players;
      admissions_enabled = settings.enabled;
      minimum_join_sats = min_join_sats;
      maximum_join_sats = max_join_sats;
      disconnect_grace_seconds = disconnect_grace_seconds;
      server_time_ms = at * 1000;
    })

  unfoldable pub get_public_bananabreadwasm_game : Value → Exec h Lobby
  unfolding get_game
  get_public_bananabreadwasm_game input = do
    request ← lift (parse_json_object h.engine input)
    game_id ← lift (required_text h.engine (get_field "gameId" request) "gameId" 128)
    stored ← get_game h game_id
    show_lobby request stored
