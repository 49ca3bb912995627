-- ===== src/Handlers/Effects/Joining.antt =====
-- What the lobby of dev/src/index.js says of joining, and what a join then does.
use bananabreadwasm.Prelude.{suc, ◌≡◌, refl, ◌⊎◌, Bool, false, ◌&&◌, some, length, ltb, arith}
use bananabreadwasm.Text.{Text, codes, text_eq}
use bananabreadwasm.Result.{ok, err, admissions_disabled, arena_inactive, arena_full}
use bananabreadwasm.Js.{Value, Fields, get_field}
use bananabreadwasm.Normalize.{parse_json_object, required_text}
use bananabreadwasm.Rows.{Settings, Game}
use bananabreadwasm.Players.{
  with_fresh_player_count, by_paid_at, alive_in, alive_players_for_game, max_players,
}
use bananabreadwasm.Players.Lookup.{get_game_of_get}
use bananabreadwasm.Host.{Host, World, now, time_at}
use bananabreadwasm.Handlers.Config.{
  get_settings, default_settings, or_default, default_row, settings_id,
}
use bananabreadwasm.Handlers.Arenas.{Lobby, get_public_bananabreadwasm_game, show_lobby}
use bananabreadwasm.Handlers.Admission.{join_bananabreadwasm_game}

module _ (h : Host) where
  -- The three tests of a join.
  abbrev pub is_open_arena : Game → World h → Settings → Bool
  is_open_arena game w s =
      s.enabled
      && text_eq game.status (codes "active")
      && ltb (length (h.players.page (by_paid_at (alive_in game.id) max_players) w.players))
          max_players

  pub get_settings-eq :
      (w : World h) (s : Settings)
      → or_default (h.settings.get settings_id w.settings) (default_row (time_at h w.ticks)) ≡ s
      → get_settings h w ≡ (ok s, record w { ticks = suc w.ticks })
  unfolding get_settings default_settings now
  get_settings-eq w s e = rw e refl

  lobby-can_join :
      (input : Value) (request : Fields) (game_id : Text) (game : Game) (lobby : Lobby)
      (w w' : World h)
      → parse_json_object h.engine input ≡ ok request
      → required_text h.engine (get_field "gameId" request) "gameId" 128 ≡ ok game_id
      → h.games.get game_id w.games ≡ some game
      → get_public_bananabreadwasm_game h input w ≡ (ok lobby, w')
      → (s : Settings)
      → or_default (h.settings.get settings_id w.settings) (default_row (time_at h w.ticks)) ≡ s
      → lobby.can_join ≡ is_open_arena game w s
  unfolding get_public_bananabreadwasm_game show_lobby with_fresh_player_count
      alive_players_for_game now
  lobby-can_join input request game_id game lobby w w' parsed named stored e s read =
      ground (arith, get_game_of_get h game_id w game stored, get_settings-eq w s read)

  joined_closed :
      (input : Value) (request : Fields) (game_id : Text) (game : Game) (w : World h)
      → parse_json_object h.engine input ≡ ok request
      → required_text h.engine (get_field "gameId" request) "gameId" 128 ≡ ok game_id
      → h.games.get game_id w.games ≡ some game
      → (s : Settings)
      → or_default (h.settings.get settings_id w.settings) (default_row (time_at h w.ticks)) ≡ s
      → is_open_arena game w s ≡ false
      → let joined = join_bananabreadwasm_game h input w in
        (joined.1.invoices ≡ w.invoices)
        × ((joined.0 ≡ err admissions_disabled)
            ⊎ (joined.0 ≡ err arena_inactive)
            ⊎ (joined.0 ≡ err arena_full))
  unfolding join_bananabreadwasm_game alive_players_for_game
  joined_closed input request game_id game w parsed named stored s read closed =
      ground (arith, get_game_of_get h game_id w game stored, get_settings-eq w s read)

  -- If the lobby says that its arena cannot be joined, a join that names the arena in the same state
  -- throws the error of one of the three tests, and asks for no invoice.
  pub join_refused :
      (input : Value) (request : Fields) (game_id : Text) (game : Game) (lobby : Lobby)
      (w w' : World h)
      → parse_json_object h.engine input ≡ ok request
      → required_text h.engine (get_field "gameId" request) "gameId" 128 ≡ ok game_id
      → h.games.get game_id w.games ≡ some game
      → get_public_bananabreadwasm_game h input w ≡ (ok lobby, w')
      → lobby.can_join ≡ false
      → let joined = join_bananabreadwasm_game h input w in
        (joined.1.invoices ≡ w.invoices)
        × ((joined.0 ≡ err admissions_disabled)
            ⊎ (joined.0 ≡ err arena_inactive)
            ⊎ (joined.0 ≡ err arena_full))
  join_refused input request game_id game lobby w w' parsed named stored e shut =
      let s =
        or_default (h.settings.get settings_id w.settings) (default_row (time_at h w.ticks)) in
      let closed =
        lobby-can_join input request game_id game lobby w w' parsed named stored e s refl in
      joined_closed input request game_id game w parsed named stored s refl (ground arith)
