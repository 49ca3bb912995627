-- ===== src/Tests/Joining.antt =====
-- The lobby and a join of an arena whose extension is not enabled.
use bananabreadwasm.Prelude.{◌≡◌, refl, false, none, some, []}
use bananabreadwasm.Text.{codes, text_eq, is_space, trim_start, drop_end, trim}
use bananabreadwasm.Result.{ok}
use bananabreadwasm.Js.{Fields, end, obj, get_field, string_of, nullish_or, truthy}
use bananabreadwasm.Normalize.{clean_text, required_text, parse_json_object}
use bananabreadwasm.Table.Memory.{memory, find, upsert}
use bananabreadwasm.Host.{World, now_of, time_at, now}
use bananabreadwasm.Players.{
  get_game, players_for_game, alive_players_for_game, player_for_token, with_fresh_player_count,
}
use bananabreadwasm.Views.{public_game}
use bananabreadwasm.Handlers.Config.{get_settings, default_settings}
use bananabreadwasm.Handlers.Arenas.{Lobby, get_public_bananabreadwasm_game, show_lobby}
use bananabreadwasm.Handlers.Effects.Privacy.{Private}
use bananabreadwasm.Tests.Sample.{engine, host, arena, empty_world, text_field}

abbrev pub fields : Fields
fields = text_field "gameId" "arena" end

abbrev pub lobby : Lobby
lobby = record {
  game = public_game (with_fresh_player_count host arena empty_world);
  players = [];
  player = none;
  can_join = false;
  admissions_enabled = false;
  minimum_join_sats = 50;
  maximum_join_sats = 100;
  disconnect_grace_seconds = 60;
  server_time_ms = 1700000000000;
}

abbrev pub after_lobby : World host
after_lobby = (get_public_bananabreadwasm_game host (obj fields) empty_world).1

pub parsed : parse_json_object engine (obj fields) ≡ ok fields
unfolding parse_json_object truthy
parsed = refl

pub named : required_text engine (get_field "gameId" fields) "gameId" 128 ≡ ok (codes "arena")
unfolding required_text clean_text string_of nullish_or get_field trim trim_start drop_end is_space
named = refl

pub stored : host.games.get (codes "arena") empty_world.games ≡ some arena
unfolding memory find upsert text_eq
stored = refl

pub shown : get_public_bananabreadwasm_game host (obj fields) empty_world ≡ (ok lobby, after_lobby)
unfolding get_public_bananabreadwasm_game show_lobby parse_json_object truthy required_text
    clean_text string_of nullish_or get_field trim trim_start drop_end is_space memory find upsert
    text_eq get_game get_settings default_settings now time_at now_of with_fresh_player_count
    alive_players_for_game players_for_game player_for_token public_game
shown = refl

abbrev moved : Private
moved = record {
  server_secret = codes "whisper";
  wallet_id = codes "pocket";
  settings_id = codes "other";
}
