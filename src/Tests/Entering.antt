-- ===== src/Tests/Entering.antt =====
-- A payment for an arena with two live players, and the call of the gateway for its player.
use bananabreadwasm.Prelude.{◌≡◌, refl, ◌<◌, none, some, arith}
use bananabreadwasm.Text.{codes, text_eq, is_space, trim_start, drop_end, trim}
use bananabreadwasm.Result.{ok}
use bananabreadwasm.Js.{obj, Fields, end, get_field, nullish_or, truthy, string_of}
use bananabreadwasm.Normalize.{clean_text, required_text, parse_json_object}
use bananabreadwasm.Gateway.{encode_uri_component, percent_utf8}
use bananabreadwasm.Table.Memory.{memory, find, upsert}
use bananabreadwasm.Players.{alive_in, has_token}
use bananabreadwasm.Handlers.Admission.{Payment, record_payment}
use bananabreadwasm.Handlers.Match.{Ticket, admit_bananabreadwasm_player}
use bananabreadwasm.Handlers.Effects.Entering.{IsRequest, paid_player_enters}
use bananabreadwasm.Tests.Sample.{engine, host, arena, duel, text_field}

abbrev fee : Payment
fee = record {
  payment_hash = codes "beef";
  game_id = codes "arena";
  ln_address = codes "cy@pay.example.org";
  player_name = codes "Cy";
  player_token = codes "token";
  sats = 100;
}

abbrev fields : Fields
fields =
    text_field "gameId" "arena"
      (text_field "serverSecret" "hush" (text_field "playerToken" "token" end))

arena_stored : host.games.get (codes "arena") duel.games ≡ some arena
unfolding memory find upsert text_eq
arena_stored = refl

fee_is_new : host.players.get (codes "beef") duel.players ≡ none
unfolding memory find upsert text_eq
fee_is_new = refl

two_live : host.players.count (alive_in (codes "arena")) duel.players < 5
unfolding memory find upsert text_eq
two_live = omega arith

token_is_new : host.players.count (has_token (codes "arena") (codes "token")) duel.players ≡ 0
unfolding memory find upsert text_eq
token_is_new = refl

parsed : parse_json_object engine (obj fields) ≡ ok fields
unfolding parse_json_object truthy
parsed = refl

asked : IsRequest host fields arena (codes "token")
unfolding required_text clean_text string_of nullish_or get_field trim trim_start drop_end is_space
asked = (refl, refl, refl)

arena_part : encode_uri_component (codes "arena") ≡ ok (codes "arena")
unfolding encode_uri_component percent_utf8
arena_part = refl

token_part : encode_uri_component (codes "token") ≡ ok (codes "token")
unfolding encode_uri_component percent_utf8
token_part = refl

paid_player_enters_example :
    let after = (record_payment host fee duel).1 in
    (ticket : Ticket) × ((admit_bananabreadwasm_player host (obj fields) after).0 ≡ ok ticket)
    × (ticket.game_id ≡ codes "arena")
    × (ticket.player_id ≡ codes "beef")
    × (ticket.player_name ≡ codes "Cy")
paid_player_enters_example =
    paid_player_enters host (obj fields) fields fee arena (codes "arena") (codes "token") duel
      arena_stored fee_is_new two_live token_is_new parsed asked arena_part token_part
