-- ===== src/Handlers/Effects/Secret.antt =====
-- The calls of the game gateway in dev/src/index.js, made without the arena's secret.
use bananabreadwasm.Prelude.{◌≡◌, ◌≢◌, some, arith}
use bananabreadwasm.Text.{Text, text_eq_iff}
use bananabreadwasm.Result.{ok, err, invalid_secret}
use bananabreadwasm.Js.{Value, Fields, get_field}
use bananabreadwasm.Normalize.{parse_json_object, required_text, either_field}
use bananabreadwasm.Rows.{Game}
use bananabreadwasm.Players.{get_game, require_server_secret}
use bananabreadwasm.Host.{Host, World}
use bananabreadwasm.Handlers.Match.{
  admit_call, admit_bananabreadwasm_player, kill_call, settle_bananabreadwasm_kill, disconnect_call,
  expire_bananabreadwasm_disconnect,
}

module _ (h : Host) where
  -- A request for an arena that exists, with a secret that is not the arena's, is refused by all three
  -- calls of the gateway, and changes nothing.
  pub gateway_calls_refuse :
      (input : Value) (request : Fields) (game_id secret : Text) (game : Game) (w : World h)
      → parse_json_object h.engine input ≡ ok request
      → required_text h.engine (get_field "gameId" request) "gameId" 128 ≡ ok game_id
      → h.games.get game_id w.games ≡ some game
      → required_text h.engine
          (either_field "serverSecret" "server_secret" request)
          "serverSecret"
          256
        ≡ ok secret
      → secret ≢ game.server_secret
      → (admit_bananabreadwasm_player h input w ≡ (err invalid_secret, w))
        × (settle_bananabreadwasm_kill h input w ≡ (err invalid_secret, w))
        × (expire_bananabreadwasm_disconnect h input w ≡ (err invalid_secret, w))
  unfolding admit_bananabreadwasm_player settle_bananabreadwasm_kill
      expire_bananabreadwasm_disconnect admit_call kill_call disconnect_call get_game
      require_server_secret
  gateway_calls_refuse input request game_id secret game w parsed named stored given wrong = (
    ground (arith, text_eq_iff secret game.server_secret),
    ground (arith, text_eq_iff secret game.server_secret),
    ground (arith, text_eq_iff secret game.server_secret),
  )
