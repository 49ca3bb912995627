-- ===== src/Handlers/Effects/Entering.antt =====
-- A payment in dev/src/index.js, and the call of the gateway that lets the player into the arena.
use bananabreadwasm.Prelude.{
  suc, ◌≤◌, ◌<◌, ◌≡◌, refl, true, none, some, List, [], ◌∷◌, All, any, arith, length, All-map, ◌++◌,
}
use bananabreadwasm.Text.{Text, codes, text_eq, text_eq_iff, text_eq_refl}
use bananabreadwasm.Result.{ok}
use bananabreadwasm.Js.{Value, Fields, get_field}
use bananabreadwasm.Normalize.{parse_json_object, required_text, either_field}
use bananabreadwasm.Gateway.{encode_uri_component}
use bananabreadwasm.Rows.{Game, Player, alive, is_alive}
use bananabreadwasm.Players.{
  alive_in, has_token, token_query, first, make_player, next_slot, max_players, get_game,
  alive_players_for_game, player_for_token, require_alive_player, with_fresh_player_count,
  update_game_count,
}
use bananabreadwasm.Players.Capacity.{length-alive_players_for_game}
use bananabreadwasm.Players.Lookup.{require_server_secret_of_eq}
use bananabreadwasm.Table.{Query}
use bananabreadwasm.Safety.Admission.{admit_payment-players}
use bananabreadwasm.Host.{Host, World, time_at, now}
use bananabreadwasm.Handlers.Admission.{
  Payment, admission_of, admit_payment, settle_admission, record_payment,
}
use bananabreadwasm.Handlers.Match.{Ticket, admit_call, enter_arena, admit_bananabreadwasm_player}

module _ (h : Host) where
  first-listed :
      (i : Text) (p : Player) (ps : List Player) (w : World h)
      → All (λ x. h.players.get x.id w.players ≡ some x) ps
      → length ps ≤ 1
      → h.players.get i w.players ≡ some p
      → any (λ x. text_eq x.id i) ps ≡ true
      → first ps ≡ some p
  first-listed i p [] w rows one stored listed = cc
  first-listed i p (x ∷ []) w (row, _) one stored listed = ground (arith, text_eq_iff x.id i)
  first-listed i p (x ∷ y ∷ ps) w rows one stored listed = ground arith

  -- The token of one player of the arena finds that player.
  player_for_token-only :
      (g t i : Text) (p : Player) (w : World h)
      → h.players.count (has_token g t) w.players ≤ 1
      → h.players.get i w.players ≡ some p
      → has_token g t p ≡ true
      → player_for_token h g t w ≡ some p
  unfolding player_for_token
  player_for_token-only g t i p w one stored passes =
      let q : Query Player = token_query g t in
      let few : h.players.count q.filter w.players ≤ q.limit = one in
      first-listed i p (h.players.page q w.players) w
        (All-map _ _ (λ x row. row.1) (h.players.page q w.players)
          (h.players.page_rows q w.players))
        (ground (arith, h.players.page_length q w.players refl refl)) stored
        (h.players.page_complete q i p w.players refl refl few stored passes)

  -- The request names the arena and the player, with the arena's secret.
  abbrev pub IsRequest : Fields → Game → Text → Type 0
  IsRequest request g token =
      (required_text h.engine (get_field "gameId" request) "gameId" 128 ≡ ok g.id)
      × (required_text h.engine (either_field "serverSecret" "server_secret" request) "serverSecret"
            256
          ≡ ok g.server_secret)
      × (required_text h.engine (either_field "playerToken" "player_token" request) "playerToken"
            128
          ≡ ok token)

  admit_call-of :
      (input : Value) (request : Fields) (g : Game) (p : Player) (w : World h)
      → parse_json_object h.engine input ≡ ok request
      → IsRequest request g p.player_token
      → h.games.get g.id w.games ≡ some g
      → player_for_token h g.id p.player_token w ≡ some p
      → is_alive p.status ≡ true
      → admit_call h input w ≡ (ok (record { game = g; token = p.player_token; player = p }), w)
  unfolding admit_call get_game require_alive_player
  admit_call-of input request g p w parsed (named, secret, token) arena found live =
      ground (arith, require_server_secret_of_eq h g request w secret)

  enter_arena-ticket :
      (g : Game) (p : Player) (a b : Text) (w : World h)
      → encode_uri_component g.id ≡ ok a
      → encode_uri_component p.player_token ≡ ok b
      → (ticket : Ticket) × ((enter_arena h g p.player_token p w).0 ≡ ok ticket)
        × (ticket.game_id ≡ g.id)
        × (ticket.player_id ≡ p.id)
        × (ticket.player_name ≡ p.name)
  unfolding enter_arena now
  enter_arena-ticket g p a b w arena token = (
    record {
      game_id = g.id;
      room_key = codes "lnbits-" ++ g.id;
      player_id = p.id;
      player_name = p.name;
      max_players = max_players;
      disconnect_grace_seconds = 60;
      return_path = codes "/ext/bananabreadwasm/games/" ++ a ++ codes "?playerToken=" ++ b;
    },
    ground arith,
    refl,
    refl,
    refl,
  )

  -- The arena as an admission leaves it.
  abbrev counted : Payment → Game → World h → Game
  counted p game w = record game {
    players_count = length (
        alive_players_for_game h game.id (record w {
          ticks = suc (suc w.ticks);
          players =
              h.players.set
                (make_player (admission_of h p game (next_slot h game.id w) alive)
                  (time_at h w.ticks))
                w.players;
        }));
    max_players = max_players;
    updated_at = time_at h (suc w.ticks);
  }

  admit_payment-games :
      (p : Payment) (game : Game) (w : World h)
      → (admit_payment h p game w).1.games ≡ h.games.set (counted p game w) w.games
  unfolding admit_payment update_game_count with_fresh_player_count now
  admit_payment-games p game w = ground arith

  -- A payment that is seen for the first time, for a stored arena with room, and with a token that no
  -- player of the arena has: afterwards the gateway's call for that token, with the arena's secret,
  -- returns a ticket for the player with the payment's hash and name, if the arena's id and the token
  -- can stand in a URL.
  pub paid_player_enters :
      (input : Value) (request : Fields) (p : Payment) (game : Game) (a b : Text) (w : World h)
      → h.games.get p.game_id w.games ≡ some game
      → h.players.get p.payment_hash w.players ≡ none
      → h.players.count (alive_in game.id) w.players < 5
      → h.players.count (has_token game.id p.player_token) w.players ≡ 0
      → parse_json_object h.engine input ≡ ok request
      → IsRequest request game p.player_token
      → encode_uri_component game.id ≡ ok a
      → encode_uri_component p.player_token ≡ ok b
      → let after = (record_payment h p w).1 in
        (ticket : Ticket) × ((admit_bananabreadwasm_player h input after).0 ≡ ok ticket)
        × (ticket.game_id ≡ game.id)
        × (ticket.player_id ≡ p.payment_hash)
        × (ticket.player_name ≡ p.player_name)
  unfolding record_payment settle_admission get_game make_player admit_bananabreadwasm_player
  paid_player_enters input request p game a b w arena new room unused parsed asked left_part
        right_part =
      let row =
        make_player (admission_of h p game (next_slot h game.id w) alive) (time_at h w.ticks) in
      let after = (admit_payment h p game w).1 in
      let admitted : (record_payment h p w).1 ≡ after =
        ground (arith, length-alive_players_for_game h game.id w) in
      let players = admit_payment-players h p game w in
      let stored : h.players.get row.id after.players ≡ some row =
        ground (arith, players, h.players.get_set row.id row w.players, text_eq_refl row.id) in
      let open_arena : h.games.get game.id after.games ≡ some (counted p game w) = ground (
        arith,
        admit_payment-games p game w,
        h.games.get_set game.id (counted p game w) w.games,
        text_eq_refl game.id,
      ) in
      let few : h.players.count (has_token game.id row.player_token) after.players ≤ 1 =
        ground (
          arith,
          players,
          h.players.count_set (has_token game.id row.player_token) row w.players,
        ) in
      let own : has_token game.id row.player_token row ≡ true =
        ground (arith, text_eq_refl game.id, text_eq_refl row.player_token) in
      let found = player_for_token-only game.id row.player_token row.id row after few stored own in
      let called =
        admit_call-of input request (counted p game w) row after parsed asked open_arena found
          refl in
      let (ticket, entered, same, holder, name) =
        enter_arena-ticket (counted p game w) row a b after left_part right_part in
      rw admitted (ticket, ground (arith, called, entered), same, holder, name)
