-- ===== src/Handlers/Match.antt =====
-- The calls of the game gateway in dev/src/index.js: a player enters the arena, is killed, or stays
-- disconnected.
use bananabreadwasm.Prelude.{
  ℕ, Bool, false, not, Option, none, some, ◌++◌, length, ltb, ◌==◌, if◌then◌else◌,
}
use bananabreadwasm.Text.{Text, codes, text_eq}
use bananabreadwasm.Result.{
  err, throw_if, self_kill, victim_not_alive, killer_not_alive, too_few_players, player_not_alive,
}
use bananabreadwasm.Js.{Value, get_field}
use bananabreadwasm.Normalize.{required_text, either_field, parse_json_object}
use bananabreadwasm.Gateway.{encode_uri_component}
use bananabreadwasm.Rows.{Game, Player, dead, refund_processing, is_alive, processing, withheld}
use bananabreadwasm.Players.{
  or_number, max_players, get_game, alive_players_for_game, require_alive_player, require_player_id,
  require_server_secret, update_game_count,
}
use bananabreadwasm.Settlement.{
  Payout, held_back, pay_kill_reward, refund_player, apply_payout, apply_refund,
  reward_after_haircut, Stored, stored_payout, stored_refund,
}
use bananabreadwasm.Views.{PublicPlayer, public_player}
use bananabreadwasm.Host.{Host, Exec, pure, lift, gets, now, save_player, ◌>>=◌, ◌>>◌}

pub record Ticket : Type 0 where
  pub game_id : Text
  pub room_key : Text
  pub player_id : Text
  pub player_name : Text
  pub max_players : ℕ
  pub disconnect_grace_seconds : ℕ
  pub return_path : Text

-- The results of `settleBananabreadwasmKill`.
pub data KillReply : Type 0 where
  duplicate_kill : PublicPlayer → PublicPlayer → Stored → KillReply
  settled_kill : PublicPlayer → PublicPlayer → Payout → KillReply

-- The results of `expireBananabreadwasmDisconnect`.
pub data DisconnectReply : Type 0 where
  duplicate_disconnect : PublicPlayer → Stored → DisconnectReply
  settled_disconnect : PublicPlayer → Payout → DisconnectReply

-- The rows and the event that a call of the gateway names.
pub record KillCall : Type 0 where
  pub game : Game
  pub event_id : Text
  pub killer : Player
  pub victim : Player

pub record AdmitCall : Type 0 where
  pub game : Game
  pub token : Text
  pub player : Player

pub record DisconnectCall : Type 0 where
  pub game : Game
  pub event_id : Text
  pub player : Player

-- `connected_at || system.now()`: the clock is read only if the column is null or 0.
abbrev pub is_stamped : Option ℕ → Bool
is_stamped none = false
is_stamped (some n) = not (n == 0)

module _ (h : Host) where
  abbrev stamp_once : Option ℕ → Exec h (Option ℕ)
  stamp_once at = if is_stamped at then pure at else (now h >>= λ fresh. pure (some fresh))

  -- What the call reads before it decides.
  unfoldable pub admit_call : Value → Exec h AdmitCall
  admit_call input = do
    request ← lift (parse_json_object h.engine input)
    game_id ← lift (required_text h.engine (get_field "gameId" request) "gameId" 128)
    game ← get_game h game_id
    require_server_secret h game request
    token ← lift (
        required_text h.engine (either_field "playerToken" "player_token" request) "playerToken"
          128)
    player ← require_alive_player h game.id token
    pure (record { game = game; token = token; player = player })

  unfoldable pub enter_arena : Game → Text → Player → Exec h Ticket
  unfolding now
  enter_arena game token player = do
    connected_at ← stamp_once player.connected_at
    seen ← now h
    let connected : Player = record player {
      connected_at = connected_at;
      disconnected_at = none;
      last_seen_at = some seen;
    }
    save_player h connected
    game_part ← lift (encode_uri_component game.id)
    token_part ← lift (encode_uri_component token)
    pure (record {
      game_id = game.id;
      room_key = codes "lnbits-" ++ game.id;
      player_id = player.id;
      player_name = player.name;
      max_players = max_players;
      disconnect_grace_seconds = 60;
      return_path =
          codes "/ext/bananabreadwasm/games/" ++ game_part ++ codes "?playerToken=" ++ token_part;
    })

  unfoldable pub admit_bananabreadwasm_player : Value → Exec h Ticket
  admit_bananabreadwasm_player input = do
    call ← admit_call input
    enter_arena call.game call.token call.player

  -- The stake of the victim, less the arena's fee.
  abbrev pub reward_of : Game → Player → ℕ
  reward_of game victim =
      reward_after_haircut (or_number victim.paid_amount game.join_amount) game.haircut

  -- The victim's row as it is written before the wallet is asked.
  unfoldable pub lock_kill : Game → Player → Player → Text → ℕ → ℕ → Player
  lock_kill game killer victim event_id killed seen = record victim {
    status = dead;
    killer_id = killer.id;
    kill_event_id = event_id;
    payout_amount = reward_of game victim;
    payout_status = if ltb 0 (reward_of game victim) then processing else withheld;
    killed_at = some killed;
    last_seen_at = some seen;
  }

  -- `payoutAmount > 0 ? payKillReward(…) : withheldPayout()`
  unfoldable pub reward : Game → Player → Player → Exec h Payout
  reward game killer locked =
      if ltb 0 locked.payout_amount then pay_kill_reward h game killer locked else pure held_back

  -- The rest of the call, from the first write on.
  unfoldable pub claim_stake : Game → Player → Player → Text → Exec h KillReply
  unfolding now lock_kill reward update_game_count
  claim_stake game killer victim event_id = do
    killed ← now h
    seen ← now h
    let locked = lock_kill game killer victim event_id killed seen
    save_player h locked
    payout ← reward game killer locked
    let settled = apply_payout locked payout
    save_player h settled
    updated ← update_game_count h game
    pure (
        settled_kill (public_player h.engine killer false) (public_player h.engine settled false)
          payout)

  -- The kill of a live player.
  unfoldable pub settle_live_kill : Game → Text → Player → Player → Exec h KillReply
  settle_live_kill game event_id killer victim = do
    lift (throw_if (not (is_alive killer.status)) killer_not_alive)
    live ← gets (alive_players_for_game h game.id)
    lift (throw_if (ltb (length live) 2) too_few_players)
    claim_stake game killer victim event_id

  -- The call from the two players on.
  unfoldable pub settle_kill : Game → Text → Player → Player → Exec h KillReply
  settle_kill game event_id killer victim =
      if text_eq killer.id victim.id
      then lift (err self_kill)
      else if is_alive victim.status
      then settle_live_kill game event_id killer victim
      else if text_eq victim.kill_event_id event_id
      then pure (
          duplicate_kill (public_player h.engine killer false) (public_player h.engine victim false)
            (stored_payout victim))
      else lift (err victim_not_alive)

  -- What the call reads before it decides.
  unfoldable pub kill_call : Value → Exec h KillCall
  unfolding get_game require_server_secret require_player_id
  kill_call input = do
    request ← lift (parse_json_object h.engine input)
    game_id ← lift (required_text h.engine (get_field "gameId" request) "gameId" 128)
    game ← get_game h game_id
    require_server_secret h game request
    event_id ←
        lift (required_text h.engine (either_field "eventId" "event_id" request) "eventId" 160)
    killer ←
        require_player_id h game.id (either_field "killerPlayerId" "killer_player_id" request)
          "killerPlayerId"
    victim ←
        require_player_id h game.id (either_field "victimPlayerId" "victim_player_id" request)
          "victimPlayerId"
    pure (record { game = game; event_id = event_id; killer = killer; victim = victim })

  unfoldable pub settle_bananabreadwasm_kill : Value → Exec h KillReply
  settle_bananabreadwasm_kill input = do
    call ← kill_call input
    settle_kill call.game call.event_id call.killer call.victim

  -- The player's row as it is written before the wallet is asked.
  unfoldable pub lock_disconnect : Game → Player → Text → ℕ → ℕ → Player
  lock_disconnect game player event_id gone seen = record player {
    status = refund_processing;
    disconnect_event_id = event_id;
    refund_amount = or_number player.paid_amount game.join_amount;
    refund_status = processing;
    disconnected_at = some gone;
    last_seen_at = some seen;
  }

  unfoldable pub return_stake : Game → Player → Text → Exec h DisconnectReply
  unfolding now lock_disconnect update_game_count
  return_stake game player event_id = do
    gone ← now h
    seen ← now h
    let locked = lock_disconnect game player event_id gone seen
    save_player h locked
    refund ← refund_player h game locked (codes "Disconnected for 60 seconds.")
    let expired = apply_refund locked refund
    save_player h expired
    updated ← update_game_count h game
    pure (settled_disconnect (public_player h.engine expired false) refund)

  unfoldable pub expire_disconnect : Game → Text → Player → Exec h DisconnectReply
  expire_disconnect game event_id player =
      if is_alive player.status
      then return_stake game player event_id
      else if text_eq player.disconnect_event_id event_id
      then pure (duplicate_disconnect (public_player h.engine player false) (stored_refund player))
      else lift (err player_not_alive)

  unfoldable pub disconnect_call : Value → Exec h DisconnectCall
  unfolding get_game require_server_secret require_player_id
  disconnect_call input = do
    request ← lift (parse_json_object h.engine input)
    game_id ← lift (required_text h.engine (get_field "gameId" request) "gameId" 128)
    game ← get_game h game_id
    require_server_secret h game request
    event_id ←
        lift (required_text h.engine (either_field "eventId" "event_id" request) "eventId" 160)
    player ← require_player_id h game.id (either_field "playerId" "player_id" request) "playerId"
    pure (record { game = game; event_id = event_id; player = player })

  unfoldable pub expire_bananabreadwasm_disconnect : Value → Exec h DisconnectReply
  expire_bananabreadwasm_disconnect input = do
    call ← disconnect_call input
    expire_disconnect call.game call.event_id call.player
