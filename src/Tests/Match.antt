-- ===== src/Tests/Match.antt =====
-- Runs of the calls of the game gateway.
use bananabreadwasm.Prelude.{◌≡◌, refl, ◌≢◌, ◌≤◌, ◌⊎◌, true, false, some, ◌∷◌, arith}
use bananabreadwasm.Text.{codes, text_eq, text_eq_iff, is_space, trim_start, drop_end, trim}
use bananabreadwasm.Result.{ok, err, invalid_secret}
use bananabreadwasm.Js.{get_field, nullish_or, truthy, string_of, obj}
use bananabreadwasm.Normalize.{clean_text, required_text, parse_json_object, either_field}
use bananabreadwasm.Rows.{Player, is_alive}
use bananabreadwasm.Table.Memory.{memory, find, upsert}
use bananabreadwasm.Host.{World, now_of, time_at, now, pay_lnurl}
use bananabreadwasm.Players.{
  or_number, alive_in, get_game, alive_players_for_game, require_player_id, require_server_secret,
  with_fresh_player_count, update_game_count,
}
use bananabreadwasm.Settlement.{
  Payout, answer_of, pay_player, reward_request, refund_request, settlement_status, payout_outcome,
  apply_payout, apply_refund, reward_after_haircut, reward_after_haircut, stored_payout,
  stored_refund,
}
use bananabreadwasm.Views.{public_player}
use bananabreadwasm.Handlers.Match.{
  duplicate_kill, settled_kill, duplicate_disconnect, settled_disconnect, lock_kill, reward,
  claim_stake, settle_live_kill, settle_kill, kill_call, settle_bananabreadwasm_kill,
  lock_disconnect, return_stake, expire_disconnect, disconnect_call,
  expire_bananabreadwasm_disconnect, admit_bananabreadwasm_player,
}
use bananabreadwasm.Handlers.Once.Kill.{Names, settle_bananabreadwasm_kill_again}
use bananabreadwasm.Handlers.Once.Disconnect.{expire_bananabreadwasm_disconnect_again}
use bananabreadwasm.Handlers.Effects.Reward.{kill_request, IsShare, settle_kill_pays}
use bananabreadwasm.Handlers.Effects.Refund.{stake_request, expire_disconnect_pays}
use bananabreadwasm.Handlers.Effects.Secret.{gateway_calls_refuse}
use bananabreadwasm.Tests.Sample.{
  paid_out, engine, host, arena, ann, bob, duel, kill_input, disconnect_input, wrong_fields,
}

abbrev after_kill : World host
after_kill = (settle_bananabreadwasm_kill host kill_input duel).1

abbrev payout : Payout
payout = answer_of 90 paid_out

abbrev killed : Player
killed = apply_payout (lock_kill host arena ann bob (codes "k1") 1700000000 1700000000) payout

kill_returns : settle_bananabreadwasm_kill host kill_input duel ≡ (
  ok (settled_kill (public_player engine ann false) (public_player engine killed false) payout),
  after_kill,
)
unfolding settle_bananabreadwasm_kill kill_call settle_kill settle_live_kill claim_stake reward
    lock_kill parse_json_object truthy required_text clean_text string_of nullish_or get_field
    get_game require_server_secret require_player_id text_eq trim trim_start drop_end is_space
    memory find upsert alive_players_for_game now time_at now_of pay_player reward_request pay_lnurl
    apply_payout update_game_count with_fresh_player_count reward_after_haircut settlement_status
    payout_outcome public_player
kill_returns = refl

settle_bananabreadwasm_kill_again_example :
    (killer victim : Player) × Names host kill_input killer.id victim.id
    × (host.players.get killer.id after_kill.players ≡ some killer)
    × (host.players.get victim.id after_kill.players ≡ some victim)
    × (settle_bananabreadwasm_kill host kill_input after_kill ≡ (
      ok (
          duplicate_kill
            (public_player engine killer false)
            (public_player engine victim false)
            (stored_payout victim)),
      after_kill,
    ))
settle_bananabreadwasm_kill_again_example =
    settle_bananabreadwasm_kill_again host kill_input duel after_kill
      (settled_kill (public_player engine ann false) (public_player engine killed false) payout)
      kill_returns

abbrev after_disconnect : World host
after_disconnect = (expire_bananabreadwasm_disconnect host disconnect_input duel).1

abbrev refund : Payout
refund = answer_of 100 paid_out

abbrev gone : Player
gone = apply_refund (lock_disconnect host arena bob (codes "d1") 1700000000 1700000000) refund

disconnect_returns :
    expire_bananabreadwasm_disconnect host disconnect_input duel
    ≡ (ok (settled_disconnect (public_player engine gone false) refund), after_disconnect)
unfolding expire_bananabreadwasm_disconnect disconnect_call expire_disconnect return_stake
    lock_disconnect parse_json_object truthy required_text clean_text string_of nullish_or get_field
    get_game require_server_secret require_player_id text_eq trim trim_start drop_end is_space
    memory find upsert alive_players_for_game now time_at now_of pay_player refund_request pay_lnurl
    apply_refund update_game_count with_fresh_player_count settlement_status public_player
disconnect_returns = refl

expire_bananabreadwasm_disconnect_again_example :
    (player : Player) × (host.players.get player.id after_disconnect.players ≡ some player)
    × (expire_bananabreadwasm_disconnect host disconnect_input after_disconnect ≡ (
      ok (duplicate_disconnect (public_player engine player false) (stored_refund player)),
      after_disconnect,
    ))
expire_bananabreadwasm_disconnect_again_example =
    expire_bananabreadwasm_disconnect_again host disconnect_input duel after_disconnect
      (settled_disconnect (public_player engine gone false) refund) disconnect_returns

settle_kill_pays_example :
    let after = (settle_kill host arena (codes "k1") ann bob duel).1.payments in
    let asked = kill_request host arena ann bob (codes "k1") duel in
    (after ≡ duel.payments)
    ⊎ ((after ≡ asked ∷ duel.payments)
        × (ann.id ≢ bob.id)
        × (is_alive ann.status ≡ true)
        × (is_alive bob.status ≡ true)
        × (2 ≤ host.players.count (alive_in arena.id) duel.players)
        × (asked.wallet_id ≡ arena.wallet_id)
        × (asked.lnurl ≡ ann.ln_address)
        × (asked.max_sat ≡ asked.amount)
        × IsShare host 100 10 asked.amount)
settle_kill_pays_example = settle_kill_pays host arena (codes "k1") ann bob duel

parsed : parse_json_object engine (obj wrong_fields) ≡ ok wrong_fields
unfolding parse_json_object truthy
parsed = refl

named : required_text engine (get_field "gameId" wrong_fields) "gameId" 128 ≡ ok (codes "arena")
unfolding required_text clean_text string_of nullish_or get_field trim trim_start drop_end is_space
named = refl

given :
    required_text engine
      (either_field "serverSecret" "server_secret" wrong_fields)
      "serverSecret"
      256
    ≡ ok (codes "guess")
unfolding required_text clean_text string_of nullish_or get_field trim trim_start drop_end is_space
given = refl

stored : host.games.get (codes "arena") duel.games ≡ some arena
unfolding memory find upsert text_eq
stored = refl

wrong : codes "guess" ≢ arena.server_secret
unfolding text_eq
wrong = ground (arith, text_eq_iff (codes "guess") arena.server_secret)

gateway_calls_refuse_example :
    (admit_bananabreadwasm_player host (obj wrong_fields) duel ≡ (err invalid_secret, duel))
    × (settle_bananabreadwasm_kill host (obj wrong_fields) duel ≡ (err invalid_secret, duel))
    × (expire_bananabreadwasm_disconnect host (obj wrong_fields) duel ≡ (err invalid_secret, duel))
gateway_calls_refuse_example =
    gateway_calls_refuse host (obj wrong_fields) wrong_fields (codes "arena") (codes "guess") arena
      duel parsed named stored given wrong

expire_disconnect_pays_example :
    let after = (expire_disconnect host arena (codes "d1") bob duel).1.payments in
    let asked = stake_request host arena bob (codes "d1") duel in
    (after ≡ duel.payments)
    ⊎ ((after ≡ asked ∷ duel.payments)
        × (is_alive bob.status ≡ true)
        × (asked.wallet_id ≡ arena.wallet_id)
        × (asked.lnurl ≡ bob.ln_address)
        × (asked.amount ≡ or_number bob.paid_amount arena.join_amount)
        × (asked.max_sat ≡ or_number bob.paid_amount arena.join_amount))
expire_disconnect_pays_example = expire_disconnect_pays host arena (codes "d1") bob duel
