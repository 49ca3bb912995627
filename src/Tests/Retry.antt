-- ===== src/Tests/Retry.antt =====
-- Retries in an arena with a player whose refund failed.
use bananabreadwasm.Prelude.{◌≤◌, none, false, if◌then◌else◌, ◌≡◌, refl, some, [], ◌∷◌, arith}
use bananabreadwasm.Text.{Text, codes, text_eq, is_space, trim_start, drop_end, trim, ascii_lower}
use bananabreadwasm.Result.{ok}
use bananabreadwasm.Js.{Value, obj, end, get_field, string_of, nullish_or, or_value, truthy}
use bananabreadwasm.Normalize.{clean_text, required_text, parse_json_object}
use bananabreadwasm.Rows.{Player, refund_failed, unset, failed, is_failed}
use bananabreadwasm.Table.Memory.{memory, find, upsert}
use bananabreadwasm.Host.{World, pay_lnurl}
use bananabreadwasm.Players.{in_game, players_for_game, get_game, require_player_id}
use bananabreadwasm.Settlement.{
  settlement_status, pay_player, refund_request, answer_of, apply_refund,
}
use bananabreadwasm.Handlers.Retry.{
  every, refund_only, retry_players, retry_player, retry_due_payout, retry_due_refund, retry_refund,
  RetryCall, Retried, kind_of, retry_call, candidates_for, settle_bananabreadwasm_payout,
}
use bananabreadwasm.Safety.Loop.{retried_refund}
use bananabreadwasm.Handlers.Effects.Retrying.{retry_leaves_undue}
use bananabreadwasm.Handlers.Effects.Clearing.{IsWilling, IsPayable, refunds_clear}
use bananabreadwasm.Tests.Sample.{
  host, arena, ann, bob, paid_out, duel, player_named, with_player, text_field,
}

abbrev cut : Player
cut = record (player_named (codes "cut") refund_failed unset) {
  refund_amount = 100;
  refund_status = failed;
  refund_attempts = 1;
}

abbrev world : World host
world = with_player cut duel

abbrev input : Value
input = obj (text_field "gameId" "arena" (text_field "playerId" "cut" end))

abbrev call : RetryCall
call = record { game = arena; player_id = codes "cut"; kind = every; candidates = cut ∷ [] }

called : retry_call host input world ≡ (ok call, world)
unfolding retry_call candidates_for kind_of parse_json_object truthy or_value required_text
    clean_text string_of nullish_or get_field trim trim_start drop_end is_space memory find upsert
    text_eq get_game require_player_id ascii_lower
called = refl

ann_stored : host.players.get (codes "ann") world.players ≡ some ann
unfolding memory find upsert text_eq
ann_stored = refl

cut_stored : host.players.get (codes "cut") world.players ≡ some cut
unfolding memory find upsert text_eq
cut_stored = refl

retry_leaves_undue_example :
    host.players.get (codes "ann") (settle_bananabreadwasm_payout host input world).1.players
    ≡ some ann
retry_leaves_undue_example =
    retry_leaves_undue host input (codes "ann") ann world ann_stored (refl, refl)

abbrev refund_input : Value
refund_input = obj (text_field "gameId" "arena" (text_field "kind" "refund" end))

abbrev refund_call : RetryCall
refund_call = record {
  game = arena;
  player_id = [];
  kind = refund_only;
  candidates = ann ∷ bob ∷ cut ∷ [];
}

refund_called : retry_call host refund_input world ≡ (ok refund_call, world)
unfolding retry_call candidates_for kind_of parse_json_object truthy or_value required_text
    clean_text string_of nullish_or get_field trim trim_start drop_end is_space memory find upsert
    text_eq get_game players_for_game ascii_lower
refund_called = refl

host-IsWilling : IsWilling host
unfolding settlement_status
host-IsWilling past r = (paid_out, refl, refl)

world_rows :
    (j : Text)
    → host.players.get j world.players ≡ (
        if text_eq ann.id j
        then some ann
        else if text_eq bob.id j
        then some bob
        else if text_eq cut.id j
        then some cut
        else none)
unfolding memory find upsert text_eq
world_rows j = refl

world-IsPayable : (j : Text) (p : Player) → host.players.get j world.players ≡ some p → IsPayable p
world-IsPayable j p stored = ground (arith, world_rows j)

world_small : host.players.count (in_game (codes "arena")) world.players ≤ 100
unfolding memory find upsert text_eq
world_small = omega arith

abbrev cut_refunded : Player
cut_refunded = apply_refund (retried_refund host cut) (answer_of 100 paid_out)

cut_final :
    host.players.get (codes "cut") (settle_bananabreadwasm_payout host refund_input world).1.players
    ≡ some cut_refunded
unfolding settle_bananabreadwasm_payout retry_players retry_player retry_due_payout retry_due_refund
    retry_refund pay_player pay_lnurl refund_request retry_call candidates_for kind_of
    parse_json_object truthy or_value required_text clean_text string_of nullish_or get_field trim
    trim_start drop_end is_space memory find upsert text_eq get_game players_for_game ascii_lower
    apply_refund
cut_final = refl

refunds_clear_example :
    ((reply : Retried) × ((settle_bananabreadwasm_payout host refund_input world).0 ≡ ok reply))
    × (is_failed cut_refunded.refund_status ≡ false)
unfolding apply_refund
refunds_clear_example =
    refunds_clear host refund_input refund_call (codes "cut") cut_refunded world world refund_called
      refl refl host-IsWilling refl world_small world-IsPayable cut_final refl
