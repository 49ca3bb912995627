-- ===== src/Account/Disconnect.antt =====
-- Stakes at the expiry of a disconnected player in dev/src/index.js.
use bananabreadwasm.Prelude.{suc, ◌<◌, ◌≡◌, refl, some, arith, Bool-cases, inl, inr}
use bananabreadwasm.Text.{Text, codes}
use bananabreadwasm.Result.{ok, Result-cases}
use bananabreadwasm.Js.{Value}
use bananabreadwasm.Rows.{Game, Player, is_alive}
use bananabreadwasm.Players.{or_number}
use bananabreadwasm.Settlement.{refund_player, apply_refund, refund_request}
use bananabreadwasm.Host.{Host, World, time_at}
use bananabreadwasm.Handlers.Match.{
  lock_disconnect, return_stake, expire_disconnect, disconnect_call,
  expire_bananabreadwasm_disconnect,
}
use bananabreadwasm.Handlers.Once.Disconnect.{disconnect_call-rows}
use bananabreadwasm.Safety.{IsConsistent, IsSafe}
use bananabreadwasm.Safety.Calls.{disconnect_call-world}
use bananabreadwasm.Account.Around.{
  apply_refund-owed, recount, Rest, pay_player-Asks, around, Step, settles,
}
use bananabreadwasm.Account.{owed, IsFunded}

module _ (h : Host) where
  pub return_stake-Rest :
      (game : Game) (player : Player) (event_id : Text) (w : World h)
      → let locked =
          lock_disconnect h game player event_id (time_at h w.ticks) (time_at h (suc w.ticks)) in
        let asked : World h = record w {
          ticks = suc (suc w.ticks);
          players = h.players.set locked w.players;
        } in
        Rest h game
          (apply_refund locked)
          (refund_player h game locked (codes "Disconnected for 60 seconds.") asked)
          (return_stake h game player event_id w).1
  unfolding return_stake
  return_stake-Rest game player event_id w =
      let locked =
        lock_disconnect h game player event_id (time_at h w.ticks) (time_at h (suc w.ticks)) in
      let asked : World h = record w {
        ticks = suc (suc w.ticks);
        players = h.players.set locked w.players;
      } in
      let back = refund_player h game locked (codes "Disconnected for 60 seconds.") asked in
      elim (Result-cases back.0) [
        | inl (e, threw) ↦ inl (e, threw, ground arith)
        | inr (x, paid) ↦
            let saved : World h = record back.1 {
              players = h.players.set (apply_refund locked x) back.1.players;
            } in
            inr
              (x, paid, ground arith, ground arith, inr (recount h game saved, ground arith, refl))
      ]

  expire_disconnect-Step :
      (game : Game) (event_id : Text) (player : Player) (w : World h)
      → h.players.get player.id w.players ≡ some player
      → IsConsistent player
      → 0 < game.join_amount
      → IsFunded h w
      → Step h 0 w (expire_disconnect h game event_id player w).1
  unfolding expire_disconnect lock_disconnect owed refund_request
  expire_disconnect-Step game event_id player w stored c price f =
      let locked =
        lock_disconnect h game player event_id (time_at h w.ticks) (time_at h (suc w.ticks)) in
      let asked : World h = record w {
        ticks = suc (suc w.ticks);
        players = h.players.set locked w.players;
      } in
      let reason = codes "Disconnected for 60 seconds." in
      let amount = or_number locked.refund_amount locked.paid_amount in
      let stake = f.staked player.id player stored in
      let whole : amount ≡ player.paid_amount = ground arith in
      elim (Bool-cases (is_alive player.status)) [
        | inl live ↦
            let returned : (expire_disconnect h game event_id player w).1
                ≡ (return_stake h game player event_id w).1 =
              ground arith in
            rw returned (
              settles h game locked (apply_refund locked) amount 0 w
                (return_stake h game player event_id w).1
                (around h game locked (apply_refund locked) amount w asked
                  (refund_player h game locked reason asked) _ refl refl refl
                  (pay_player-Asks h (refund_request game locked reason) asked)
                  (return_stake-Rest game player event_id w))
                (ground arith) (apply_refund-owed locked (ground arith))
                (ground (arith, stored, whole)) stake price f)
        | inr gone ↦
            let same : (expire_disconnect h game event_id player w).1 ≡ w = ground arith in
            rw same (omega arith, f)
      ]

  pub expire_bananabreadwasm_disconnect-Step :
      (input : Value) (w : World h)
      → IsSafe w
      → IsFunded h w
      → Step h 0 w (expire_bananabreadwasm_disconnect h input w).1
  unfolding expire_bananabreadwasm_disconnect
  expire_bananabreadwasm_disconnect-Step input w s f =
      elim (Result-cases (disconnect_call h input w).0) [
        | inl (e, threw) ↦
            let same : (expire_bananabreadwasm_disconnect h input w).1 ≡ w =
              ground (arith, disconnect_call-world h input w) in
            rw same (omega arith, f)
        | inr (c, read) ↦
            let called : disconnect_call h input w ≡ (ok c, w) =
              ground (arith, disconnect_call-world h input w) in
            let (_, arena, stored, _) = disconnect_call-rows h input w w c called in
            let same : (expire_bananabreadwasm_disconnect h input w).1
                ≡ (expire_disconnect h c.game c.event_id c.player w).1 =
              ground arith in
            rw same (
              expire_disconnect-Step c.game c.event_id c.player w stored
                (s.consistent c.player.id c.player stored) (f.priced c.game.id c.game arena) f)
      ]
