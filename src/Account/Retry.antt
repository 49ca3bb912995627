-- ===== src/Account/Retry.antt =====
-- Stakes when dev/src/index.js tries one reward or one refund again.
use bananabreadwasm.Prelude.{◌<◌, ◌≡◌, refl, false, some, arith, inl, inr}
use bananabreadwasm.Text.{codes}
use bananabreadwasm.Result.{ok, Result-cases}
use bananabreadwasm.Js.{str}
use bananabreadwasm.Rows.{Game, Player, failed, unset, is_alive, is_failed}
use bananabreadwasm.Players.{or_number, require_player_id}
use bananabreadwasm.Settlement.{
  apply_payout, apply_refund, pay_kill_reward, reward_request, refund_player, refund_request,
}
use bananabreadwasm.Host.{Host, World}
use bananabreadwasm.Handlers.Retry.{retry_payout, retry_refund}
use bananabreadwasm.Safety.{IsConsistent}
use bananabreadwasm.Safety.Loop.{retried_payout, retried_refund, require_player_id-world}
use bananabreadwasm.Account.{owed, IsFunded}
use bananabreadwasm.Account.Around.{
  apply_payout-owed, apply_refund-owed, Rest, pay_player-Asks, around, Step, settles,
}

module _ (h : Host) where
  pub retry_payout-Rest :
      (game : Game) (p killer : Player) (w : World h)
      → require_player_id h game.id (str p.killer_id) "killerPlayerId" w ≡ (ok killer, w)
      → let locked = retried_payout h p in
        let asked : World h = record w { players = h.players.set locked w.players } in
        Rest h game
          (apply_payout locked)
          (pay_kill_reward h game killer locked asked)
          (retry_payout h game p w).1
  unfolding retry_payout
  retry_payout-Rest game p killer w found =
      let locked = retried_payout h p in
      let asked : World h = record w { players = h.players.set locked w.players } in
      elim (Result-cases (pay_kill_reward h game killer locked asked).0) [
        | inl (e, threw) ↦ inl (e, threw, ground arith)
        | inr (x, paid) ↦ inr (x, paid, ground arith, ground arith, inl (ground arith))
      ]

  pub retry_refund-Rest :
      (game : Game) (p current : Player) (w : World h)
      → let locked = retried_refund h current in
        let asked : World h = record w { players = h.players.set locked w.players } in
        Rest h game
          (apply_refund locked)
          (refund_player h game locked (codes "Retrying failed disconnect refund.") asked)
          (retry_refund h game p current w).1
  unfolding retry_refund
  retry_refund-Rest game p current w =
      let locked = retried_refund h current in
      let asked : World h = record w { players = h.players.set locked w.players } in
      let reason = codes "Retrying failed disconnect refund." in
      elim (Result-cases (refund_player h game locked reason asked).0) [
        | inl (e, threw) ↦ inl (e, threw, ground arith)
        | inr (x, paid) ↦ inr (x, paid, ground arith, ground arith, inl (ground arith))
      ]

  pub retry_payout-Step :
      (game : Game) (p : Player) (w : World h)
      → h.players.get p.id w.players ≡ some p
      → IsConsistent p
      → p.payout_status ≡ failed
      → 0 < game.join_amount
      → IsFunded h w
      → Step h 0 w (retry_payout h game p w).1
  unfolding retry_payout owed reward_request
  retry_payout-Step game p w stored c due price f =
      elim (Result-cases (require_player_id h game.id (str p.killer_id) "killerPlayerId" w).0) [
        | inl (e, threw) ↦
            let same : (retry_payout h game p w).1 ≡ w =
              ground (arith, require_player_id-world h game.id (str p.killer_id) w) in
            rw same (omega arith, f)
        | inr (killer, read) ↦
            let found : require_player_id h game.id (str p.killer_id) "killerPlayerId" w
                ≡ (ok killer, w) =
              ground (arith, require_player_id-world h game.id (str p.killer_id) w) in
            let locked = retried_payout h p in
            let asked : World h = record w { players = h.players.set locked w.players } in
            let gone : is_alive p.status ≡ false = ground arith in
            let unrefunded : p.refund_status ≡ unset = ground arith in
            settles h game locked (apply_payout locked) p.payout_amount 0 w
              (retry_payout h game p w).1
              (around h game locked (apply_payout locked) p.payout_amount w asked
                (pay_kill_reward h game killer locked asked) _ refl refl refl
                (pay_player-Asks h (reward_request game killer locked) asked)
                (retry_payout-Rest game p killer w found))
              (ground arith) (apply_payout-owed locked gone unrefunded) (ground (arith, stored))
              (f.staked p.id p stored) price f
      ]

  pub retry_refund-Step :
      (game : Game) (p current : Player) (w : World h)
      → h.players.get current.id w.players ≡ some current
      → IsConsistent current
      → current.refund_status ≡ failed
      → 0 < game.join_amount
      → IsFunded h w
      → Step h 0 w (retry_refund h game p current w).1
  unfolding owed refund_request
  retry_refund-Step game p current w stored c due price f =
      let locked = retried_refund h current in
      let asked : World h = record w { players = h.players.set locked w.players } in
      let reason = codes "Retrying failed disconnect refund." in
      let amount = or_number current.refund_amount current.paid_amount in
      let unpaid : is_failed current.payout_status ≡ false = ground arith in
      settles h game locked (apply_refund locked) amount 0 w (retry_refund h game p current w).1
        (around h game locked (apply_refund locked) amount w asked
          (refund_player h game locked reason asked) _ refl refl refl
          (pay_player-Asks h (refund_request game locked reason) asked)
          (retry_refund-Rest game p current w))
        (ground arith) (apply_refund-owed locked unpaid) (ground (arith, stored))
        (f.staked current.id current stored) price f
