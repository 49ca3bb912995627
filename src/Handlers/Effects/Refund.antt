-- ===== src/Handlers/Effects/Refund.antt =====
-- The payments of the disconnect call in dev/src/index.js.
use bananabreadwasm.Prelude.{suc, ◌≡◌, ◌⊎◌, true, ◌∷◌, arith}
use bananabreadwasm.Text.{Text, codes}
use bananabreadwasm.Rows.{Game, Player, is_alive}
use bananabreadwasm.Players.{or_number}
use bananabreadwasm.Settlement.{pay_player, refund_request}
use bananabreadwasm.Host.{Host, World, PayRequest, time_at}
use bananabreadwasm.Handlers.Match.{lock_disconnect, return_stake, expire_disconnect}

module _ (h : Host) where
  -- The request that the refund of a disconnected player makes.
  abbrev pub stake_request : Game → Player → Text → World h → PayRequest
  stake_request game player event_id w =
      refund_request game
        (lock_disconnect h game player event_id (time_at h w.ticks) (time_at h (suc w.ticks)))
        (codes "Disconnected for 60 seconds.")

  return_stake-payments :
      (game : Game) (player : Player) (event_id : Text) (w : World h)
      → let after = (return_stake h game player event_id w).1.payments in
        (after ≡ w.payments) ⊎ (after ≡ stake_request game player event_id w ∷ w.payments)
  unfolding return_stake pay_player
  return_stake-payments game player event_id w = ground arith

  -- The expiry of a disconnected player asks the wallet for at most one payment. If it asks, then
  -- the player was alive, and the payment is of the player's stake, the amount that was paid or else
  -- the arena's entry price, from the arena's wallet to the player's own address.
  pub expire_disconnect_pays :
      (game : Game) (event_id : Text) (player : Player) (w : World h)
      → let after = (expire_disconnect h game event_id player w).1.payments in
        let asked = stake_request game player event_id w in
        (after ≡ w.payments)
        ⊎ ((after ≡ asked ∷ w.payments)
            × (is_alive player.status ≡ true)
            × (asked.wallet_id ≡ game.wallet_id)
            × (asked.lnurl ≡ player.ln_address)
            × (asked.amount ≡ or_number player.paid_amount game.join_amount)
            × (asked.max_sat ≡ or_number player.paid_amount game.join_amount))
  unfolding expire_disconnect lock_disconnect refund_request
  expire_disconnect_pays game event_id player w =
      ground (arith, return_stake-payments game player event_id w)
