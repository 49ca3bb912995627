-- ===== src/Handlers/Effects/Reward.antt =====
-- The payments of the kill settlement in dev/src/index.js.
use bananabreadwasm.Prelude.{
  ℕ, suc, ◌+◌, ◌-◌, ◌*◌, ◌<◌, ◌==◌, if◌then◌else◌, ◌≤◌, ◌≡◌, ◌≢◌, ◌⊎◌, true, ◌∷◌, arith,
}
use bananabreadwasm.Text.{Text, text_eq_iff}
use bananabreadwasm.Rows.{Game, Player, is_alive}
use bananabreadwasm.Players.{alive_in}
use bananabreadwasm.Settlement.Amounts.{reward_after_haircut_bounds}
use bananabreadwasm.Players.Capacity.{length-alive_players_for_game}
use bananabreadwasm.Settlement.{pay_player, reward_request}
use bananabreadwasm.Host.{Host, World, PayRequest, time_at}
use bananabreadwasm.Handlers.Match.{lock_kill, claim_stake, settle_live_kill, settle_kill}

module _ (h : Host) where
  -- The request that the kill of a victim makes.
  abbrev pub kill_request : Game → Player → Player → Text → World h → PayRequest
  kill_request game killer victim event_id w =
      reward_request game killer
        (lock_kill h game killer victim event_id (time_at h w.ticks) (time_at h (suc w.ticks)))

  claim_stake-payments :
      (game : Game) (killer victim : Player) (event_id : Text) (w : World h)
      → let after = (claim_stake h game killer victim event_id w).1.payments in
        (after ≡ w.payments) ⊎ (after ≡ kill_request game killer victim event_id w ∷ w.payments)
  unfolding claim_stake pay_player
  claim_stake-payments game killer victim event_id w = ground arith

  -- A whole number of sats, the largest that is at most the stake less so many hundredths of it.
  abbrev pub IsShare : ℕ → ℕ → ℕ → Type 0
  IsShare stake fee amount =
      (100 * amount ≤ stake * (100 - fee)) × (stake * (100 - fee) < 100 * amount + 100)

  -- The settlement of a kill asks the wallet for at most one payment. If it asks, then killer and
  -- victim are different players, both alive, two or more players of the arena are alive, and the
  -- payment is from the arena's wallet to the killer's address. Its amount, which is also its cap, is
  -- the victim's stake less the arena's fee in per cent, rounded down to a whole sat, where the stake
  -- is what the victim paid, or the entry price if that is 0.
  pub settle_kill_pays :
      (game : Game) (event_id : Text) (killer victim : Player) (w : World h)
      → let after = (settle_kill h game event_id killer victim w).1.payments in
        let asked = kill_request game killer victim event_id w in
        (after ≡ w.payments)
        ⊎ ((after ≡ asked ∷ w.payments)
            × (killer.id ≢ victim.id)
            × (is_alive killer.status ≡ true)
            × (is_alive victim.status ≡ true)
            × (2 ≤ h.players.count (alive_in game.id) w.players)
            × (asked.wallet_id ≡ game.wallet_id)
            × (asked.lnurl ≡ killer.ln_address)
            × (asked.max_sat ≡ asked.amount)
            × IsShare
                (if victim.paid_amount == 0 then game.join_amount else victim.paid_amount)
                game.haircut
                asked.amount)
  unfolding settle_kill settle_live_kill lock_kill reward_request
  settle_kill_pays game event_id killer victim w = ground (
    arith,
    claim_stake-payments game killer victim event_id w,
    text_eq_iff killer.id victim.id,
    length-alive_players_for_game h game.id w,
    reward_after_haircut_bounds
        (if victim.paid_amount == 0 then game.join_amount else victim.paid_amount) game.haircut,
  )
