-- ===== src/Account/Kill.antt =====
-- Stakes at a kill in dev/src/index.js.
use bananabreadwasm.Prelude.{suc, ◌<◌, ◌≡◌, refl, some, arith, ltb, Bool-cases, inl, inr}
use bananabreadwasm.Text.{Text}
use bananabreadwasm.Result.{ok, Result-cases}
use bananabreadwasm.Js.{Value}
use bananabreadwasm.Rows.{Game, Player}
use bananabreadwasm.Players.{or_number}
use bananabreadwasm.Settlement.{apply_payout, reward_request}
use bananabreadwasm.Settlement.Amounts.{reward_after_haircut_bounds}
use bananabreadwasm.Host.{Host, World, time_at}
use bananabreadwasm.Handlers.Match.{
  lock_kill, reward, claim_stake, settle_kill, kill_call, settle_bananabreadwasm_kill,
}
use bananabreadwasm.Handlers.Once.Kill.{kill_call-rows}
use bananabreadwasm.Safety.{IsConsistent, IsSafe}
use bananabreadwasm.Safety.Calls.{settle_kill-world, kill_call-world}
use bananabreadwasm.Account.Around.{
  apply_payout-owed, recount, Rest, Asks, pay_player-Asks, around, Step, settles,
}
use bananabreadwasm.Account.{owed, IsFunded}

module _ (h : Host) where
  pub reward-Asks :
      (game : Game) (killer locked : Player) (w : World h)
      → Asks h locked.payout_amount w (reward h game killer locked w)
  unfolding reward reward_request
  reward-Asks game killer locked w = elim (Bool-cases (ltb 0 locked.payout_amount)) [
    | inl due ↦ rw due (pay_player-Asks h (reward_request game killer locked) w)
    | inr nothing ↦ rw nothing (ground arith, refl, refl)
  ]

  pub claim_stake-Rest :
      (game : Game) (killer victim : Player) (event_id : Text) (w : World h)
      → let locked =
          lock_kill h game killer victim event_id (time_at h w.ticks) (time_at h (suc w.ticks)) in
        let asked : World h = record w {
          ticks = suc (suc w.ticks);
          players = h.players.set locked w.players;
        } in
        Rest h game
          (apply_payout locked)
          (reward h game killer locked asked)
          (claim_stake h game killer victim event_id w).1
  unfolding claim_stake
  claim_stake-Rest game killer victim event_id w =
      let locked =
        lock_kill h game killer victim event_id (time_at h w.ticks) (time_at h (suc w.ticks)) in
      let asked : World h = record w {
        ticks = suc (suc w.ticks);
        players = h.players.set locked w.players;
      } in
      elim (Result-cases (reward h game killer locked asked).0) [
        | inl (e, threw) ↦ inl (e, threw, ground arith)
        | inr (x, paid) ↦
            let done = (reward h game killer locked asked).1 in
            let saved : World h = record done {
              players = h.players.set (apply_payout locked x) done.players;
            } in
            inr
              (x, paid, ground arith, ground arith, inr (recount h game saved, ground arith, refl))
      ]

  settle_kill-Step :
      (game : Game) (event_id : Text) (killer victim : Player) (w : World h)
      → h.players.get victim.id w.players ≡ some victim
      → IsConsistent victim
      → 0 < game.join_amount
      → IsFunded h w
      → Step h 0 w (settle_kill h game event_id killer victim w).1
  unfolding lock_kill owed
  settle_kill-Step game event_id killer victim w stored c price f =
      elim (settle_kill-world h game event_id killer victim w) [
        | inl same ↦ rw same (omega arith, f)
        | inr (live, claimed) ↦
            let locked =
              lock_kill h game killer victim event_id (time_at h w.ticks)
                (time_at h (suc w.ticks)) in
            let asked : World h = record w {
              ticks = suc (suc w.ticks);
              players = h.players.set locked w.players;
            } in
            let stake = f.staked victim.id victim stored in
            let least = (reward_after_haircut_bounds victim.paid_amount game.haircut).0 in
            let whole : or_number victim.paid_amount game.join_amount ≡ victim.paid_amount =
              ground arith in
            rw claimed (
              settles h game locked (apply_payout locked) locked.payout_amount 0 w
                (claim_stake h game killer victim event_id w).1
                (around h game locked (apply_payout locked) locked.payout_amount w asked
                  (reward h game killer locked asked) _ refl refl refl
                  (reward-Asks game killer locked asked)
                  (claim_stake-Rest game killer victim event_id w))
                (ground arith) (apply_payout-owed locked refl (ground arith))
                (ground (arith, stored, least, whole)) stake price f)
      ]

  pub settle_bananabreadwasm_kill-Step :
      (input : Value) (w : World h)
      → IsSafe w
      → IsFunded h w
      → Step h 0 w (settle_bananabreadwasm_kill h input w).1
  unfolding settle_bananabreadwasm_kill
  settle_bananabreadwasm_kill-Step input w s f = elim (Result-cases (kill_call h input w).0) [
    | inl (e, threw) ↦
        let same : (settle_bananabreadwasm_kill h input w).1 ≡ w =
          ground (arith, kill_call-world h input w) in
        rw same (omega arith, f)
    | inr (c, read) ↦
        let called : kill_call h input w ≡ (ok c, w) = ground (arith, kill_call-world h input w) in
        let (_, arena, _, stored, _) = kill_call-rows h input w w c called in
        let same : (settle_bananabreadwasm_kill h input w).1
            ≡ (settle_kill h c.game c.event_id c.killer c.victim w).1 =
          ground arith in
        rw same (
          settle_kill-Step c.game c.event_id c.killer c.victim w stored
            (s.consistent c.victim.id c.victim stored) (f.priced c.game.id c.game arena) f)
  ]
