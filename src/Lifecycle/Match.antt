-- ===== src/Lifecycle/Match.antt =====
-- Rows at the kills and the disconnects of dev/src/index.js.
use bananabreadwasm.Prelude.{suc, ◌≡◌, refl, true, some, arith, Bool-cases, inl, inr}
use bananabreadwasm.Text.{Text, codes}
use bananabreadwasm.Result.{ok, Result-cases}
use bananabreadwasm.Js.{Value}
use bananabreadwasm.Rows.{Game, Player, processing, dead, is_alive}
use bananabreadwasm.Settlement.{
  Payout, apply_payout, apply_refund, payout_outcome, settlement_status, refund_player,
  refund_request,
}
use bananabreadwasm.Host.{Host, World, time_at}
use bananabreadwasm.Handlers.Match.{
  lock_kill, reward, settle_kill, kill_call, settle_bananabreadwasm_kill, lock_disconnect,
  return_stake, expire_disconnect, disconnect_call, expire_bananabreadwasm_disconnect,
}
use bananabreadwasm.Handlers.Once.Kill.{kill_call-rows}
use bananabreadwasm.Handlers.Once.Disconnect.{disconnect_call-rows}
use bananabreadwasm.Safety.Calls.{settle_kill-world, kill_call-world, disconnect_call-world}
use bananabreadwasm.Account.Around.{pay_player-Asks}
use bananabreadwasm.Account.Kill.{reward-Asks, claim_stake-Rest}
use bananabreadwasm.Account.Disconnect.{return_stake-Rest}
use bananabreadwasm.Lifecycle.{
  playing, lost, returned, phase_of, IsSamePlayer, Reaches-move, killed, expired, is_tried,
  is_rewarded, Evolves, same-Evolves, Rest-Evolves-stored,
}

pub settlement_status-tried : (x : Payout) → is_tried (settlement_status x) ≡ true
unfolding settlement_status
settlement_status-tried x = ground arith

payout_outcome-rewarded : (x : Payout) → is_rewarded (payout_outcome x) ≡ true
unfolding payout_outcome settlement_status
payout_outcome-rewarded x = ground arith

-- What the answer to a payment makes of a row.
pub apply_payout-phase :
    (p : Player) (x : Payout)
    → p.status ≡ dead
    → phase_of (apply_payout p x) ≡ lost (payout_outcome x)
unfolding apply_payout
apply_payout-phase p x d = ground arith

pub apply_refund-phase :
    (p : Player) (x : Payout) → phase_of (apply_refund p x) ≡ returned (settlement_status x)
unfolding apply_refund settlement_status
apply_refund-phase p x = ground arith

module _ (h : Host) where
  settle_kill-Evolves :
      (game : Game) (event_id : Text) (killer victim : Player) (w : World h)
      → h.players.get victim.id w.players ≡ some victim
      → Evolves w (settle_kill h game event_id killer victim w).1
  unfolding lock_kill apply_payout
  settle_kill-Evolves game event_id killer victim w stored =
      elim (settle_kill-world h game event_id killer victim w) [
        | inl same ↦ rw same (same-Evolves w w refl)
        | inr (live, claimed) ↦
            let locked =
              lock_kill h game killer victim event_id (time_at h w.ticks)
                (time_at h (suc w.ticks)) in
            let asked : World h = record w {
              ticks = suc (suc w.ticks);
              players = h.players.set locked w.players;
            } in
            let done = reward h game killer locked asked in
            let plays : phase_of victim ≡ playing = ground arith in
            let kept : IsSamePlayer victim locked =
              (refl, refl, refl, refl, refl, refl, refl, refl) in
            rw claimed (
              Rest-Evolves-stored game victim locked (apply_payout locked) w done _
                (reward-Asks h game killer locked asked).1
                (claim_stake-Rest h game killer victim event_id w) stored
                (kept, Reaches-move victim _ _ plays (killed locked.payout_status (ground arith)))
                (λ x answer. (
                  refl,
                  (
                    kept,
                    rw (apply_payout-phase locked x refl) (
                        Reaches-move victim _ _ plays
                          (killed (payout_outcome x) (payout_outcome-rewarded x))),
                  ),
                )))
      ]

  expire_disconnect-Evolves :
      (game : Game) (event_id : Text) (player : Player) (w : World h)
      → h.players.get player.id w.players ≡ some player
      → Evolves w (expire_disconnect h game event_id player w).1
  unfolding expire_disconnect lock_disconnect apply_refund
  expire_disconnect-Evolves game event_id player w stored =
      let locked =
        lock_disconnect h game player event_id (time_at h w.ticks) (time_at h (suc w.ticks)) in
      let asked : World h = record w {
        ticks = suc (suc w.ticks);
        players = h.players.set locked w.players;
      } in
      let reason = codes "Disconnected for 60 seconds." in
      let done = refund_player h game locked reason asked in
      let kept : IsSamePlayer player locked = (refl, refl, refl, refl, refl, refl, refl, refl) in
      elim (Bool-cases (is_alive player.status)) [
        | inl live ↦
            let plays : phase_of player ≡ playing = ground arith in
            let claimed : (expire_disconnect h game event_id player w).1
                ≡ (return_stake h game player event_id w).1 =
              ground arith in
            rw claimed (
              Rest-Evolves-stored game player locked (apply_refund locked) w done _
                (pay_player-Asks h (refund_request game locked reason) asked).1
                (return_stake-Rest h game player event_id w) stored
                (kept, Reaches-move player _ _ plays (expired processing refl))
                (λ x answer. (
                  refl,
                  (
                    kept,
                    rw (apply_refund-phase locked x) (
                        Reaches-move player _ _ plays
                          (expired (settlement_status x) (settlement_status-tried x))),
                  ),
                )))
        | inr gone ↦
            let same : (expire_disconnect h game event_id player w).1 ≡ w = ground arith in
            rw same (same-Evolves w w refl)
      ]

  pub settle_bananabreadwasm_kill-Evolves :
      (input : Value) (w : World h) → Evolves w (settle_bananabreadwasm_kill h input w).1
  unfolding settle_bananabreadwasm_kill
  settle_bananabreadwasm_kill-Evolves input w = elim (Result-cases (kill_call h input w).0) [
    | inl (e, threw) ↦
        let same : (settle_bananabreadwasm_kill h input w).1 ≡ w =
          ground (arith, kill_call-world h input w) in
        rw same (same-Evolves w w refl)
    | inr (c, read) ↦
        let called : kill_call h input w ≡ (ok c, w) = ground (arith, kill_call-world h input w) in
        let (_, _, _, stored, _) = kill_call-rows h input w w c called in
        let same : (settle_bananabreadwasm_kill h input w).1
            ≡ (settle_kill h c.game c.event_id c.killer c.victim w).1 =
          ground arith in
        rw same (settle_kill-Evolves c.game c.event_id c.killer c.victim w stored)
  ]

  pub expire_bananabreadwasm_disconnect-Evolves :
      (input : Value) (w : World h) → Evolves w (expire_bananabreadwasm_disconnect h input w).1
  unfolding expire_bananabreadwasm_disconnect
  expire_bananabreadwasm_disconnect-Evolves input w =
      elim (Result-cases (disconnect_call h input w).0) [
        | inl (e, threw) ↦
            let same : (expire_bananabreadwasm_disconnect h input w).1 ≡ w =
              ground (arith, disconnect_call-world h input w) in
            rw same (same-Evolves w w refl)
        | inr (c, read) ↦
            let called : disconnect_call h input w ≡ (ok c, w) =
              ground (arith, disconnect_call-world h input w) in
            let (_, _, stored, _) = disconnect_call-rows h input w w c called in
            let same : (expire_bananabreadwasm_disconnect h input w).1
                ≡ (expire_disconnect h c.game c.event_id c.player w).1 =
              ground arith in
            rw same (expire_disconnect-Evolves c.game c.event_id c.player w stored)
      ]
