-- ===== src/Lifecycle/Retry.antt =====
-- Rows at the retries of dev/src/index.js.
use bananabreadwasm.Prelude.{◌≡◌, refl, ◌&&◌, true, List, [], ◌∷◌, All, arith, Bool-cases, inl, inr}
use bananabreadwasm.Text.{codes}
use bananabreadwasm.Result.{ok, Result-cases}
use bananabreadwasm.Js.{Value, str}
use bananabreadwasm.Rows.{Game, Player, dead, processing, failed, is_failed}
use bananabreadwasm.Table.{Once}
use bananabreadwasm.Players.{require_player_id}
use bananabreadwasm.Settlement.{
  Payout, pay_player, apply_payout, apply_refund, payout_outcome, settlement_status,
  pay_kill_reward, refund_player, reward_request, refund_request,
}
use bananabreadwasm.Host.{Host, World, PayRequest, pay_lnurl}
use bananabreadwasm.Handlers.Retry.{
  Kind, retries_payouts, retries_refunds, retry_payout, retry_refund, retry_due_payout,
  retry_due_refund, retry_player, retry_players, retry_call, settle_bananabreadwasm_payout,
}
use bananabreadwasm.Handlers.Effects.Retrying.{candidates_for-stored}
use bananabreadwasm.Safety.{IsConsistent, IsSafe}
use bananabreadwasm.Safety.Loop.{
  retried_payout, retried_refund, require_player_id-world, retry_due_payout-IsSafe,
  retry_player-IsSafe, retry_call-world, retry_call-candidates,
}
use bananabreadwasm.Account.Around.{pay_player-Asks}
use bananabreadwasm.Account.Retry.{retry_payout-Rest, retry_refund-Rest}
use bananabreadwasm.Account.Round.{IsStored, retry_due_payout-found}
use bananabreadwasm.Account.Loop.{retry_player-IsStored, candidates_for-Once}
use bananabreadwasm.Lifecycle.{
  lost, returned, phase_of, reward_retried, refund_retried, IsSamePlayer, Reaches-move, is_tried,
  Evolves, same-Evolves, Evolves-trans, Rest-Evolves-stored,
}
use bananabreadwasm.Lifecycle.Match.{
  settlement_status-tried, apply_payout-phase, apply_refund-phase,
}

module _ (h : Host) where
  -- The wallet is asked, so a reward is not held back.
  pay_player-tried :
      (r : PayRequest) (w : World h) (x : Payout)
      → (pay_player h r w).0 ≡ ok x
      → is_tried (payout_outcome x) ≡ true
  unfolding pay_player pay_lnurl payout_outcome settlement_status
  pay_player-tried r w x e = ground (arith, e)

  retry_payout-Evolves :
      (game : Game) (p : Player) (w : World h)
      → IsStored h w p
      → IsConsistent p
      → p.payout_status ≡ failed
      → Evolves w (retry_payout h game p w).1
  unfolding retry_payout apply_payout
  retry_payout-Evolves game p w stored c due =
      elim (Result-cases (require_player_id h game.id (str p.killer_id) "killerPlayerId" w).0) [
        | inl (e, threw) ↦
            let same : (retry_payout h game p w).1 ≡ w =
              ground (arith, require_player_id-world h game.id (str p.killer_id) w) in
            rw same (same-Evolves w w refl)
        | inr (killer, read) ↦
            let found : require_player_id h game.id (str p.killer_id) "killerPlayerId" w
                ≡ (ok killer, w) =
              ground (arith, require_player_id-world h game.id (str p.killer_id) w) in
            let locked = retried_payout h p in
            let asked : World h = record w { players = h.players.set locked w.players } in
            let died : p.status ≡ dead = ground arith in
            let owing : phase_of p ≡ lost failed = ground arith in
            let taken : phase_of locked ≡ lost processing = ground arith in
            let kept : IsSamePlayer p locked = (refl, refl, refl, refl, refl, refl, refl, refl) in
            Rest-Evolves-stored game p locked (apply_payout locked) w
              (pay_kill_reward h game killer locked asked) (retry_payout h game p w).1
              (pay_player-Asks h (reward_request game killer locked) asked).1
              (retry_payout-Rest h game p killer w found) stored
              (kept, rw taken (Reaches-move p _ _ owing (reward_retried processing refl)))
              (λ x answer. (
                refl,
                (
                  kept,
                  rw (apply_payout-phase locked x died) (
                      Reaches-move p _ _ owing (
                        reward_retried (payout_outcome x)
                          (pay_player-tried (reward_request game killer locked) asked x answer))),
                ),
              ))
      ]

  retry_refund-Evolves :
      (game : Game) (p current : Player) (w : World h)
      → IsStored h w current
      → IsConsistent current
      → current.refund_status ≡ failed
      → Evolves w (retry_refund h game p current w).1
  unfolding apply_refund
  retry_refund-Evolves game p current w stored c due =
      let locked = retried_refund h current in
      let asked : World h = record w { players = h.players.set locked w.players } in
      let reason = codes "Retrying failed disconnect refund." in
      let owing : phase_of current ≡ returned failed = ground arith in
      let kept : IsSamePlayer current locked = (refl, refl, refl, refl, refl, refl, refl, refl) in
      Rest-Evolves-stored game current locked (apply_refund locked) w
        (refund_player h game locked reason asked) (retry_refund h game p current w).1
        (pay_player-Asks h (refund_request game locked reason) asked).1
        (retry_refund-Rest h game p current w) stored
        (kept, Reaches-move current _ _ owing (refund_retried processing refl))
        (λ x answer. (
          refl,
          (
            kept,
            rw (apply_refund-phase locked x) (
                Reaches-move current _ _ owing
                  (refund_retried (settlement_status x) (settlement_status-tried x))),
          ),
        ))

  retry_due_payout-Evolves :
      (kind : Kind) (game : Game) (p : Player) (w : World h)
      → IsStored h w p
      → IsConsistent p
      → Evolves w (retry_due_payout h kind game p w).1
  unfolding retry_due_payout
  retry_due_payout-Evolves kind game p w stored c =
      elim (Bool-cases (retries_payouts kind && is_failed p.payout_status)) [
        | inl due ↦ rw due (retry_payout-Evolves game p w stored c (ground arith))
        | inr settled ↦ rw settled (same-Evolves w w refl)
      ]

  retry_due_refund-Evolves :
      (kind : Kind) (game : Game) (p current : Player) (w : World h)
      → IsStored h w current
      → IsConsistent current
      → Evolves w (retry_due_refund h kind game p current w).1
  unfolding retry_due_refund
  retry_due_refund-Evolves kind game p current w stored c =
      elim (Bool-cases (retries_refunds kind && is_failed current.refund_status)) [
        | inl due ↦ rw due (retry_refund-Evolves game p current w stored c (ground arith))
        | inr settled ↦ rw settled (same-Evolves w w refl)
      ]

  retry_player-Evolves :
      (kind : Kind) (game : Game) (p : Player) (w : World h)
      → IsStored h w p
      → IsSafe w
      → Evolves w (retry_player h kind game p w).1
  unfolding retry_player
  retry_player-Evolves kind game p w stored s =
      let w1 = (retry_due_payout h kind game p w).1 in
      let fits = s.consistent p.id p stored in
      let first = retry_due_payout-Evolves kind game p w stored fits in
      let s1 = retry_due_payout-IsSafe h kind game p w fits s in
      let (q, found) = retry_due_payout-found h kind game p w stored in
      elim (Result-cases (retry_due_payout h kind game p w).0) [
        | inl (e, threw) ↦
            let same : (retry_player h kind game p w).1 ≡ w1 = ground arith in rw same first
        | inr (done, answer) ↦
            let same : (retry_player h kind game p w).1 ≡ (retry_due_refund h kind game p q w1).1 =
              ground arith in
            let anew : IsStored h w1 q = rw (h.players.get_key p.id q w1.players found) found in
            rw same (
              Evolves-trans w w1 (retry_due_refund h kind game p q w1).1 first
                (retry_due_refund-Evolves kind game p q w1 anew (s1.consistent p.id q found)))
      ]

  retry_players-Evolves :
      (kind : Kind) (game : Game) (ps : List Player) (w : World h)
      → All (IsStored h w) ps
      → Once (λ p. p.id) ps
      → IsSafe w
      → Evolves w (retry_players h kind game ps w).1
  unfolding retry_players
  retry_players-Evolves kind game [] w rows once s = same-Evolves w w refl
  retry_players-Evolves kind game (p ∷ ps) w (stored, rows) (apart, once) s =
      let w1 = (retry_player h kind game p w).1 in
      let first = retry_player-Evolves kind game p w stored s in
      elim (Result-cases (retry_player h kind game p w).0) [
        | inl (e, threw) ↦
            let same : (retry_players h kind game (p ∷ ps) w).1 ≡ w1 = ground arith in rw same first
        | inr (done, answer) ↦
            let same : (retry_players h kind game (p ∷ ps) w).1
                ≡ (retry_players h kind game ps w1).1 =
              ground arith in
            let s1 = retry_player-IsSafe h kind game p w (s.consistent p.id p stored) s in
            rw same (
              Evolves-trans w w1 (retry_players h kind game ps w1).1 first (
                retry_players-Evolves kind game ps w1
                  (retry_player-IsStored h kind game p ps w apart rows) once s1))
      ]

  pub settle_bananabreadwasm_payout-Evolves :
      (input : Value) (w : World h)
      → IsSafe w
      → Evolves w (settle_bananabreadwasm_payout h input w).1
  unfolding settle_bananabreadwasm_payout
  settle_bananabreadwasm_payout-Evolves input w s = elim (Result-cases (retry_call h input w).0) [
    | inl (x, threw) ↦
        let same : (settle_bananabreadwasm_payout h input w).1 ≡ w =
          ground (arith, retry_call-world h input w) in
        rw same (same-Evolves w w refl)
    | inr (c, read) ↦
        let called : retry_call h input w ≡ (ok c, w) =
          ground (arith, retry_call-world h input w) in
        let same : (settle_bananabreadwasm_payout h input w).1
            ≡ (retry_players h c.kind c.game c.candidates w).1 =
          ground arith in
        let listed = retry_call-candidates h input w w c called in
        rw same (
          retry_players-Evolves c.kind c.game c.candidates w
            (candidates_for-stored h c.game c.player_id w w c.candidates listed)
            (candidates_for-Once h c.game c.player_id w w c.candidates listed) s)
  ]
