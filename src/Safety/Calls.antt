-- ===== src/Safety/Calls.antt =====
-- The players' table at the kills and the disconnects of dev/src/index.js.
use bananabreadwasm.Prelude.{suc, ◌≡◌, refl, true, false, ◌⊎◌, arith, Bool-cases, inl, inr}
use bananabreadwasm.Text.{Text, codes}
use bananabreadwasm.Result.{Result, ok, err, Result-cases}
use bananabreadwasm.Js.{Value}
use bananabreadwasm.Rows.{Game, Player, dead, is_alive, unset}
use bananabreadwasm.Players.{get_game, require_player_id, require_server_secret}
use bananabreadwasm.Settlement.{
  Payout, held_back, pay_player, apply_payout, apply_refund, refund_request,
}
use bananabreadwasm.Host.{Host, World, PayRequest, time_at}
use bananabreadwasm.Handlers.Match.{
  lock_kill, reward, claim_stake, settle_live_kill, settle_kill, kill_call,
  settle_bananabreadwasm_kill, lock_disconnect, return_stake, expire_disconnect, disconnect_call,
  expire_bananabreadwasm_disconnect,
}
use bananabreadwasm.Handlers.Once.Kill.{kill_call-rows}
use bananabreadwasm.Handlers.Once.Disconnect.{disconnect_call-rows}
use bananabreadwasm.Safety.{IsConsistent, IsSafe, Writes, Writes-IsSafe}

-- The payout of a wallet call that returned; the value for one that threw is never used.
abbrev payload : Result Payout → Payout
payload (ok p) = p
payload (err e) = held_back

-- The answer to a reward leaves a dead row, whose payout is open or closed.
pub apply_payout-IsConsistent :
    (p : Player)
    → p.status ≡ dead
    → p.refund_status ≡ unset
    → (x : Payout) → IsConsistent (apply_payout p x) × (is_alive (apply_payout p x).status ≡ false)
unfolding apply_payout
apply_payout-IsConsistent p d u x = ground arith

-- The answer to a refund leaves a row that has left, or waits.
pub apply_refund-IsConsistent :
    (p : Player)
    → p.payout_status ≡ unset
    → (x : Payout) → IsConsistent (apply_refund p x) × (is_alive (apply_refund p x).status ≡ false)
unfolding apply_refund
apply_refund-IsConsistent p u x = ground arith

module _ (h : Host) where
  -- A payment touches no table.
  pub pay_player-tables :
      (r : PayRequest) (w : World h)
      → ((pay_player h r w).1.players ≡ w.players)
        × ((pay_player h r w).1.games ≡ w.games)
        × ((pay_player h r w).1.settings ≡ w.settings)
  unfolding pay_player
  pay_player-tables r w = ground arith

  -- The two writes of a kill.
  claim_stake-Writes :
      (game : Game) (killer victim : Player) (event_id : Text) (w : World h)
      → let locked =
          lock_kill h game killer victim event_id (time_at h w.ticks) (time_at h (suc w.ticks)) in
        Writes locked (apply_payout locked) w (claim_stake h game killer victim event_id w).1
  unfolding claim_stake pay_player
  claim_stake-Writes game killer victim event_id w =
      let locked =
        lock_kill h game killer victim event_id (time_at h w.ticks) (time_at h (suc w.ticks)) in
      let asked : World h = record w {
        ticks = suc (suc w.ticks);
        players = h.players.set locked w.players;
      } in
      elim (Result-cases (reward h game killer locked asked).0) [
        | inl (e, threw) ↦ inl (ground arith)
        | inr (p, paid) ↦ inr (p, ground arith)
      ]

  pub settle_kill-world :
      (game : Game) (event_id : Text) (killer victim : Player) (w : World h)
      → ((settle_kill h game event_id killer victim w).1 ≡ w)
        ⊎ ((is_alive victim.status ≡ true)
            × ((settle_kill h game event_id killer victim w).1
                ≡ (claim_stake h game killer victim event_id w).1))
  unfolding settle_kill settle_live_kill
  settle_kill-world game event_id killer victim w = ground arith

  settle_kill-IsSafe :
      (game : Game) (event_id : Text) (killer victim : Player) (w : World h)
      → IsConsistent victim
      → IsSafe w
      → IsSafe (settle_kill h game event_id killer victim w).1
  unfolding lock_kill
  settle_kill-IsSafe game event_id killer victim w c s =
      elim (settle_kill-world game event_id killer victim w) [
        | inl same ↦ rw same s
        | inr (live, claimed) ↦
            let locked =
              lock_kill h game killer victim event_id (time_at h w.ticks)
                (time_at h (suc w.ticks)) in
            let untouched : victim.refund_status ≡ unset = ground arith in
            rw claimed (
              Writes-IsSafe locked (apply_payout locked) w _
                (claim_stake-Writes game killer victim event_id w) (ground arith) refl
                (apply_payout-IsConsistent locked refl untouched) s)
      ]

  pub kill_call-world : (input : Value) (w : World h) → (kill_call h input w).1 ≡ w
  unfolding kill_call get_game require_player_id require_server_secret
  kill_call-world input w = ground arith

  pub settle_bananabreadwasm_kill-IsSafe :
      (input : Value) (w : World h) → IsSafe w → IsSafe (settle_bananabreadwasm_kill h input w).1
  unfolding settle_bananabreadwasm_kill
  settle_bananabreadwasm_kill-IsSafe input w s = elim (Result-cases (kill_call h input w).0) [
    | inl (e, threw) ↦
        let same : (settle_bananabreadwasm_kill h input w).1 ≡ w =
          ground (arith, kill_call-world input w) in
        rw same s
    | inr (c, read) ↦
        let called : kill_call h input w ≡ (ok c, w) = ground (arith, kill_call-world input w) in
        let (_, _, _, stored, _) = kill_call-rows h input w w c called in
        let same : (settle_bananabreadwasm_kill h input w).1
            ≡ (settle_kill h c.game c.event_id c.killer c.victim w).1 =
          ground arith in
        rw same (
          settle_kill-IsSafe c.game c.event_id c.killer c.victim w
            (s.consistent c.victim.id c.victim stored) s)
  ]

  return_stake-Writes :
      (game : Game) (player : Player) (event_id : Text) (w : World h)
      → let locked =
          lock_disconnect h game player event_id (time_at h w.ticks) (time_at h (suc w.ticks)) in
        Writes locked (apply_refund locked) w (return_stake h game player event_id w).1
  unfolding return_stake pay_player
  return_stake-Writes game player event_id w =
      let locked =
        lock_disconnect h game player event_id (time_at h w.ticks) (time_at h (suc w.ticks)) in
      let asked : World h = record w {
        ticks = suc (suc w.ticks);
        players = h.players.set locked w.players;
      } in
      elim (Result-cases
        (pay_player h (refund_request game locked (codes "Disconnected for 60 seconds."))
          asked).0) [ inl (e, threw) ↦ inl (ground arith) | inr (p, paid) ↦ inr (p, ground arith) ]

  expire_disconnect-IsSafe :
      (game : Game) (event_id : Text) (player : Player) (w : World h)
      → IsConsistent player
      → IsSafe w
      → IsSafe (expire_disconnect h game event_id player w).1
  unfolding lock_disconnect expire_disconnect
  expire_disconnect-IsSafe game event_id player w c s =
      let locked =
        lock_disconnect h game player event_id (time_at h w.ticks) (time_at h (suc w.ticks)) in
      elim (Bool-cases (is_alive player.status)) [
        | inl live ↦
            let untouched : player.payout_status ≡ unset = ground arith in
            let returned : (expire_disconnect h game event_id player w).1
                ≡ (return_stake h game player event_id w).1 =
              ground arith in
            rw returned (
              Writes-IsSafe locked (apply_refund locked) w _
                (return_stake-Writes game player event_id w) (ground arith) refl
                (apply_refund-IsConsistent locked untouched) s)
        | inr gone ↦
            let same : (expire_disconnect h game event_id player w).1 ≡ w = ground arith in
            rw same s
      ]

  pub disconnect_call-world : (input : Value) (w : World h) → (disconnect_call h input w).1 ≡ w
  unfolding disconnect_call get_game require_player_id require_server_secret
  disconnect_call-world input w = ground arith

  pub expire_bananabreadwasm_disconnect-IsSafe :
      (input : Value) (w : World h)
      → IsSafe w
      → IsSafe (expire_bananabreadwasm_disconnect h input w).1
  unfolding expire_bananabreadwasm_disconnect
  expire_bananabreadwasm_disconnect-IsSafe input w s =
      elim (Result-cases (disconnect_call h input w).0) [
        | inl (e, threw) ↦
            let same : (expire_bananabreadwasm_disconnect h input w).1 ≡ w =
              ground (arith, disconnect_call-world input w) in
            rw same s
        | inr (c, read) ↦
            let called : disconnect_call h input w ≡ (ok c, w) =
              ground (arith, disconnect_call-world input w) in
            let (_, _, stored, _) = disconnect_call-rows h input w w c called in
            let same : (expire_bananabreadwasm_disconnect h input w).1
                ≡ (expire_disconnect h c.game c.event_id c.player w).1 =
              ground arith in
            rw same (
              expire_disconnect-IsSafe c.game c.event_id c.player w
                (s.consistent c.player.id c.player stored) s)
      ]
