-- ===== src/Safety/Loop.antt =====
-- The players' table at the retries of dev/src/index.js.
use bananabreadwasm.Prelude.{
  ◌≡◌, ◌&&◌, List, [], ◌∷◌, All, All-map, arith, Bool-cases, Option-cases, inl, inr,
}
use bananabreadwasm.Text.{Text, codes, is_empty}
use bananabreadwasm.Result.{ok, Result-cases}
use bananabreadwasm.Js.{Value, str}
use bananabreadwasm.Rows.{
  Game, Player, dead, refund_processing, unset, failed, is_failed, processing,
}
use bananabreadwasm.Players.{require_player_id, players_for_game}
use bananabreadwasm.Players.Lookup.{require_player_id-eq-ok, players_for_game-rows}
use bananabreadwasm.Settlement.{
  pay_player, apply_payout, apply_refund, reward_request, refund_request,
}
use bananabreadwasm.Host.{Host, World}
use bananabreadwasm.Handlers.Retry.{
  Kind, RetryCall, retry_call, candidates_for, stored_or, retries_payouts, retries_refunds,
  retry_payout, retry_refund, retry_due_payout, retry_due_refund, retry_player, retry_players,
  settle_bananabreadwasm_payout,
}
use bananabreadwasm.Safety.{IsConsistent, IsSafe, Writes, Writes-IsSafe}
use bananabreadwasm.Safety.Calls.{apply_payout-IsConsistent, apply_refund-IsConsistent}

module _ (h : Host) where
  abbrev pub retried_payout : Player → Player
  retried_payout p = record p { payout_status = processing }

  abbrev pub retried_refund : Player → Player
  retried_refund p = record p { status = refund_processing; refund_status = processing }

  pub retry_payout-Writes :
      (game : Game) (p killer : Player) (w : World h)
      → require_player_id h game.id (str p.killer_id) "killerPlayerId" w ≡ (ok killer, w)
      → Writes (retried_payout p) (apply_payout (retried_payout p)) w (retry_payout h game p w).1
  unfolding retry_payout pay_player
  retry_payout-Writes game p killer w found =
      let asked : World h = record w { players = h.players.set (retried_payout p) w.players } in
      elim (Result-cases (pay_player h (reward_request game killer (retried_payout p)) asked).0) [
        | inl (e, threw) ↦ inl (ground arith)
        | inr (x, paid) ↦ inr (x, ground arith)
      ]

  pub retry_refund-Writes :
      (game : Game) (p current : Player) (w : World h)
      → Writes
          (retried_refund current)
          (apply_refund (retried_refund current))
          w
          (retry_refund h game p current w).1
  unfolding retry_refund pay_player
  retry_refund-Writes game p current w =
      let locked = retried_refund current in
      let asked : World h = record w { players = h.players.set locked w.players } in
      elim (Result-cases
        (pay_player h (refund_request game locked (codes "Retrying failed disconnect refund."))
          asked).0) [ inl (e, threw) ↦ inl (ground arith) | inr (x, paid) ↦ inr (x, ground arith) ]

  pub require_player_id-world :
      (g : Text) (v : Value) (w : World h) → (require_player_id h g v "killerPlayerId" w).1 ≡ w
  unfolding require_player_id
  require_player_id-world g v w = ground arith

  retry_payout-IsSafe :
      (game : Game) (p : Player) (w : World h)
      → IsConsistent p
      → p.payout_status ≡ failed
      → IsSafe w
      → IsSafe (retry_payout h game p w).1
  unfolding retry_payout
  retry_payout-IsSafe game p w c due s =
      elim (Result-cases (require_player_id h game.id (str p.killer_id) "killerPlayerId" w).0) [
        | inl (e, threw) ↦
            let same : (retry_payout h game p w).1 ≡ w =
              ground (arith, require_player_id-world game.id (str p.killer_id) w) in
            rw same s
        | inr (killer, read) ↦
            let found : require_player_id h game.id (str p.killer_id) "killerPlayerId" w
                ≡ (ok killer, w) =
              ground (arith, require_player_id-world game.id (str p.killer_id) w) in
            let died : p.status ≡ dead = ground arith in
            let unrefunded : p.refund_status ≡ unset = ground arith in
            Writes-IsSafe (retried_payout p) (apply_payout (retried_payout p)) w _
              (retry_payout-Writes game p killer w found) (ground arith) (ground arith)
              (apply_payout-IsConsistent (retried_payout p) died unrefunded) s
      ]

  retry_refund-IsSafe :
      (game : Game) (p current : Player) (w : World h)
      → IsConsistent current
      → current.refund_status ≡ failed
      → IsSafe w
      → IsSafe (retry_refund h game p current w).1
  retry_refund-IsSafe game p current w c due s =
      let unpaid : current.payout_status ≡ unset = ground arith in
      Writes-IsSafe (retried_refund current) (apply_refund (retried_refund current)) w _
        (retry_refund-Writes game p current w) (ground arith) (ground arith)
        (apply_refund-IsConsistent (retried_refund current) unpaid) s

  pub retry_due_payout-IsSafe :
      (kind : Kind) (game : Game) (p : Player) (w : World h)
      → IsConsistent p
      → IsSafe w
      → IsSafe (retry_due_payout h kind game p w).1
  unfolding retry_due_payout
  retry_due_payout-IsSafe kind game p w c s =
      elim (Bool-cases (retries_payouts kind && is_failed p.payout_status)) [
        | inl due ↦ rw due (retry_payout-IsSafe game p w c (ground arith) s)
        | inr settled ↦ rw settled s
      ]

  retry_due_refund-IsSafe :
      (kind : Kind) (game : Game) (p current : Player) (w : World h)
      → IsConsistent current
      → IsSafe w
      → IsSafe (retry_due_refund h kind game p current w).1
  unfolding retry_due_refund
  retry_due_refund-IsSafe kind game p current w c s =
      elim (Bool-cases (retries_refunds kind && is_failed current.refund_status)) [
        | inl due ↦ rw due (retry_refund-IsSafe game p current w c (ground arith) s)
        | inr settled ↦ rw settled s
      ]

  pub stored_or-IsConsistent :
      (p : Player) (w : World h)
      → IsConsistent p
      → IsSafe w
      → IsConsistent (stored_or p (h.players.get p.id w.players))
  stored_or-IsConsistent p w c s = elim (Option-cases (h.players.get p.id w.players)) [
    | inl gone ↦ rw gone c
    | inr (q, stored) ↦ rw stored (s.consistent p.id q stored)
  ]

  pub retry_player-IsSafe :
      (kind : Kind) (game : Game) (p : Player) (w : World h)
      → IsConsistent p
      → IsSafe w
      → IsSafe (retry_player h kind game p w).1
  unfolding retry_player
  retry_player-IsSafe kind game p w c s =
      let w1 = (retry_due_payout h kind game p w).1 in
      let s1 = retry_due_payout-IsSafe kind game p w c s in
      let current = stored_or p (h.players.get p.id w1.players) in
      elim (Result-cases (retry_due_payout h kind game p w).0) [
        | inl (e, threw) ↦
            let same : (retry_player h kind game p w).1 ≡ w1 = ground arith in rw same s1
        | inr (done, returned) ↦
            let same : (retry_player h kind game p w).1
                ≡ (retry_due_refund h kind game p current w1).1 =
              ground arith in
            rw same
              (retry_due_refund-IsSafe kind game p current w1 (stored_or-IsConsistent p w1 c s1) s1)
      ]

  retry_players-IsSafe :
      (kind : Kind) (game : Game) (ps : List Player) (w : World h)
      → All IsConsistent ps
      → IsSafe w
      → IsSafe (retry_players h kind game ps w).1
  unfolding retry_players
  retry_players-IsSafe kind game [] w c s = s
  retry_players-IsSafe kind game (p ∷ ps) w (c, cs) s =
      let w1 = (retry_player h kind game p w).1 in
      let s1 = retry_player-IsSafe kind game p w c s in
      elim (Result-cases (retry_player h kind game p w).0) [
        | inl (e, threw) ↦
            let same : (retry_players h kind game (p ∷ ps) w).1 ≡ w1 = ground arith in rw same s1
        | inr (done, returned) ↦
            let same : (retry_players h kind game (p ∷ ps) w).1
                ≡ (retry_players h kind game ps w1).1 =
              ground arith in
            rw same (retry_players-IsSafe kind game ps w1 cs s1)
      ]

  stored-IsConsistent :
      (game_id : Text) (w : World h)
      → IsSafe w
      → All IsConsistent (players_for_game h game_id 100 w)
  stored-IsConsistent game_id w s =
      All-map _ IsConsistent (λ p r. s.consistent p.id p r.1) _
        (players_for_game-rows h game_id 100 w)

  candidates_for-IsConsistent :
      (game : Game) (i : Text) (w w' : World h) (ps : List Player)
      → candidates_for h game i w ≡ (ok ps, w')
      → IsSafe w
      → All IsConsistent ps
  unfolding candidates_for
  candidates_for-IsConsistent game i w w' ps e s = elim (Bool-cases (is_empty i)) [
    | inl everyone ↦
        let same : ps ≡ players_for_game h game.id 100 w = ground arith in
        rw same (stored-IsConsistent game.id w s)
    | inr one ↦ elim (Result-cases (require_player_id h game.id (str i) "playerId" w).0) [
      | inl (x, threw) ↦ absurd (ground arith)
      | inr (p, read) ↦
          let found : require_player_id h game.id (str i) "playerId" w
              ≡ (ok p, (require_player_id h game.id (str i) "playerId" w).1) =
            ground arith in
          let (_, _, stored, _) =
            require_player_id-eq-ok h game.id (str i) "playerId" w _ p found in
          let same : ps ≡ p ∷ [] = ground arith in rw same (s.consistent p.id p stored, tt)
    ]
  ]

  pub retry_call-world : (input : Value) (w : World h) → (retry_call h input w).1 ≡ w
  unfolding retry_call candidates_for
  retry_call-world input w = ground arith

  pub retry_call-candidates :
      (input : Value) (w w' : World h) (c : RetryCall)
      → retry_call h input w ≡ (ok c, w')
      → candidates_for h c.game c.player_id w ≡ (ok c.candidates, w')
  unfolding retry_call
  retry_call-candidates input w w' c e = grind arith

  pub retry_call-IsConsistent :
      (input : Value) (w w' : World h) (c : RetryCall)
      → retry_call h input w ≡ (ok c, w')
      → IsSafe w
      → All IsConsistent c.candidates
  retry_call-IsConsistent input w w' c e s =
      candidates_for-IsConsistent c.game c.player_id w w' c.candidates
        (retry_call-candidates input w w' c e) s

  pub settle_bananabreadwasm_payout-IsSafe :
      (input : Value) (w : World h) → IsSafe w → IsSafe (settle_bananabreadwasm_payout h input w).1
  unfolding settle_bananabreadwasm_payout
  settle_bananabreadwasm_payout-IsSafe input w s = elim (Result-cases (retry_call h input w).0) [
    | inl (x, threw) ↦
        let same : (settle_bananabreadwasm_payout h input w).1 ≡ w =
          ground (arith, retry_call-world input w) in
        rw same s
    | inr (c, read) ↦
        let called : retry_call h input w ≡ (ok c, w) = ground (arith, retry_call-world input w) in
        let same : (settle_bananabreadwasm_payout h input w).1
            ≡ (retry_players h c.kind c.game c.candidates w).1 =
          ground arith in
        rw same (
          retry_players-IsSafe c.kind c.game c.candidates w
            (retry_call-IsConsistent input w w c called s) s)
  ]
