-- ===== src/Handlers/Once/Disconnect.antt =====
-- The disconnect refund of dev/src/index.js, delivered twice.
use bananabreadwasm.Prelude.{ℕ, suc, ◌+◌, ◌≡◌, refl, ◌⊎◌, false, some, arith, inl, inr}
use bananabreadwasm.Text.{Text, text_eq_iff, text_eq_refl}
use bananabreadwasm.Result.{ok}
use bananabreadwasm.Js.{Value}
use bananabreadwasm.Rows.{Game, Player, is_alive}
use bananabreadwasm.Players.{
  get_game, require_player_id, require_server_secret, with_fresh_player_count,
}
use bananabreadwasm.Settlement.{Payout, held_back, stored_refund, pay_player, apply_refund}
use bananabreadwasm.Views.{public_player}
use bananabreadwasm.Host.{Host, World, time_at}
use bananabreadwasm.Host.Bind.{bind-eq-ok}
use bananabreadwasm.Handlers.Match.{
  DisconnectCall, DisconnectReply, duplicate_disconnect, settled_disconnect, lock_disconnect,
  return_stake, expire_disconnect, disconnect_call, expire_bananabreadwasm_disconnect,
}

-- The result of the wallet in a reply.
abbrev pub refund_in : DisconnectReply → Payout
refund_in (duplicate_disconnect player stored) = held_back
refund_in (settled_disconnect player refund) = refund

module _ (h : Host) where
  disconnect_call_again :
      (input : Value) (w w1 w' : World h) (c : DisconnectCall) (g : Game) (p : Player)
      → disconnect_call h input w ≡ (ok c, w1)
      → h.games.get c.game.id w'.games ≡ some g
      → g.id ≡ c.game.id
      → g.server_secret ≡ c.game.server_secret
      → h.players.get c.player.id w'.players ≡ some p
      → p.game_id ≡ c.game.id
      → disconnect_call h input w'
        ≡ (ok (record { game = g; event_id = c.event_id; player = p }), w')
  unfolding disconnect_call get_game require_player_id require_server_secret
  disconnect_call_again input w w1 w' c g p e eg gid gs ep home =
      grind (arith, h.games.get_key, h.players.get_key, text_eq_iff)

  pub disconnect_call-rows :
      (input : Value) (w w1 : World h) (c : DisconnectCall)
      → disconnect_call h input w ≡ (ok c, w1)
      → (w1 ≡ w)
        × (h.games.get c.game.id w.games ≡ some c.game)
        × (h.players.get c.player.id w.players ≡ some c.player)
        × (c.player.game_id ≡ c.game.id)
  unfolding disconnect_call get_game require_player_id require_server_secret
  disconnect_call-rows input w w1 c e =
      grind (arith, h.games.get_key, h.players.get_key, text_eq_iff)

  -- The row that a settled disconnect leaves of the player.
  abbrev pub expired_row : Game → Player → Text → ℕ → DisconnectReply → Player
  expired_row game player event_id ticks r =
      apply_refund
        (lock_disconnect h game player event_id (time_at h ticks) (time_at h (suc ticks)))
        (refund_in r)

  return_stake-row :
      (game : Game) (player : Player) (event_id : Text) (w w' : World h) (r : DisconnectReply)
      → return_stake h game player event_id w ≡ (ok r, w')
      → h.players.get player.id w'.players ≡ some (expired_row game player event_id w.ticks r)
  unfolding return_stake apply_refund pay_player
  return_stake-row game player event_id w w' r e = grind (arith, h.players.get_set, text_eq_refl)

  return_stake-arena :
      (game : Game) (player : Player) (event_id : Text) (w w' : World h) (r : DisconnectReply)
      → return_stake h game player event_id w ≡ (ok r, w')
      → h.games.get game.id w'.games
        ≡ some (with_fresh_player_count h (record game { updated_at = time_at h (w.ticks + 2) }) w')
  unfolding return_stake apply_refund pay_player
  return_stake-arena game player event_id w w' r e = grind (arith, h.games.get_set, text_eq_refl)

  -- A refund never leaves a player alive.
  pub apply_refund-status :
      (p : Player) (payout : Payout) → is_alive (apply_refund p payout).status ≡ false
  unfolding apply_refund
  apply_refund-status p payout = ground arith

  expire_disconnect-cases :
      (game : Game) (event_id : Text) (player : Player) (w w' : World h) (r : DisconnectReply)
      → expire_disconnect h game event_id player w ≡ (ok r, w')
      → ((w' ≡ w) × (is_alive player.status ≡ false) × (player.disconnect_event_id ≡ event_id))
        ⊎ (return_stake h game player event_id w ≡ (ok r, w'))
  unfolding expire_disconnect
  expire_disconnect-cases game event_id player w w' r e = grind (arith, text_eq_iff)

  expire_bananabreadwasm_disconnect_gone :
      (input : Value) (w : World h) (c : DisconnectCall)
      → disconnect_call h input w ≡ (ok c, w)
      → is_alive c.player.status ≡ false
      → c.player.disconnect_event_id ≡ c.event_id
      → expire_bananabreadwasm_disconnect h input w ≡ (
        ok (duplicate_disconnect (public_player h.engine c.player false) (stored_refund c.player)),
        w,
      )
  unfolding expire_bananabreadwasm_disconnect expire_disconnect
  expire_bananabreadwasm_disconnect_gone input w c called d e =
      ground (arith, text_eq_iff c.player.disconnect_event_id c.event_id)

  -- A disconnect call that returned is a duplicate when it is delivered again: it changes nothing and
  -- asks the wallet for nothing, and it reports the refund of the player's row.
  pub expire_bananabreadwasm_disconnect_again :
      (input : Value) (w w' : World h) (r : DisconnectReply)
      → expire_bananabreadwasm_disconnect h input w ≡ (ok r, w')
      → (player : Player) × (h.players.get player.id w'.players ≡ some player)
        × (expire_bananabreadwasm_disconnect h input w' ≡ (
          ok (duplicate_disconnect (public_player h.engine player false) (stored_refund player)),
          w',
        ))
  unfolding expire_bananabreadwasm_disconnect lock_disconnect apply_refund with_fresh_player_count
  expire_bananabreadwasm_disconnect_again input w w' r e =
      let (c, w1, called1, settled1) =
        bind-eq-ok (disconnect_call h input) (λ c. expire_disconnect h c.game c.event_id c.player) w
          w' e in
      let (same1, _, player_row, home) = disconnect_call-rows input w w1 c called1 in
      let called = rw same1 at called1 in
      let settled = rw same1 at settled1 in
      elim (expire_disconnect-cases c.game c.event_id c.player w w' r settled) [
        | inl (same, d, by) ↦ (
          c.player,
          rw same player_row,
          rw same (expire_bananabreadwasm_disconnect_gone input w c called d by),
        )
        | inr returned ↦
            let row = expired_row c.game c.player c.event_id w.ticks r in
            let found = return_stake-row c.game c.player c.event_id w w' r returned in
            let arena = return_stake-arena c.game c.player c.event_id w w' r returned in
            let called' =
              disconnect_call_again input w w w' c _ row called arena refl refl found home in
            (
              row,
              found,
              expire_bananabreadwasm_disconnect_gone input w' _ called'
                  (apply_refund-status
                    (lock_disconnect h c.game c.player c.event_id (time_at h w.ticks)
                      (time_at h (suc w.ticks)))
                    (refund_in r))
                  refl,
            )
      ]
