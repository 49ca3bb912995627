-- ===== src/Handlers/Once/Kill.antt =====
-- The kill settlement of dev/src/index.js, delivered twice.
use bananabreadwasm.Prelude.{
  ℕ, String, suc, ◌+◌, ◌≡◌, refl, ◌∙◌, ◌≢◌, ◌⊎◌, false, some, arith, inl, inr,
}
use bananabreadwasm.Text.{Text, text_eq_iff, text_eq_refl}
use bananabreadwasm.Result.{ok, Result-cases}
use bananabreadwasm.Js.{Value, Fields}
use bananabreadwasm.Normalize.{parse_json_object, required_text, either_field}
use bananabreadwasm.Rows.{Game, Player, is_alive}
use bananabreadwasm.Players.{
  get_game, require_player_id, require_server_secret, with_fresh_player_count,
}
use bananabreadwasm.Settlement.{Payout, held_back, stored_payout, pay_player, apply_payout}
use bananabreadwasm.Host.{Host, World, time_at}
use bananabreadwasm.Host.Bind.{bind-eq-ok}
use bananabreadwasm.Views.{public_player}
use bananabreadwasm.Handlers.Match.{
  KillCall, KillReply, duplicate_kill, settled_kill, lock_kill, claim_stake, settle_live_kill,
  settle_kill, kill_call, settle_bananabreadwasm_kill,
}

-- The result of the wallet in a reply.
abbrev pub payout_in : KillReply → Payout
payout_in (duplicate_kill killer victim stored) = held_back
payout_in (settled_kill killer victim payout) = payout

module _ (h : Host) where
  -- A call that was read in one world reads the same event and the rows of the same ids in another.
  pub kill_call_again :
      (input : Value) (w w1 w' : World h) (c : KillCall) (g : Game) (v : Player)
      → kill_call h input w ≡ (ok c, w1)
      → h.games.get c.game.id w'.games ≡ some g
      → g.id ≡ c.game.id
      → g.server_secret ≡ c.game.server_secret
      → h.players.get c.killer.id w'.players ≡ some c.killer
      → h.players.get c.victim.id w'.players ≡ some v
      → v.game_id ≡ c.game.id
      → kill_call h input w'
        ≡ (ok (record { game = g; event_id = c.event_id; killer = c.killer; victim = v }), w')
  unfolding kill_call get_game require_player_id require_server_secret
  kill_call_again input w w1 w' c g v e eg gid gs ek ev vg =
      grind (arith, h.games.get_key, h.players.get_key, text_eq_iff)

  claim_stake-others :
      (game : Game) (killer victim : Player) (event_id : Text) (w w' : World h) (r : KillReply)
      (i : Text)
      → claim_stake h game killer victim event_id w ≡ (ok r, w')
      → i ≢ victim.id
      → h.players.get i w'.players ≡ h.players.get i w.players
  unfolding claim_stake apply_payout pay_player
  claim_stake-others game killer victim event_id w w' r i e ne =
      grind (arith, h.players.get_set, text_eq_iff)

  -- The row that a settled kill leaves of its victim.
  abbrev pub killed_row : Game → Player → Player → Text → ℕ → KillReply → Player
  killed_row game killer victim event_id ticks r =
      apply_payout
        (lock_kill h game killer victim event_id (time_at h ticks) (time_at h (suc ticks)))
        (payout_in r)

  claim_stake-row :
      (game : Game) (killer victim : Player) (event_id : Text) (w w' : World h) (r : KillReply)
      → claim_stake h game killer victim event_id w ≡ (ok r, w')
      → h.players.get victim.id w'.players ≡ some (killed_row game killer victim event_id w.ticks r)
  unfolding claim_stake apply_payout pay_player
  claim_stake-row game killer victim event_id w w' r e =
      grind (arith, h.players.get_set, text_eq_refl)

  claim_stake-arena :
      (game : Game) (killer victim : Player) (event_id : Text) (w w' : World h) (r : KillReply)
      → claim_stake h game killer victim event_id w ≡ (ok r, w')
      → h.games.get game.id w'.games
        ≡ some (with_fresh_player_count h (record game { updated_at = time_at h (w.ticks + 2) }) w')
  unfolding claim_stake apply_payout pay_player
  claim_stake-arena game killer victim event_id w w' r e =
      grind (arith, h.games.get_set, text_eq_refl)

  pub kill_call-rows :
      (input : Value) (w w1 : World h) (c : KillCall)
      → kill_call h input w ≡ (ok c, w1)
      → (w1 ≡ w)
        × (h.games.get c.game.id w.games ≡ some c.game)
        × (h.players.get c.killer.id w.players ≡ some c.killer)
        × (h.players.get c.victim.id w.players ≡ some c.victim)
        × (c.victim.game_id ≡ c.game.id)
  unfolding kill_call get_game require_player_id require_server_secret
  kill_call-rows input w w1 c e = grind (arith, h.games.get_key, h.players.get_key, text_eq_iff)

  -- The two ways in which a kill call returns.
  settle_kill-cases :
      (game : Game) (event_id : Text) (killer victim : Player) (w w' : World h) (r : KillReply)
      → settle_kill h game event_id killer victim w ≡ (ok r, w')
      → (killer.id ≢ victim.id)
        × (((w' ≡ w) × (is_alive victim.status ≡ false) × (victim.kill_event_id ≡ event_id))
            ⊎ (claim_stake h game killer victim event_id w ≡ (ok r, w')))
  unfolding settle_kill settle_live_kill
  settle_kill-cases game event_id killer victim w w' r e = grind (arith, text_eq_iff)

  settle_kill_dead :
      (game : Game) (event_id : Text) (killer victim : Player) (w : World h)
      → killer.id ≢ victim.id
      → is_alive victim.status ≡ false
      → victim.kill_event_id ≡ event_id
      → settle_kill h game event_id killer victim w ≡ (
        ok (
            duplicate_kill
              (public_player h.engine killer false)
              (public_player h.engine victim false)
              (stored_payout victim)),
        w,
      )
  unfolding settle_kill
  settle_kill_dead game event_id killer victim w ne d e = grind (arith, text_eq_iff)

  settle_bananabreadwasm_kill-eq-ok :
      (input : Value) (w w' : World h) (r : KillReply)
      → settle_bananabreadwasm_kill h input w ≡ (ok r, w')
      → (c : KillCall) × (kill_call h input w ≡ (ok c, w))
        × (settle_kill h c.game c.event_id c.killer c.victim w ≡ (ok r, w'))
  unfolding settle_bananabreadwasm_kill
  settle_bananabreadwasm_kill-eq-ok input w w' r e =
      let (c, w1, called, settled) =
        bind-eq-ok (kill_call h input) (λ c. settle_kill h c.game c.event_id c.killer c.victim) w w'
          e in
      let same = (kill_call-rows input w w1 c called).0 in
      (c, rw same at called, rw same at settled)

  -- A call that reads a dead victim of its own event is a duplicate.
  settle_bananabreadwasm_kill_dead :
      (input : Value) (w : World h) (c : KillCall)
      → kill_call h input w ≡ (ok c, w)
      → c.killer.id ≢ c.victim.id
      → is_alive c.victim.status ≡ false
      → c.victim.kill_event_id ≡ c.event_id
      → settle_bananabreadwasm_kill h input w ≡ (
        ok (
            duplicate_kill
              (public_player h.engine c.killer false)
              (public_player h.engine c.victim false)
              (stored_payout c.victim)),
        w,
      )
  unfolding settle_bananabreadwasm_kill
  settle_bananabreadwasm_kill_dead input w c called ne d e =
      ground (arith, settle_kill_dead c.game c.event_id c.killer c.victim w ne d e)

  -- The request names the killer and the victim.
  abbrev pub Names : Value → Text → Text → Type 0
  Names input killer_id victim_id =
      (request : Fields) × (parse_json_object h.engine input ≡ ok request)
      × (required_text h.engine (either_field "killerPlayerId" "killer_player_id" request)
            "killerPlayerId" 256
          ≡ ok killer_id)
      × (required_text h.engine (either_field "victimPlayerId" "victim_player_id" request)
            "victimPlayerId" 256
          ≡ ok victim_id)

  require_player_id-name :
      (game_id : Text) (v : Value) (name : String) (w w' : World h) (p : Player)
      → require_player_id h game_id v name w ≡ (ok p, w')
      → required_text h.engine v name 256 ≡ ok p.id
  unfolding require_player_id
  require_player_id-name game_id v name w w' p e =
      elim (Result-cases (required_text h.engine v name 256)) [
        | inl (x, bad) ↦ absurd (ground (arith, bad, e))
        | inr (id, good) ↦ grind (arith, h.players.get_key)
      ]

  kill_call-Names :
      (input : Value) (w w1 : World h) (c : KillCall)
      → kill_call h input w ≡ (ok c, w1)
      → Names input c.killer.id c.victim.id
  unfolding kill_call get_game require_server_secret
  kill_call-Names input w w1 c e = elim (Result-cases (parse_json_object h.engine input)) [
    | inl (x, bad) ↦ absurd (ground (arith, bad, e))
    | inr (request, parsed) ↦ (
      request,
      parsed,
      grind (arith, require_player_id-name),
      grind (arith, require_player_id-name),
    )
  ]

  -- A kill call that returned is a duplicate when it is delivered again: it changes nothing and asks
  -- the wallet for nothing, and it reports the stored rows of the killer and of the victim that the
  -- request names, and the payout of the victim's row.
  pub settle_bananabreadwasm_kill_again :
      (input : Value) (w w' : World h) (r : KillReply)
      → settle_bananabreadwasm_kill h input w ≡ (ok r, w')
      → (killer victim : Player) × Names input killer.id victim.id
        × (h.players.get killer.id w'.players ≡ some killer)
        × (h.players.get victim.id w'.players ≡ some victim)
        × (settle_bananabreadwasm_kill h input w' ≡ (
          ok (
              duplicate_kill
                (public_player h.engine killer false)
                (public_player h.engine victim false)
                (stored_payout victim)),
          w',
        ))
  unfolding lock_kill apply_payout with_fresh_player_count
  settle_bananabreadwasm_kill_again input w w' r e =
      let (c, called, settled) = settle_bananabreadwasm_kill-eq-ok input w w' r e in
      let (ne, how) = settle_kill-cases c.game c.event_id c.killer c.victim w w' r settled in
      let (_, _, killer_row, victim_row, home) = kill_call-rows input w w c called in
      let named = kill_call-Names input w w c called in
      elim how [
        | inl (same, d, by) ↦ (
          c.killer,
          c.victim,
          named,
          rw same killer_row,
          rw same victim_row,
          rw same (settle_bananabreadwasm_kill_dead input w c called ne d by),
        )
        | inr claimed ↦
            let row = killed_row c.game c.killer c.victim c.event_id w.ticks r in
            let found = claim_stake-row c.game c.killer c.victim c.event_id w w' r claimed in
            let others =
              claim_stake-others c.game c.killer c.victim c.event_id w w' r c.killer.id claimed
                ne in
            let arena = claim_stake-arena c.game c.killer c.victim c.event_id w w' r claimed in
            let called' =
              kill_call_again input w w w' c _ row called arena refl refl (others ∙ killer_row)
                found home in
            (
              c.killer,
              row,
              named,
              others ∙ killer_row,
              found,
              settle_bananabreadwasm_kill_dead input w' _ called' ne refl refl,
            )
      ]
