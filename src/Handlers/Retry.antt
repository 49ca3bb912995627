-- ===== src/Handlers/Retry.antt =====
-- `settleBananabreadwasmPayout` in dev/src/index.js: failed rewards and refunds are tried again.
use bananabreadwasm.Prelude.{
  ℕ, Bool, true, false, ◌&&◌, Option, none, some, List, [], ◌∷◌, ◌++◌, if◌then◌else◌,
}
use bananabreadwasm.Text.{Text, codes, text_eq, is_empty}
use bananabreadwasm.Result.{Result, ok, err, bad_kind}
use bananabreadwasm.Js.{Value, str, get_field, or_value}
use bananabreadwasm.Normalize.{clean_text, required_text, either_field, parse_json_object}
use bananabreadwasm.Rows.{Game, Player, refund_processing, processing, is_failed}
use bananabreadwasm.Players.{get_game, players_for_game, require_player_id}
use bananabreadwasm.Settlement.{
  Payout, pay_kill_reward, refund_player, apply_payout, apply_refund, settlement_counts,
}
use bananabreadwasm.Host.{Host, Exec, pure, lift, gets, save_player, ◌>>=◌, ◌>>◌}

-- The argument `kind`.
pub data Kind : Type 0 where
  every payout_only refund_only : Kind

abbrev pub retries_payouts : Kind → Bool
retries_payouts refund_only = false
retries_payouts _ = true

abbrev pub retries_refunds : Kind → Bool
retries_refunds payout_only = false
retries_refunds _ = true

unfoldable pub kind_of : Text → Result Kind
kind_of t =
    if text_eq t (codes "all")
    then ok every
    else if text_eq t (codes "payout")
    then ok payout_only
    else if text_eq t (codes "refund")
    then ok refund_only
    else err bad_kind

pub data Settlement : Type 0 where
  payout_settled refund_settled : Text → Payout → Settlement

pub record Retried : Type 0 where
  pub settled : Bool
  pub settlements : List Settlement
  pub unresolved_count : ℕ

pub record RetryCall : Type 0 where
  pub game : Game
  pub player_id : Text
  pub kind : Kind
  pub candidates : List Player

abbrev is_nonempty : List Settlement → Bool
is_nonempty [] = false
is_nonempty (s ∷ ss) = true

abbrev pub stored_or : Player → Option Player → Player
stored_or p none = p
stored_or p (some q) = q

module _ (h : Host) where
  unfoldable pub retry_payout : Game → Player → Exec h (List Settlement)
  unfolding require_player_id
  retry_payout game player = do
    killer ← require_player_id h game.id (str player.killer_id) "killerPlayerId"
    let locked : Player = record player { payout_status = processing }
    save_player h locked
    payout ← pay_kill_reward h game killer locked
    save_player h (apply_payout locked payout)
    pure (payout_settled player.id payout ∷ [])

  unfoldable pub retry_refund : Game → Player → Player → Exec h (List Settlement)
  retry_refund game player current = do
    let locked : Player = record current { status = refund_processing; refund_status = processing }
    save_player h locked
    refund ← refund_player h game locked (codes "Retrying failed disconnect refund.")
    save_player h (apply_refund locked refund)
    pure (refund_settled player.id refund ∷ [])

  unfoldable pub retry_due_payout : Kind → Game → Player → Exec h (List Settlement)
  retry_due_payout kind game player =
      if retries_payouts kind && is_failed player.payout_status
      then retry_payout game player
      else pure []

  unfoldable pub retry_due_refund : Kind → Game → Player → Player → Exec h (List Settlement)
  retry_due_refund kind game player current =
      if retries_refunds kind && is_failed current.refund_status
      then retry_refund game player current
      else pure []

  -- One round of the loop; its second half reads the row anew.
  unfoldable pub retry_player : Kind → Game → Player → Exec h (List Settlement)
  retry_player kind game player = do
    payouts ← retry_due_payout kind game player
    current ← gets (λ w. stored_or player (h.players.get player.id w.players))
    refunds ← retry_due_refund kind game player current
    pure (payouts ++ refunds)

  unfoldable pub retry_players : Kind → Game → List Player → Exec h (List Settlement)
  retry_players kind game [] = pure []
  retry_players kind game (p ∷ ps) = do
    done ← retry_player kind game p
    rest ← retry_players kind game ps
    pure (done ++ rest)

  -- The named player, or the arena's first hundred.
  unfoldable pub candidates_for : Game → Text → Exec h (List Player)
  unfolding require_player_id players_for_game
  candidates_for game player_id =
      if is_empty player_id
      then gets (players_for_game h game.id 100)
      else (require_player_id h game.id (str player_id) "playerId" >>= λ p. pure (p ∷ []))

  -- What the call reads before it decides.
  unfoldable pub retry_call : Value → Exec h RetryCall
  unfolding get_game
  retry_call input = do
    request ← lift (parse_json_object h.engine input)
    game_id ← lift (required_text h.engine (get_field "gameId" request) "gameId" 128)
    game ← get_game h game_id
    let player_id = clean_text h.engine (either_field "playerId" "player_id" request) 256
    kind ← lift (
        kind_of (
          h.engine.to_lower
            (clean_text h.engine (or_value (get_field "kind" request) (str (codes "all"))) 16)))
    candidates ← candidates_for game player_id
    pure (record { game = game; player_id = player_id; kind = kind; candidates = candidates })

  unfoldable pub settle_bananabreadwasm_payout : Value → Exec h Retried
  settle_bananabreadwasm_payout input = do
    call ← retry_call input
    settlements ← retry_players call.kind call.game call.candidates
    gets λ w. record {
      settled = is_nonempty settlements;
      settlements = settlements;
      unresolved_count = (settlement_counts h call.game.id w).unresolved;
    }
