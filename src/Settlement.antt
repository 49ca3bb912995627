-- ===== src/Settlement.antt =====
-- Rewards and refunds in dev/src/index.js: what is asked of the wallet, and what its answer does to
-- a player's row.
pub mod Amounts
use bananabreadwasm.Prelude.{
  ℕ, ◌+◌, ◌-◌, ◌*◌, ◌/◌, ◌≡◌, Bool, true, false, ◌||◌, Option, none, some, List, [], ◌∷◌, ◌++◌,
  String, any, length, select, ◌==◌, if◌then◌else◌,
}
use bananabreadwasm.Text.{Text, codes, is_empty}
use bananabreadwasm.Result.{Result, ok, err}
use bananabreadwasm.Rows.{
  Game, Player, PlayerStatus, dead, refund_processing, refund_pending, refund_failed, left,
  SettlementStatus, unset, processing, withheld, pending, paid, failed, is_failed, is_open,
  is_waiting,
}
use bananabreadwasm.Host.{
  Host, World, Exec, ℤ, pos, negsuc, PayRequest, PayResponse, pure, pay_lnurl, ◌>>=◌,
}
use bananabreadwasm.Players.{or_number, players_for_game}

-- Why `payPlayer` refused to ask the wallet.
pub data Refusal : Type 0 where
  no_amount no_wallet no_address : Refusal

-- A wallet's answer as `payPlayer` passes it on; its fields come under two names each.
pub record Answer : Type 0 where
  pub ok : Bool
  pub error : Text
  pub amount : ℕ
  pub checking_id : Text
  pub payment_hash : Text
  pub status : Text
  pub pending : Bool
  pub success : Bool
  pub amount_msat : ℤ
  pub fee_msat : ℤ

-- The results of `payPlayer` and of `withheldPayout`.
pub data Payout : Type 0 where
  refused : Refusal → ℕ → Payout
  answered : Answer → Payout
  held_back : Payout

abbrev or_empty : Option Text → Text
or_empty none = []
or_empty (some t) = t

abbrev or_msat : ℤ → ℕ → ℤ
or_msat (pos n) m = pos (or_number n m)
or_msat (negsuc n) m = negsuc n

-- The wallet's answer to a request for `amount`.
abbrev pub answer_of : ℕ → PayResponse → Payout
answer_of amount r = answered (record {
  ok = r.ok;
  error = or_empty r.error;
  amount = amount;
  checking_id = or_empty r.checking_id;
  payment_hash = or_empty r.payment_hash;
  status = or_empty r.status;
  pending = r.pending;
  success = r.success;
  amount_msat = or_msat r.amount_msat (amount * 1000);
  fee_msat = r.fee_msat;
})

module _ (h : Host) where
  unfoldable pub pay_player : PayRequest → Exec h Payout
  unfolding pay_lnurl
  pay_player r =
      if r.amount == 0
      then pure (refused no_amount r.amount)
      else if is_empty r.wallet_id
      then pure (refused no_wallet r.amount)
      else if is_empty r.lnurl
      then pure (refused no_address r.amount)
      else (pay_lnurl h r >>= λ response. pure (answer_of r.amount response))

-- The request of `payKillReward`.
unfoldable pub reward_request : Game → Player → Player → PayRequest
reward_request game killer victim = record {
  wallet_id = game.wallet_id;
  lnurl = killer.ln_address;
  amount = victim.payout_amount;
  comment = codes "BananaBread kill reward";
  max_sat = victim.payout_amount;
  description = codes "BananaBread kill reward in " ++ game.name;
  extra =
      ("bananabreadwasm_game_id", game.id)
      ∷ ("bananabreadwasm_event_id", victim.kill_event_id)
      ∷ ("bananabreadwasm_killer_id", killer.id)
      ∷ ("bananabreadwasm_victim_id", victim.id)
      ∷ [];
}

-- The request of `refundPlayer`.
unfoldable pub refund_request : Game → Player → Text → PayRequest
refund_request game player reason = record {
  wallet_id = game.wallet_id;
  lnurl = player.ln_address;
  amount = or_number player.refund_amount player.paid_amount;
  comment = codes "BananaBread refund";
  max_sat = or_number player.refund_amount player.paid_amount;
  description = codes "BananaBread refund for " ++ game.name;
  extra =
      ("bananabreadwasm_game_id", game.id)
      ∷ ("bananabreadwasm_event_id", player.disconnect_event_id)
      ∷ ("bananabreadwasm_refund_reason", reason)
      ∷ [];
}

module _ (h : Host) where
  abbrev pub pay_kill_reward : Game → Player → Player → Exec h Payout
  pay_kill_reward game killer victim = pay_player h (reward_request game killer victim)

  abbrev pub refund_player : Game → Player → Text → Exec h Payout
  refund_player game player reason = pay_player h (refund_request game player reason)

unfoldable pub settlement_status : Payout → SettlementStatus
settlement_status (refused why amount) = failed
settlement_status (answered a) =
    if a.pending then pending else if a.success || a.ok then paid else failed
settlement_status held_back = paid

-- `payout.withheld ? 'withheld' : settlementStatus(payout)`
unfoldable pub payout_outcome : Payout → SettlementStatus
unfolding settlement_status
payout_outcome (refused why amount) = settlement_status (refused why amount)
payout_outcome (answered a) = settlement_status (answered a)
payout_outcome held_back = withheld

unfoldable pub apply_payout : Player → Payout → Player
unfolding payout_outcome
apply_payout player payout = record player {
  payout_status = payout_outcome payout;
  payout_attempts = player.payout_attempts + 1;
}

abbrev pub status_after_refund : SettlementStatus → PlayerStatus
status_after_refund paid = left
status_after_refund pending = refund_pending
status_after_refund _ = refund_failed

unfoldable pub apply_refund : Player → Payout → Player
unfolding settlement_status
apply_refund player refund = record player {
  status = status_after_refund (settlement_status refund);
  refund_status = settlement_status refund;
  refund_attempts = player.refund_attempts + 1;
}

-- `Math.floor((paidAmount * (100 - haircut)) / 100)`, at least 0: a haircut above 100 leaves 0.
unfoldable pub reward_after_haircut : ℕ → ℕ → ℕ
reward_after_haircut stake haircut = stake * (100 - haircut) / 100

-- The results of `storedPayout` and `storedRefund`.
pub record Stored : Type 0 where
  pub amount : ℕ
  pub status : SettlementStatus
  pub attempts : ℕ

unfoldable pub stored_payout : Player → Stored
stored_payout p = record {
  amount = p.payout_amount;
  status = p.payout_status;
  attempts = p.payout_attempts;
}

unfoldable pub stored_refund : Player → Stored
stored_refund p = record {
  amount = p.refund_amount;
  status = p.refund_status;
  attempts = p.refund_attempts;
}

unfoldable pub has_unresolved_settlement : Player → Bool
has_unresolved_settlement p = is_open p.payout_status || is_open p.refund_status

pub record Counts : Type 0 where
  pub failed : ℕ
  pub pending : ℕ
  pub unresolved : ℕ

unfoldable pub counts_of : List Player → Counts
unfolding has_unresolved_settlement
counts_of players = record {
  failed = length (select (λ p. is_failed p.payout_status || is_failed p.refund_status) players);
  pending = length (select (λ p. is_waiting p.payout_status || is_waiting p.refund_status) players);
  unresolved = length (select has_unresolved_settlement players);
}

module _ (h : Host) where
  unfoldable pub settlement_counts : Text → World h → Counts
  unfolding counts_of players_for_game
  settlement_counts game_id w = counts_of (players_for_game h game_id 100 w)
