-- ===== src/Rows.antt =====
-- The rows that dev/src/index.js keeps in the host's storage, as storage/schema.json types them.
use bananabreadwasm.Prelude.{ℕ, Bool, true, false, Option}
use bananabreadwasm.Text.{Text}

pub record Settings : Type 0 where
  pub id : Text
  pub wallet_id : Text
  pub wallet_name : Text
  pub enabled : Bool
  pub haircut : ℕ
  pub gateway_url : Text
  pub server_secret : Text
  pub created_at : ℕ
  pub updated_at : ℕ

pub record Game : Type 0 where
  pub id : Text
  pub settings_id : Text
  pub wallet_id : Text
  pub gateway_url : Text
  pub server_secret : Text
  pub name : Text
  pub join_amount : ℕ
  pub haircut : ℕ
  pub players_count : ℕ
  pub max_players : ℕ
  pub status : Text
  pub created_at : ℕ
  pub updated_at : ℕ

-- The strings of the column `status`.
pub data PlayerStatus : Type 0 where
  alive dead refund_processing refund_pending refund_failed left : PlayerStatus

-- The strings of `payout_status` and `refund_status`; `unset` is the empty one.
pub data SettlementStatus : Type 0 where
  unset processing withheld pending paid failed : SettlementStatus

pub record Player : Type 0 where
  pub id : Text
  pub game_id : Text
  pub name : Text
  pub ln_address : Text
  pub payment_hash : Text
  pub player_token : Text
  pub slot : ℕ
  pub status : PlayerStatus
  pub paid_amount : ℕ
  pub killer_id : Text
  pub kill_event_id : Text
  pub payout_amount : ℕ
  pub payout_status : SettlementStatus
  pub payout_attempts : ℕ
  pub disconnect_event_id : Text
  pub refund_amount : ℕ
  pub refund_status : SettlementStatus
  pub refund_attempts : ℕ
  pub created_at : ℕ
  pub paid_at : Option ℕ
  pub connected_at : Option ℕ
  pub disconnected_at : Option ℕ
  pub killed_at : Option ℕ
  pub last_seen_at : Option ℕ

abbrev pub is_alive : PlayerStatus → Bool
is_alive alive = true
is_alive _ = false

abbrev pub is_dead : PlayerStatus → Bool
is_dead dead = true
is_dead _ = false

abbrev pub is_failed : SettlementStatus → Bool
is_failed failed = true
is_failed _ = false

-- `['processing', 'pending', 'failed'].includes(…)`
abbrev pub is_open : SettlementStatus → Bool
is_open processing = true
is_open pending = true
is_open failed = true
is_open _ = false

-- `['processing', 'pending'].includes(…)`
abbrev pub is_waiting : SettlementStatus → Bool
is_waiting processing = true
is_waiting pending = true
is_waiting _ = false
