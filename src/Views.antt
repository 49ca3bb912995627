-- ===== src/Views.antt =====
-- What dev/src/index.js shows of its rows: `publicGame`, `ownerGame` and `publicPlayer`. The fields keep the names of the rows; JSON spells them in camel case.
use bananabreadwasm.Prelude.{ℕ, Bool, true, Option, none, some, [], if◌then◌else◌}
use bananabreadwasm.Text.{Text, codes, or_text}
use bananabreadwasm.Result.{Result, ok, ◌>>=◌}
use bananabreadwasm.Js.{Engine, str}
use bananabreadwasm.Normalize.{mask_ln_address}
use bananabreadwasm.Gateway.{build_enter_url}
use bananabreadwasm.Rows.{Game, Player, PlayerStatus, is_alive, SettlementStatus}
use bananabreadwasm.Players.{or_number, max_players}
use bananabreadwasm.Host.{Host, World}
use bananabreadwasm.Settlement.{Counts, settlement_counts}

pub record PublicGame : Type 0 where
  pub id : Text
  pub name : Text
  pub join_amount : ℕ
  pub haircut : ℕ
  pub players_count : ℕ
  pub max_players : ℕ
  pub gateway_url : Text
  pub status : Text
  pub created_at : ℕ
  pub updated_at : ℕ

unfoldable pub public_game : Game → PublicGame
public_game g = record {
  id = g.id;
  name = g.name;
  join_amount = g.join_amount;
  haircut = g.haircut;
  players_count = g.players_count;
  max_players = or_number g.max_players max_players;
  gateway_url = g.gateway_url;
  status = or_text g.status (codes "active");
  created_at = g.created_at;
  updated_at = g.updated_at;
}

pub record OwnerGame : Type 0 where
  pub game : PublicGame
  pub settlements : Counts

unfoldable pub owner_game : (h : Host) → Game → World h → OwnerGame
unfolding public_game settlement_counts
owner_game h g w = record { game = public_game g; settlements = settlement_counts h g.id w }

pub record PublicPlayer : Type 0 where
  pub id : Text
  pub name : Text
  pub ln_address : Text
  pub slot : ℕ
  pub status : PlayerStatus
  pub paid_amount : ℕ
  pub payout_amount : ℕ
  pub payout_status : SettlementStatus
  pub refund_amount : ℕ
  pub refund_status : SettlementStatus
  pub paid_at : ℕ
  pub connected_at : ℕ
  pub disconnected_at : ℕ
  pub killed_at : ℕ
  -- Absent for all but a live player's own view.
  pub enter_url : Option Text

-- `Number(at || 0)` of a nullable column.
abbrev or_zero : Option ℕ → ℕ
or_zero none = 0
or_zero (some n) = n

module _ (engine : Engine) where
  abbrev shown_player : Player → Bool → Option Text → PublicPlayer
  shown_player p include_private enter_url = record {
    id = if include_private then p.id else [];
    name = or_text p.name (codes "PLAYER");
    ln_address = mask_ln_address engine (str p.ln_address);
    slot = p.slot;
    status = p.status;
    paid_amount = p.paid_amount;
    payout_amount = p.payout_amount;
    payout_status = p.payout_status;
    refund_amount = p.refund_amount;
    refund_status = p.refund_status;
    paid_at = or_zero p.paid_at;
    connected_at = or_zero p.connected_at;
    disconnected_at = or_zero p.disconnected_at;
    killed_at = or_zero p.killed_at;
    enter_url = enter_url;
  }

  -- `publicPlayer(player, includePrivate)`, with no game.
  unfoldable pub public_player : Player → Bool → PublicPlayer
  public_player p include_private = shown_player p include_private none

  -- `publicPlayer(player, true, game)`
  unfoldable pub private_player : Player → Game → Result PublicPlayer
  private_player p g =
      if is_alive p.status
      then (build_enter_url g.gateway_url g.id p.player_token >>= λ url.
          ok (shown_player p true (some url)))
      else ok (shown_player p true none)
