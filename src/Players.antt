-- ===== src/Players.antt =====
-- The lookups of dev/src/index.js over games and players, and the rows that it makes.
pub mod Lookup
pub mod Capacity
use bananabreadwasm.Prelude.{
  ℕ, suc, ◌≡◌, Bool, true, false, not, ◌&&◌, Option, none, some, List, [], ◌∷◌, map, String, any,
  length, ◌==◌, if◌then◌else◌,
}
use bananabreadwasm.Text.{Text, codes, text_eq, is_empty}
use bananabreadwasm.Result.{
  Result, ok, err, arena_not_found, no_live_player, not_a_player, invalid_secret, wallet_unset,
  gateway_unset, secret_unset,
}
use bananabreadwasm.Js.{Value, Fields}
use bananabreadwasm.Normalize.{required_text, either_field}
use bananabreadwasm.Rows.{
  Settings, Game, Player, PlayerStatus, alive, refund_processing, is_alive, SettlementStatus, unset,
}
use bananabreadwasm.Table.{Query}
use bananabreadwasm.Host.{Host, World, Exec, pure, lift, gets, now, save_game, ◌>>=◌, ◌>>◌}

abbrev pub max_players : ℕ
max_players = 5

-- `a || b` on numbers.
abbrev pub or_number : ℕ → ℕ → ℕ
or_number a b = if a == 0 then b else a

-- The filters of the queries, as tests on a row.
abbrev pub in_game : Text → Player → Bool
in_game game_id p = text_eq p.game_id game_id

abbrev pub alive_in : Text → Player → Bool
alive_in game_id p = text_eq p.game_id game_id && is_alive p.status

abbrev pub has_token : Text → Text → Player → Bool
has_token game_id token p = text_eq p.game_id game_id && text_eq p.player_token token

abbrev pub by_paid_at : (Player → Bool) → ℕ → Query Player
by_paid_at filter limit = record {
  filter = filter;
  search = [];
  search_fields = [];
  sort_by = codes "paid_at";
  descending = false;
  limit = limit;
  offset = 0;
}

abbrev pub token_query : Text → Text → Query Player
token_query game_id token = record (by_paid_at (has_token game_id token) 1) { sort_by = [] }

abbrev pub first : List Player → Option Player
first [] = none
first (p ∷ ps) = some p

-- `!player || player.status !== 'alive'`
abbrev live_or_throw : Option Player → Result Player
live_or_throw none = err no_live_player
live_or_throw (some p) = if is_alive p.status then ok p else err no_live_player

-- `!player || player.game_id !== gameId`
abbrev in_game_or_throw : Text → String → Option Player → Result Player
in_game_or_throw game_id name none = err (not_a_player name)
in_game_or_throw game_id name (some p) =
    if text_eq p.game_id game_id then ok p else err (not_a_player name)

abbrev found_or_throw : Option Game → Result Game
found_or_throw none = err arena_not_found
found_or_throw (some g) = ok g

-- The first free slot of `slot`, `slot + 1`, …, with `rounds` slots left to try; 0 if none is free.
unfoldable pub free_slot : List ℕ → ℕ → ℕ → ℕ
free_slot used slot ℕ.zero = 0
free_slot used slot (suc rounds) =
    let next = free_slot used (suc slot) rounds in if any (λ u. u == slot) used then next else slot

module _ (h : Host) where
  unfoldable pub get_game : Text → Exec h Game
  get_game game_id w = (found_or_throw (h.games.get game_id w.games), w)

  unfoldable pub players_for_game : Text → ℕ → World h → List Player
  players_for_game game_id limit w = h.players.page (by_paid_at (in_game game_id) limit) w.players

  unfoldable pub alive_players_for_game : Text → World h → List Player
  alive_players_for_game game_id w =
      h.players.page (by_paid_at (alive_in game_id) max_players) w.players

  unfoldable pub player_for_token : Text → Text → World h → Option Player
  player_for_token game_id token w = first (h.players.page (token_query game_id token) w.players)

  unfoldable pub require_alive_player : Text → Text → Exec h Player
  unfolding player_for_token
  require_alive_player game_id token w = (live_or_throw (player_for_token game_id token w), w)

  unfoldable pub require_player_id : Text → Value → String → Exec h Player
  require_player_id game_id value name = do
    id ← lift (required_text h.engine value name 256)
    found ← gets (λ w. h.players.get id w.players)
    lift (in_game_or_throw game_id name found)

  unfoldable pub require_server_secret : Game → Fields → Exec h (Unit {0})
  require_server_secret game request = do
    secret ← lift (
        required_text h.engine (either_field "serverSecret" "server_secret" request) "serverSecret"
          256)
    lift (if text_eq secret game.server_secret then ok tt else err invalid_secret)

  unfoldable pub next_slot : Text → World h → ℕ
  unfolding free_slot alive_players_for_game
  next_slot game_id w =
      free_slot (map (λ p. p.slot) (alive_players_for_game game_id w)) 1 max_players

  unfoldable pub with_fresh_player_count : Game → World h → Game
  unfolding alive_players_for_game
  with_fresh_player_count game w = record game {
    players_count = length (alive_players_for_game game.id w);
    max_players = max_players;
  }

  unfoldable pub update_game_count : Game → Exec h Game
  unfolding with_fresh_player_count now
  update_game_count game = do
    at ← now h
    updated ← gets (with_fresh_player_count (record game { updated_at = at }))
    save_game h updated
    pure updated

-- The argument of `makePlayer`.
pub record Admission : Type 0 where
  pub payment_hash : Text
  pub game : Game
  pub ln_address : Text
  pub player_name : Text
  pub player_token : Text
  pub slot : ℕ
  pub status : PlayerStatus
  pub paid_amount : ℕ

abbrev is_refund_processing : PlayerStatus → Bool
is_refund_processing refund_processing = true
is_refund_processing _ = false

-- `makePlayer`, at a reading of the clock.
unfoldable pub make_player : Admission → ℕ → Player
make_player a at = record {
  id = a.payment_hash;
  game_id = a.game.id;
  name = a.player_name;
  ln_address = a.ln_address;
  payment_hash = a.payment_hash;
  player_token = a.player_token;
  slot = a.slot;
  status = a.status;
  paid_amount = a.paid_amount;
  killer_id = [];
  kill_event_id = [];
  payout_amount = 0;
  payout_status = unset;
  payout_attempts = 0;
  disconnect_event_id = [];
  refund_amount = if is_refund_processing a.status then a.paid_amount else 0;
  refund_status = unset;
  refund_attempts = 0;
  created_at = at;
  paid_at = some at;
  connected_at = none;
  disconnected_at = none;
  killed_at = none;
  last_seen_at = if is_alive a.status then some at else none;
}
