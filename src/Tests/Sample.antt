-- ===== src/Tests/Sample.antt =====
-- A host with tables in memory and a wallet that pays, an arena with two live players, and requests.
use bananabreadwasm.Prelude.{true, false, none, some, [], String, map}
use bananabreadwasm.Text.{Text, codes, ascii_lower}
use bananabreadwasm.Result.{ok}
use bananabreadwasm.Js.{Engine, nan, finite, Value, num, str, obj, Fields, end, field}
use bananabreadwasm.Rows.{Game, Player, PlayerStatus, alive, dead, unset, paid, SettlementStatus}
use bananabreadwasm.Table.Memory.{memory, empty_rows}
use bananabreadwasm.Host.{Host, World, Invoice, PayResponse, pos}

abbrev pub engine : Engine
engine = record {
  json_parse = λ t. none;
  number_of_text = λ t. nan;
  text_of_number = λ n. [];
  to_lower = map ascii_lower;
}

abbrev pub paid_out : PayResponse
paid_out = record {
  ok = true;
  error = none;
  checking_id = none;
  payment_hash = some (codes "f00d");
  status = some (codes "success");
  amount_msat = pos 90000;
  fee_msat = pos 0;
  pending = false;
  success = true;
}

abbrev invoice : Invoice
invoice = record {
  payment_hash = codes "c0de";
  payment_request = codes "lnbc1";
  checking_id = codes "c0de";
}

abbrev pub host : Host
host = record {
  engine = engine;
  settings = memory (λ r. r.id);
  games = memory (λ r. r.id);
  players = memory (λ r. r.id);
  timestamp = λ n. finite false 1700000000 0;
  date_now = λ n. 1700000000000;
  random_id = λ n prefix. prefix;
  wallets = [];
  pay = λ past r. ok paid_out;
  invoice = λ past r. ok invoice;
}

abbrev pub arena : Game
arena = record {
  id = codes "arena";
  settings_id = codes "main";
  wallet_id = codes "purse";
  gateway_url = codes "https://play.example.org";
  server_secret = codes "hush";
  name = codes "Arena";
  join_amount = 100;
  haircut = 10;
  players_count = 0;
  max_players = 5;
  status = codes "active";
  created_at = 1;
  updated_at = 1;
}

abbrev pub player_named : Text → PlayerStatus → SettlementStatus → Player
player_named id status payout = record {
  id = id;
  game_id = codes "arena";
  name = id;
  ln_address = codes "ann@pay.example.org";
  payment_hash = id;
  player_token = id;
  slot = 1;
  status = status;
  paid_amount = 100;
  killer_id = [];
  kill_event_id = [];
  payout_amount = 0;
  payout_status = payout;
  payout_attempts = 0;
  disconnect_event_id = [];
  refund_amount = 0;
  refund_status = unset;
  refund_attempts = 0;
  created_at = 1;
  paid_at = some 1;
  connected_at = none;
  disconnected_at = none;
  killed_at = none;
  last_seen_at = some 1;
}

abbrev pub ann : Player
ann = player_named (codes "ann") alive unset

abbrev pub bob : Player
bob = record (player_named (codes "bob") alive unset) { slot = 2 }

abbrev pub ghost : Player
ghost = player_named (codes "ghost") dead paid

abbrev pub empty_world : World host
unfolding memory
empty_world = record {
  settings = empty_rows _;
  games = host.games.set arena (empty_rows _);
  players = empty_rows _;
  ticks = 0;
  ids = 0;
  payments = [];
  invoices = [];
}

abbrev pub with_player : Player → World host → World host
with_player p w = record w { players = host.players.set p w.players }

-- The arena with its two live players.
abbrev pub duel : World host
duel = with_player bob (with_player ann empty_world)

abbrev pub text_field : String → String → Fields → Fields
text_field k v fs = field k (str (codes v)) fs

abbrev pub kill_input : Value
kill_input = obj (
    text_field "gameId" "arena" (
      text_field "serverSecret" "hush" (
        text_field "eventId" "k1"
          (text_field "killerPlayerId" "ann" (text_field "victimPlayerId" "bob" end)))))

abbrev pub disconnect_input : Value
disconnect_input = obj (
    text_field "gameId" "arena" (
      text_field "serverSecret" "hush"
        (text_field "eventId" "d1" (text_field "playerId" "bob" end))))

abbrev pub wrong_fields : Fields
wrong_fields = text_field "gameId" "arena" (text_field "serverSecret" "guess" end)

abbrev pub payment_input : Value
payment_input = obj (
    text_field "payment_hash" "beef" (
      field "amount" (num (finite false 100000 0)) (
        field "extra"
          (obj (
            text_field "game_id" "arena"
              (text_field "ln_address" "Cy@pay.example.org" (text_field "player_name" "Cy" end))))
          end)))

abbrev pub arena_input : Value
arena_input = obj (text_field "gameId" "arena" end)
