-- ===== src/Bridge.antt =====
-- The bridge of static/lnbits-extension-sdk.js: requests to the host page over one port that is
-- opened on first use, answers that come back in any order, timeouts, and subscriptions to events.
-- Logging to the console is not modelled.
pub mod Accounts
pub mod Answers
pub mod Failure
pub mod Settling
pub mod Subscriptions
use bananabreadwasm.Prelude.{
  ℕ, suc, Bool, true, false, not, Option, none, some, List, [], ◌∷◌, ◌++◌, select, map, ◌&&◌, ◌||◌,
  ◌==◌, if◌then◌else◌,
}
use bananabreadwasm.Text.{Text, codes, text_eq}
use bananabreadwasm.Js.{Engine, Value, str, Fields, field, get_field, or_value, string_of}

-- How the promise of a request settled.
pub data Outcome : Type 0 where
  answered : Value → Outcome
  rejected : Text → Outcome

-- `bridgePortPromise`: none yet, pending with the id of its connection, resolved or rejected.
pub data Port : Type 0 where
  closed opened failed : Port
  connecting : Text → Port

-- A request is known by the number of the call that made it.
pub record Request : Type 0 where
  pub call : ℕ
  pub message : Fields

pub record Waiting : Type 0 where
  pub id : Text
  pub call : ℕ

pub record Settled : Type 0 where
  pub call : ℕ
  pub outcome : Outcome

-- An entry of `bridgeEventHandlers`, with the call that asked the host page for the subscription. A
-- number stands for a callback.
pub record Handler : Type 0 where
  pub id : Text
  pub callback : ℕ
  pub call : ℕ

pub record Posted : Type 0 where
  pub id : Text
  pub message : Fields

pub record Bridge : Type 0 where
  pub port : Port
  -- Requests that wait for the port, the first one first.
  pub queue : List Request
  -- Requests with a listener on the port.
  pub waiting : List Waiting
  pub settled : List Settled
  pub posted : List Posted
  -- How many ids were drawn.
  pub ids : ℕ
  pub handlers : List Handler
  -- What callbacks were called with, the last first.
  pub delivered : List (ℕ × Fields)

unfoldable pub idle : Bridge
idle = record {
  port = closed;
  queue = [];
  waiting = [];
  settled = [];
  posted = [];
  ids = 0;
  handlers = [];
  delivered = [];
}

-- What happens to the bridge, in the order in which the page sees it.
pub data Signal : Type 0 where
  called : ℕ → Fields → Signal
  connected : Text → Signal
  connection_timed_out : Signal
  response : Text → Fields → Signal
  request_timed_out : Text → Signal
  event : Text → Fields → Signal

abbrev is_rejection : Outcome → Bool
is_rejection (answered v) = false
is_rejection (rejected message) = true

abbrev pub timed_out : Outcome
timed_out = rejected (codes "LNbits extension bridge timed out.")

abbrev pub unavailable : Outcome
unavailable = rejected (codes "LNbits extension bridge is not available.")

unfoldable pub settle : ℕ → Outcome → Bridge → Bridge
settle call outcome b = record b { settled = record { call = call; outcome = outcome } ∷ b.settled }

unfoldable pub reject_queue : List Request → Bridge → Bridge
unfolding settle
reject_queue [] b = b
reject_queue (r ∷ rs) b = reject_queue rs (settle r.call timed_out b)

-- The listeners for an id settle, and are removed.
unfoldable pub settle_waiting : Text → Outcome → List Waiting → List Settled → List Settled
settle_waiting id outcome [] settled = settled
settle_waiting id outcome (w ∷ ws) settled =
    settle_waiting id outcome ws
      (if text_eq w.id id then record { call = w.call; outcome = outcome } ∷ settled else settled)

unfoldable pub settle_id : Text → Outcome → Bridge → Bridge
unfolding settle_waiting
settle_id id outcome b = record b {
  waiting = select (λ w. not (text_eq w.id id)) b.waiting;
  settled = settle_waiting id outcome b.waiting b.settled;
}

-- `bridgeEventHandlers.get`
unfoldable pub find_handler : Text → List Handler → Option Handler
find_handler id [] = none
find_handler id (x ∷ xs) = if text_eq x.id id then some x else find_handler id xs

-- `bridgeEventHandlers.set`
unfoldable pub set_handler : Handler → List Handler → List Handler
set_handler x [] = x ∷ []
set_handler x (y ∷ ys) = if text_eq y.id x.id then x ∷ ys else y ∷ set_handler x ys

-- `bridgeEventHandlers.delete`
unfoldable pub delete_handler : Text → List Handler → List Handler
delete_handler id xs = select (λ x. not (text_eq x.id id)) xs

abbrev deliver : Option Handler → Fields → Bridge → Bridge
deliver none message b = b
deliver (some x) message b = record b { delivered = (x.callback, message) ∷ b.delivered }

-- Events are listened to from the time on that the port is open: `attachBridgeEvents`.
abbrev pub handler_for : Port → Text → List Handler → Option Handler
handler_for opened id xs = find_handler id xs
handler_for _ id xs = none

-- Was a call rejected?
unfoldable pub is_rejected : ℕ → List Settled → Bool
is_rejected call [] = false
is_rejected call (s ∷ ss) = s.call == call && is_rejection s.outcome || is_rejected call ss

-- The `catch` of each subscription whose request was rejected: its handler is deleted.
unfoldable pub drop_rejected : List Settled → List Handler → List Handler
unfolding is_rejected
drop_rejected settled xs = select (λ x. not (is_rejected x.call settled)) xs

abbrev pub run_catches : Bridge → Bridge
run_catches b = record b { handlers = drop_rejected b.settled b.handlers }

module _ (engine : Engine) (request_id : ℕ → Text) (is_framed : Bool) where
  -- `bridgePortRequest`
  unfoldable pub send : Request → Bridge → Bridge
  send r b = record b {
    waiting = b.waiting ++ record { id = request_id b.ids; call = r.call } ∷ [];
    posted = record { id = request_id b.ids; message = r.message } ∷ b.posted;
    ids = suc b.ids;
  }

  unfoldable pub send_all : List Request → Bridge → Bridge
  unfolding send
  send_all [] b = b
  send_all (r ∷ rs) b = send_all rs (send r b)

  abbrev queue_up : Request → Bridge → Bridge
  queue_up r b = record b { queue = b.queue ++ r ∷ [] }

  abbrev request_through : Port → Request → Bridge → Bridge
  request_through closed r b =
      queue_up r (record b { port = connecting (request_id b.ids); ids = suc b.ids })
  request_through (connecting id) r b = queue_up r b
  request_through opened r b = send r b
  request_through failed r b = settle r.call timed_out b

  -- `bridgeRequest`: a page outside a frame has no bridge.
  unfoldable pub bridge_request : Request → Bridge → Bridge
  unfolding send settle
  bridge_request r b = if is_framed then request_through b.port r b else settle r.call unavailable b

  -- `onMessage` of `connectBridge`: the port opens, and the requests that waited for it are sent.
  abbrev connect_through : Port → Text → Bridge → Bridge
  connect_through (connecting awaited) id b =
      if text_eq id awaited then send_all b.queue (record b { port = opened; queue = [] }) else b
  connect_through closed id b = b
  connect_through opened id b = b
  connect_through failed id b = b

  abbrev fail_through : Port → Bridge → Bridge
  fail_through (connecting awaited) b =
      reject_queue b.queue (record b { port = failed; queue = [] })
  fail_through closed b = b
  fail_through opened b = b
  fail_through failed b = b

  -- `response.ok === false` rejects, everything else resolves with `response.data`.
  abbrev is_refusal : Value → Bool
  is_refusal (Value.bool false) = true
  is_refusal _ = false

  abbrev pub outcome_of : Fields → Outcome
  outcome_of message =
      if is_refusal (get_field "ok" message)
      then rejected (
          string_of engine
            (or_value (get_field "error" message) (str (codes "Extension call failed."))))
      else answered (get_field "data" message)

  unfoldable pub take_signal : Signal → Bridge → Bridge
  unfolding bridge_request send_all reject_queue settle_id find_handler drop_rejected or_value
      string_of get_field
  take_signal (called call message) b = bridge_request (record { call = call; message = message }) b
  take_signal (connected id) b = connect_through b.port id b
  take_signal connection_timed_out b = run_catches (fail_through b.port b)
  take_signal (response id message) b = run_catches (settle_id id (outcome_of message) b)
  take_signal (request_timed_out id) b = run_catches (settle_id id timed_out b)
  take_signal (event id message) b = deliver (handler_for b.port id b.handlers) message b

  unfoldable pub take_signals : List Signal → Bridge → Bridge
  take_signals [] b = b
  take_signals (s ∷ ss) b = take_signals ss (take_signal s b)
