-- ===== src/Tests/Bridge.antt =====
-- Runs of the bridge of static/lnbits-extension-sdk.js at concrete signals.
use bananabreadwasm.Prelude.{suc, length, ◌≤◌, arith, ℕ, ◌≡◌, refl, true, List, [], ◌∷◌, ◌+◌}
use bananabreadwasm.Text.{Text, codes, text_eq}
use bananabreadwasm.Js.{bool, str, Fields, field, end, get_field}
use bananabreadwasm.Bridge.{
  opened, failed, bridge_request, send, send_all, settle_id, settle_waiting, is_rejected,
  drop_rejected, set_handler, Bridge, idle, Signal, called, connected, response, event, timed_out,
  take_signal, take_signals,
}
use bananabreadwasm.Bridge.Accounts.{queued, awaited, settlements, calls, requests_accounted}
use bananabreadwasm.Bridge.Answers.{one_answer_settles}
use bananabreadwasm.Bridge.Failure.{failure_is_final}
use bananabreadwasm.Bridge.Settling.{timeouts, timeouts_settle}
use bananabreadwasm.Bridge.Subscriptions.{
  Topic, Subscription, subscribe_message, subscribe, unsubscribe,
}
use bananabreadwasm.Bridge.Subscriptions.Laws.{IsUnrejected, subscribed_hears, unsubscribed_is_deaf}
use bananabreadwasm.Tests.Sample.{engine}

-- Ids in the order in which they are drawn.
abbrev request_id : ℕ → Text
request_id n = n ∷ []

abbrev take : List Signal → Bridge → Bridge
take = take_signals engine request_id true

abbrev context_message : Fields
context_message = field "action" (str (codes "context")) end

-- Two calls before the port is open, and the answer to the second.
abbrev exchange : List Signal
exchange =
    called 1 context_message
    ∷ called 2 context_message
    ∷ connected (request_id 0)
    ∷ response (request_id 2) (field "ok" (bool true) end)
    ∷ []

requests_accounted_example :
    let b = take exchange idle in
    queued 2 b.queue + awaited 2 b.waiting + settlements 2 b.settled ≡ calls 2 exchange
requests_accounted_example = requests_accounted engine request_id true 2 exchange

timeouts_settle_example :
    let b = take exchange idle in settlements 1 (take (timeouts b) b).settled ≡ calls 1 exchange
timeouts_settle_example = timeouts_settle engine request_id true 1 exchange

-- A bridge whose connection has timed out.
abbrev cut_off : Bridge
cut_off = record idle { port = failed }

failure_is_final_example :
    let later = take exchange cut_off in
    (later.posted ≡ cut_off.posted)
    × (take_signal engine request_id true (called 3 context_message) later
        ≡ record later { settled = record { call = 3; outcome = timed_out } ∷ later.settled })
failure_is_final_example =
    failure_is_final engine request_id exchange 3 context_message cut_off refl

-- A payment is subscribed to, the port opens, and the host page agrees.
abbrev subscribed : Bridge
subscribed = subscribe engine request_id true (Topic.payment (codes "c0de")) 7 3 idle

abbrev agreement : List Signal
agreement = connected (request_id 1) ∷ response (request_id 2) (field "ok" (bool true) end) ∷ []

agreed : IsUnrejected engine request_id true 3 agreement subscribed
unfolding subscribe subscribe_message idle bridge_request take_signal send_all send settle_id
    settle_waiting is_rejected drop_rejected get_field text_eq set_handler
agreed = (refl, (refl, refl))

port_open : (take agreement subscribed).port ≡ opened
unfolding subscribe subscribe_message idle bridge_request take_signals take_signal send_all send
    settle_id settle_waiting is_rejected drop_rejected get_field text_eq set_handler
port_open = refl

subscribed_hears_example :
    let later = take agreement subscribed in
    take_signal engine request_id true (event (request_id idle.ids) end) later
    ≡ record later { delivered = (7, end) ∷ later.delivered }
subscribed_hears_example =
    subscribed_hears engine request_id true (Topic.payment (codes "c0de")) 7 3 agreement end idle
      agreed port_open

abbrev payments : Subscription
payments = record { topic = Topic.payment (codes "c0de"); id = request_id 0; active = true }

unsubscribed_is_deaf_example :
    let ended = unsubscribe engine request_id true 8 (payments, idle) in
    let later = take exchange ended.1 in
    (unsubscribe engine request_id true 9 ended ≡ ended)
    × (take_signal engine request_id true (event payments.id end) later ≡ later)
unsubscribed_is_deaf_example =
    unsubscribed_is_deaf engine request_id true 8 9 exchange end payments idle refl

one_answer_settles_example :
    let b = take exchange idle in
    let after = take_signal engine request_id true (response (request_id 1) end) b in
    (length after.settled ≤ suc (length b.settled))
    × (take_signal engine request_id true (response (request_id 1) end) after ≡ after)
one_answer_settles_example =
    one_answer_settles engine request_id true (λ i j e. ground arith) exchange (request_id 1) end
      end
