-- ===== src/Bridge/Subscriptions.antt =====
-- `subscribePayment` and `subscribeWebsocket` of static/lnbits-extension-sdk.js, and the function that
-- each resolves with.
pub mod Laws
use bananabreadwasm.Prelude.{ℕ, suc, Bool, true, false, List, [], ◌∷◌, ◌++◌, if◌then◌else◌}
use bananabreadwasm.Text.{Text, codes}
use bananabreadwasm.Js.{Engine, Value, str, Fields, field, end}
use bananabreadwasm.Bridge.{
  Bridge, Request, Handler, settle, bridge_request, set_handler, delete_handler, run_catches,
}

-- What is subscribed to: the payment of a hash, or a websocket item.
pub data Topic : Type 0 where
  payment websocket : Text → Topic

abbrev kind_of : Topic → Text
kind_of (payment hash) = codes "payment"
kind_of (websocket item) = codes "websocket"

unfoldable pub subscribe_message : Topic → Text → Fields
subscribe_message (payment hash) id =
    field "action" (str (codes "payment.subscribe"))
      (field "subscriptionId" (str id) (field "paymentHash" (str hash) end))
subscribe_message (websocket item) id =
    field "action" (str (codes "websocket.subscribe"))
      (field "subscriptionId" (str id) (field "itemId" (str item) end))

unfoldable pub unsubscribe_message : Topic → Text → Fields
unsubscribe_message topic id =
    field "action" (str (kind_of topic ++ codes ".unsubscribe"))
      (field "subscriptionId" (str id) end)

-- A subscription, as its function to unsubscribe keeps it.
pub record Subscription : Type 0 where
  pub topic : Topic
  pub id : Text
  pub active : Bool

module _ (engine : Engine) (request_id : ℕ → Text) (is_framed : Bool) where
  -- The call, given a function as its callback: the handler is set before the host page is asked, and
  -- deleted again if the request is rejected at once.
  unfoldable pub subscribe : Topic → ℕ → ℕ → Bridge → Bridge
  unfolding subscribe_message set_handler
  subscribe topic callback call b =
      let id = request_id b.ids in
      let handler : Handler = record { id = id; callback = callback; call = call } in
      run_catches (
        bridge_request engine request_id is_framed
          (record { call = call; message = subscribe_message topic id })
          (record b { handlers = set_handler handler b.handlers; ids = suc b.ids }))

  -- The request resolved with a function: its call.
  unfoldable pub unsubscribe : ℕ → Subscription × Bridge → Subscription × Bridge
  unfolding unsubscribe_message delete_handler
  unsubscribe call (s, b) =
      if s.active
      then (
        record s { active = false },
        bridge_request engine request_id is_framed
            (record { call = call; message = unsubscribe_message s.topic s.id })
            (record b { handlers = delete_handler s.id b.handlers }),
      )
      else (s, b)
