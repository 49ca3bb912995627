-- ===== src/Bridge/Subscriptions/Laws.antt =====
-- Which events reach the callback of a subscription.
use bananabreadwasm.Prelude.{
  ℕ, suc, ◌≡◌, refl, ap, ◌∙◌, Bool, true, false, ◌⊎◌, none, some, List, [], ◌∷◌, arith, Bool-cases,
  inl, inr,
}
use bananabreadwasm.Text.{Text, text_eq, text_eq_refl}
use bananabreadwasm.Js.{Engine, Fields}
use bananabreadwasm.Bridge.{
  opened, failed, Settled, is_rejected, drop_rejected, run_catches, fail_through, Request, Bridge,
  Handler, Signal, called, connected, connection_timed_out, response, request_timed_out, event,
  settle, settle_id, send_all, reject_queue, bridge_request, find_handler, set_handler,
  delete_handler, take_signal, take_signals,
}
use bananabreadwasm.Bridge.Subscriptions.{
  Topic, Subscription, subscribe_message, unsubscribe_message, subscribe, unsubscribe,
}

find-delete : (id : Text) (xs : List Handler) → find_handler id (delete_handler id xs) ≡ none
unfolding find_handler delete_handler
find-delete id [] = refl
find-delete id (x ∷ xs) = elim (Bool-cases (text_eq x.id id)) [
  | inl here ↦ rw here (find-delete id xs)
  | inr other ↦ rw other (rw other (find-delete id xs))
]

find-set : (x : Handler) (ys : List Handler) → find_handler x.id (set_handler x ys) ≡ some x
unfolding find_handler set_handler
find-set x [] = rw (text_eq_refl x.id) refl
find-set x (y ∷ ys) = elim (Bool-cases (text_eq y.id x.id)) [
  | inl here ↦ rw here (rw (text_eq_refl x.id) refl)
  | inr other ↦ rw other (rw other (find-set x ys))
]

-- The catches set no handler,
find-drop_none :
    (id : Text) (settled : List Settled) (xs : List Handler)
    → find_handler id xs ≡ none
    → find_handler id (drop_rejected settled xs) ≡ none
unfolding find_handler drop_rejected
find-drop_none id settled [] e = refl
find-drop_none id settled (x ∷ xs) e = elim (Bool-cases (text_eq x.id id)) [
  | inl here ↦ absurd (ground (arith, here, e))
  | inr other ↦
      let rest = find-drop_none id settled xs (ground (arith, other, e)) in
      elim (Bool-cases (is_rejected x.call settled)) [
        | inl gone ↦ rw gone rest
        | inr kept ↦ rw kept (rw other rest)
      ]
]

-- and keep the handler of a request that was not rejected.
find-drop_some :
    (id : Text) (settled : List Settled) (x : Handler) (ys : List Handler)
    → find_handler id ys ≡ some x
    → is_rejected x.call settled ≡ false
    → find_handler id (drop_rejected settled ys) ≡ some x
unfolding find_handler drop_rejected
find-drop_some id settled x [] e live = cc
find-drop_some id settled x (y ∷ ys) e live = elim (Bool-cases (text_eq y.id id)) [
  | inl here ↦
      let same : y ≡ x = ground (arith, here, e) in rw same (rw live (rw (← same) (rw here refl)))
  | inr other ↦
      let rest = find-drop_some id settled x ys (ground (arith, other, e)) live in
      elim (Bool-cases (is_rejected y.call settled)) [
        | inl gone ↦ rw gone rest
        | inr kept ↦ rw kept (rw other rest)
      ]
]

reject_queue-handlers : (rs : List Request) (b : Bridge) → (reject_queue rs b).handlers ≡ b.handlers
unfolding reject_queue settle
reject_queue-handlers [] b = refl
reject_queue-handlers (r ∷ rs) b = reject_queue-handlers rs _

module _ (engine : Engine) (request_id : ℕ → Text) (is_framed : Bool) where
  send_all-handlers :
      (rs : List Request) (b : Bridge)
      → (send_all engine request_id is_framed rs b).handlers ≡ b.handlers
  unfolding send_all
  send_all-handlers [] b = refl
  send_all-handlers (r ∷ rs) b = send_all-handlers rs _

  bridge_request-handlers :
      (r : Request) (b : Bridge)
      → (bridge_request engine request_id is_framed r b).handlers ≡ b.handlers
  unfolding bridge_request
  bridge_request-handlers r b = ground arith

  -- A signal sets no handler, and removes those of rejected requests only.
  take_signal-handlers :
      (s : Signal) (b : Bridge)
      → let after = take_signal engine request_id is_framed s b in
        (after.handlers ≡ b.handlers) ⊎ (after.handlers ≡ drop_rejected after.settled b.handlers)
  unfolding take_signal settle_id
  take_signal-handlers (called call message) b = inl (bridge_request-handlers _ b)
  take_signal-handlers (connected id) b =
      inl (ground (arith, send_all-handlers b.queue (record b { port = opened; queue = [] })))
  take_signal-handlers connection_timed_out b = inr (
      ap (drop_rejected (fail_through engine request_id is_framed b.port b).settled)
        (ground (arith, reject_queue-handlers b.queue (record b { port = failed; queue = [] }))))
  take_signal-handlers (response id message) b = inr refl
  take_signal-handlers (request_timed_out id) b = inr refl
  take_signal-handlers (event id message) b = inl (ground arith)

  stays_deaf :
      (id : Text) (ss : List Signal) (b : Bridge)
      → find_handler id b.handlers ≡ none
      → find_handler id (take_signals engine request_id is_framed ss b).handlers ≡ none
  unfolding take_signals
  stays_deaf id [] b deaf = deaf
  stays_deaf id (s ∷ ss) b deaf =
      let after = take_signal engine request_id is_framed s b in
      stays_deaf id ss after (elim (take_signal-handlers s b) [
        | inl same ↦ rw same deaf
        | inr dropped ↦ rw dropped (find-drop_none id after.settled b.handlers deaf)
      ])

  -- The call is not rejected, while the signals are taken.
  abbrev pub IsUnrejected : ℕ → List Signal → Bridge → Type 0
  IsUnrejected call [] b = is_rejected call b.settled ≡ false
  IsUnrejected call (s ∷ ss) b =
      (is_rejected call b.settled ≡ false)
      × IsUnrejected call ss (take_signal engine request_id is_framed s b)

  unrejected_now :
      (call : ℕ) (ss : List Signal) (b : Bridge)
      → IsUnrejected call ss b
      → is_rejected call b.settled ≡ false
  unrejected_now call [] b u = u
  unrejected_now call (s ∷ ss) b (now, later) = now

  keeps_hearing :
      (id : Text) (x : Handler) (ss : List Signal) (b : Bridge)
      → find_handler id b.handlers ≡ some x
      → IsUnrejected x.call ss b
      → find_handler id (take_signals engine request_id is_framed ss b).handlers ≡ some x
  unfolding take_signals
  keeps_hearing id x [] b found u = found
  keeps_hearing id x (s ∷ ss) b found (now, later) =
      let after = take_signal engine request_id is_framed s b in
      let live = unrejected_now x.call ss after later in
      keeps_hearing id x ss after
        (elim (take_signal-handlers s b) [
          | inl same ↦ rw same found
          | inr dropped ↦ rw dropped (find-drop_some id after.settled x b.handlers found live)
        ])
        later

  -- If the port is open, and the request of a subscription was not rejected, at once or since, an event
  -- of the subscription calls its callback.
  pub subscribed_hears :
      (topic : Topic) (callback call : ℕ) (ss : List Signal) (message : Fields) (b : Bridge)
      → IsUnrejected call ss (subscribe engine request_id is_framed topic callback call b)
      → (take_signals engine request_id is_framed ss
          (subscribe engine request_id is_framed topic callback call b)).port
        ≡ opened
      → let later =
          take_signals engine request_id is_framed ss
            (subscribe engine request_id is_framed topic callback call b) in
        take_signal engine request_id is_framed (event (request_id b.ids) message) later
        ≡ record later { delivered = (callback, message) ∷ later.delivered }
  unfolding subscribe take_signal
  subscribed_hears topic callback call ss message b live ready =
      let id = request_id b.ids in
      let handler : Handler = record { id = id; callback = callback; call = call } in
      let held : Bridge = record b { handlers = set_handler handler b.handlers; ids = suc b.ids } in
      let request : Request = record { call = call; message = subscribe_message topic id } in
      let asked = bridge_request engine request_id is_framed request held in
      let there : find_handler id asked.handlers ≡ some handler =
        ap (find_handler id) (bridge_request-handlers request held) ∙ find-set handler b.handlers in
      let first =
        find-drop_some id asked.settled handler asked.handlers there
          (unrejected_now call ss (run_catches asked) live) in
      let found = keeps_hearing id handler ss (run_catches asked) first live in
      rw ready (rw found refl)

  silent :
      (b : Bridge) (id : Text) (message : Fields)
      → find_handler id b.handlers ≡ none
      → take_signal engine request_id is_framed (event id message) b ≡ b
  unfolding take_signal
  silent b id message lost = ground (arith, lost)

  -- To end a subscription twice is to end it once: the host page is told once. After that no event of
  -- it calls a callback, whatever comes over the port.
  pub unsubscribed_is_deaf :
      (c d : ℕ) (ss : List Signal) (message : Fields) (s : Subscription) (b : Bridge)
      → s.active ≡ true
      → let ended = unsubscribe engine request_id is_framed c (s, b) in
        let later = take_signals engine request_id is_framed ss ended.1 in
        (unsubscribe engine request_id is_framed d ended ≡ ended)
        × (take_signal engine request_id is_framed (event s.id message) later ≡ later)
  unfolding unsubscribe take_signal
  unsubscribed_is_deaf c d ss message s b e =
      let held : Bridge = record b { handlers = delete_handler s.id b.handlers } in
      let request : Request = record { call = c; message = unsubscribe_message s.topic s.id } in
      let asked = bridge_request engine request_id is_framed request held in
      let lost = stays_deaf s.id ss asked (
        ap (find_handler s.id) (bridge_request-handlers request held)
        ∙ find-delete s.id b.handlers) in
      let later = take_signals engine request_id is_framed ss asked in
      simp e (refl, silent later s.id message lost)
