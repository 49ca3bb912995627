-- ===== src/Bridge/Accounts.antt =====
-- Where the requests are that were made of the bridge of static/lnbits-extension-sdk.js.
use bananabreadwasm.Prelude.{
  ℕ, ◌+◌, ◌≡◌, refl, Bool, true, false, not, List, [], ◌∷◌, ◌++◌, select, arith, ◌==◌, Bool-cases,
  Option-cases, inl, inr,
}
use bananabreadwasm.Text.{Text, text_eq}
use bananabreadwasm.Js.{Engine}
use bananabreadwasm.Bridge.{
  Outcome, Port, closed, opened, failed, connecting, Request, Waiting, Settled, Bridge, idle,
  Signal, called, connected, connection_timed_out, response, request_timed_out, event, timed_out,
  settle, reject_queue, settle_waiting, settle_id, send, send_all, bridge_request, take_signal,
  take_signals, handler_for, request_through, connect_through, fail_through,
}

abbrev one_if : Bool → ℕ
one_if true = 1
one_if false = 0

-- How often a call stands in the queue, on the port, and among the settled.
abbrev pub queued : ℕ → List Request → ℕ
queued n [] = 0
queued n (r ∷ rs) = one_if (r.call == n) + queued n rs

abbrev pub awaited : ℕ → List Waiting → ℕ
awaited n [] = 0
awaited n (w ∷ ws) = one_if (w.call == n) + awaited n ws

abbrev pub settlements : ℕ → List Settled → ℕ
settlements n [] = 0
settlements n (s ∷ ss) = one_if (s.call == n) + settlements n ss

abbrev pub load : ℕ → Bridge → ℕ
load n b = queued n b.queue + awaited n b.waiting + settlements n b.settled

-- How often a call is made.
abbrev pub calls : ℕ → List Signal → ℕ
calls n [] = 0
calls n (called call message ∷ ss) = one_if (call == n) + calls n ss
calls n (_ ∷ ss) = calls n ss

queued-append : (n : ℕ) (rs qs : List Request) → queued n (rs ++ qs) ≡ queued n rs + queued n qs
queued-append n [] qs = omega arith
queued-append n (r ∷ rs) qs = omega (arith, queued-append n rs qs)

awaited-append : (n : ℕ) (ws vs : List Waiting) → awaited n (ws ++ vs) ≡ awaited n ws + awaited n vs
awaited-append n [] vs = omega arith
awaited-append n (w ∷ ws) vs = omega (arith, awaited-append n ws vs)

pub reject_queue-load :
    (n : ℕ) (rs : List Request) (b : Bridge)
    → (settlements n (reject_queue rs b).settled ≡ settlements n b.settled + queued n rs)
      × ((reject_queue rs b).queue ≡ b.queue)
      × ((reject_queue rs b).waiting ≡ b.waiting)
      × ((reject_queue rs b).port ≡ b.port)
unfolding reject_queue
reject_queue-load n [] b = (omega arith, refl, refl, refl)
reject_queue-load n (r ∷ rs) b = ground (arith, reject_queue-load n rs (settle r.call timed_out b))

settle_waiting-load :
    (n : ℕ) (id : Text) (o : Outcome) (ws : List Waiting) (ss : List Settled)
    → awaited n (select (λ w. not (text_eq w.id id)) ws) + settlements n (settle_waiting id o ws ss)
      ≡ awaited n ws + settlements n ss
unfolding settle_waiting
settle_waiting-load n id o [] ss = refl
settle_waiting-load n id o (w ∷ ws) ss = elim (Bool-cases (text_eq w.id id)) [
  | inl here ↦
      rw here
        (omega (arith, settle_waiting-load n id o ws (record { call = w.call; outcome = o } ∷ ss)))
  | inr other ↦ rw other (omega (arith, settle_waiting-load n id o ws ss))
]

settle_id-load :
    (n : ℕ) (id : Text) (o : Outcome) (b : Bridge) → load n (settle_id id o b) ≡ load n b
unfolding settle_id
settle_id-load n id o b = omega (arith, settle_waiting-load n id o b.waiting b.settled)

module _ (engine : Engine) (request_id : ℕ → Text) (is_framed : Bool) where
  pub send_all-load :
      (n : ℕ) (rs : List Request) (b : Bridge)
      → (awaited n (send_all engine request_id is_framed rs b).waiting
          ≡ awaited n b.waiting + queued n rs)
        × ((send_all engine request_id is_framed rs b).queue ≡ b.queue)
        × ((send_all engine request_id is_framed rs b).settled ≡ b.settled)
        × ((send_all engine request_id is_framed rs b).port ≡ b.port)
  unfolding send_all
  send_all-load n [] b = (omega arith, refl, refl, refl)
  send_all-load n (r ∷ rs) b =
      let (more, queue, settled, port) =
        send_all-load n rs (send engine request_id is_framed r b) in
      let listener : Waiting = record { id = request_id b.ids; call = r.call } in
      (omega (arith, more, awaited-append n b.waiting (listener ∷ [])), queue, settled, port)

  request-load :
      (n : ℕ) (p : Port) (r : Request) (b : Bridge)
      → load n (request_through engine request_id is_framed p r b) ≡ load n b + one_if (r.call == n)
  unfolding send settle
  request-load n closed r b = omega (arith, queued-append n b.queue (r ∷ []))
  request-load n (connecting id) r b = omega (arith, queued-append n b.queue (r ∷ []))
  request-load n opened r b =
      omega
        (arith, awaited-append n b.waiting (record { id = request_id b.ids; call = r.call } ∷ []))
  request-load n failed r b = omega arith

  bridge_request-load :
      (n : ℕ) (r : Request) (b : Bridge)
      → load n (bridge_request engine request_id is_framed r b) ≡ load n b + one_if (r.call == n)
  unfolding bridge_request settle
  bridge_request-load n r b = elim (Bool-cases is_framed) [
    | inl framed ↦ rw framed (request-load n b.port r b)
    | inr alone ↦ rw alone (omega arith)
  ]

  connect-load :
      (n : ℕ) (p : Port) (id : Text) (b : Bridge)
      → load n (connect_through engine request_id is_framed p id b) ≡ load n b
  connect-load n (connecting awaited_id) id b = elim (Bool-cases (text_eq id awaited_id)) [
    | inl ours ↦
        let (more, queue, settled, _) =
          send_all-load n b.queue (record b { port = opened; queue = [] }) in
        rw ours (ground (arith, more, queue, settled))
    | inr other ↦ rw other refl
  ]
  connect-load n closed id b = refl
  connect-load n opened id b = refl
  connect-load n failed id b = refl

  fail-load :
      (n : ℕ) (p : Port) (b : Bridge)
      → load n (fail_through engine request_id is_framed p b) ≡ load n b
  fail-load n (connecting awaited_id) b =
      let (more, queue, waiting, _) =
        reject_queue-load n b.queue (record b { port = failed; queue = [] }) in
      ground (arith, more, queue, waiting)
  fail-load n closed b = refl
  fail-load n opened b = refl
  fail-load n failed b = refl

  take_signal-load :
      (n : ℕ) (s : Signal) (b : Bridge)
      → load n (take_signal engine request_id is_framed s b) ≡ load n b + calls n (s ∷ [])
  unfolding take_signal
  take_signal-load n (called call message) b =
      omega (arith, bridge_request-load n (record { call = call; message = message }) b)
  take_signal-load n (connected id) b = omega (arith, connect-load n b.port id b)
  take_signal-load n connection_timed_out b = omega (arith, fail-load n b.port b)
  take_signal-load n (response id message) b = omega (arith, settle_id-load n id _ b)
  take_signal-load n (request_timed_out id) b = omega (arith, settle_id-load n id _ b)
  take_signal-load n (event id message) b = elim (Option-cases (handler_for b.port id b.handlers)) [
    | inl unknown ↦ rw unknown (omega arith)
    | inr (callback, known) ↦ rw known (omega arith)
  ]

  calls-cons :
      (n : ℕ) (s : Signal) (ss : List Signal) → calls n (s ∷ ss) ≡ calls n (s ∷ []) + calls n ss
  calls-cons n (called call message) ss = omega arith
  calls-cons n (connected id) ss = omega arith
  calls-cons n connection_timed_out ss = omega arith
  calls-cons n (response id message) ss = omega arith
  calls-cons n (request_timed_out id) ss = omega arith
  calls-cons n (event id message) ss = omega arith

  -- From any bridge, what is made of it is kept.
  pub take_signals-load :
      (n : ℕ) (ss : List Signal) (b : Bridge)
      → load n (take_signals engine request_id is_framed ss b) ≡ load n b + calls n ss
  unfolding take_signals
  take_signals-load n [] b = omega arith
  take_signals-load n (s ∷ ss) b = omega (
    arith,
    calls-cons n s ss,
    take_signal-load n s b,
    take_signals-load n ss (take_signal engine request_id is_framed s b),
  )

  -- Whatever comes over the port, in whatever order, a call waits for the port, or waits for its answer,
  -- or has settled, as often as it was made: no request is lost, and none settles twice.
  pub requests_accounted :
      (n : ℕ) (ss : List Signal)
      → let b = take_signals engine request_id is_framed ss idle in
        queued n b.queue + awaited n b.waiting + settlements n b.settled ≡ calls n ss
  unfolding idle
  requests_accounted n ss = omega (arith, take_signals-load n ss idle)
