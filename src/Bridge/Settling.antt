-- ===== src/Bridge/Settling.antt =====
-- Requests of static/lnbits-extension-sdk.js when its timeouts have run.
use bananabreadwasm.Prelude.{
  ℕ, ◌≡◌, refl, ap, ◌∙◌, ◌⊎◌, inl, inr, Bool, true, false, not, List, [], ◌∷◌, map, any, select,
  All, arith, Bool-cases, Option-cases,
}
use bananabreadwasm.Text.{Text, text_eq, text_eq_refl}
use bananabreadwasm.Js.{Engine}
use bananabreadwasm.Bridge.{
  run_catches, Port, closed, opened, failed, connecting, Request, Waiting, Bridge, idle, Signal,
  called, connected, connection_timed_out, response, request_timed_out, event, timed_out, settle,
  settle_id, send, bridge_request, take_signal, take_signals, handler_for, request_through,
  connect_through, fail_through,
}
use bananabreadwasm.Bridge.Accounts.{
  queued, awaited, settlements, calls, take_signals-load, reject_queue-load, send_all-load,
}

abbrev is_connecting : Port → Bool
is_connecting (connecting id) = true
is_connecting closed = false
is_connecting opened = false
is_connecting failed = false

-- Requests queue only while the port connects.
abbrev IsOrderly : Bridge → Type 0
IsOrderly b = (is_connecting b.port ≡ true) ⊎ (b.queue ≡ [])

-- The timeouts that the bridge still has set.
abbrev pub timeouts : Bridge → List Signal
timeouts b = connection_timed_out ∷ map (λ w. request_timed_out w.id) b.waiting

-- Each listener's id is among those of the others.
abbrev Covers : List Waiting → List Waiting → Type 0
Covers vs ws = All (λ w. any (λ v. text_eq w.id v.id) vs ≡ true) ws

Covers-cons : (v : Waiting) (vs ws : List Waiting) → Covers vs ws → Covers (v ∷ vs) ws
Covers-cons v vs [] c = tt
Covers-cons v vs (w ∷ ws) (here, c) = (ground arith, Covers-cons v vs ws c)

Covers-refl : (ws : List Waiting) → Covers ws ws
Covers-refl [] = tt
Covers-refl (w ∷ ws) = (rw (text_eq_refl w.id) refl, Covers-cons w ws ws (Covers-refl ws))

Covers-select :
    (v : Waiting) (vs ws : List Waiting)
    → Covers (v ∷ vs) ws
    → Covers vs (select (λ w. not (text_eq w.id v.id)) ws)
Covers-select v vs [] c = tt
Covers-select v vs (w ∷ ws) (here, c) = elim (Bool-cases (text_eq w.id v.id)) [
  | inl timed ↦ rw timed (Covers-select v vs ws c)
  | inr other ↦ rw other (ground arith, Covers-select v vs ws c)
]

module _ (engine : Engine) (request_id : ℕ → Text) (is_framed : Bool) where
  request-IsOrderly :
      (p : Port) (r : Request) (b : Bridge)
      → p ≡ b.port
      → IsOrderly b
      → IsOrderly (request_through engine request_id is_framed p r b)
  unfolding send settle
  request-IsOrderly closed r b e o = inl refl
  request-IsOrderly (connecting id) r b e o = inl (ground arith)
  request-IsOrderly opened r b e o = o
  request-IsOrderly failed r b e o = o

  connect-IsOrderly :
      (p : Port) (id : Text) (b : Bridge)
      → IsOrderly b
      → IsOrderly (connect_through engine request_id is_framed p id b)
  connect-IsOrderly (connecting awaited_id) id b o = elim (Bool-cases (text_eq id awaited_id)) [
    | inl ours ↦ rw ours (
        inr
          (send_all-load engine request_id is_framed 0 b.queue
            (record b { port = opened; queue = [] })).1)
    | inr other ↦ rw other o
  ]
  connect-IsOrderly closed id b o = o
  connect-IsOrderly opened id b o = o
  connect-IsOrderly failed id b o = o

  -- When the connection has timed out, no request is queued any more.
  fail_empties :
      (p : Port) (b : Bridge)
      → p ≡ b.port
      → IsOrderly b
      → ((fail_through engine request_id is_framed p b).queue ≡ [])
        × ((fail_through engine request_id is_framed p b).waiting ≡ b.waiting)
  fail_empties (connecting awaited_id) b e o =
      let (_, queue, waiting, _) =
        reject_queue-load 0 b.queue (record b { port = failed; queue = [] }) in
      (queue, waiting)
  fail_empties closed b e o = (ground arith, refl)
  fail_empties opened b e o = (ground arith, refl)
  fail_empties failed b e o = (ground arith, refl)

  take_signal-IsOrderly :
      (s : Signal) (b : Bridge)
      → IsOrderly b
      → IsOrderly (take_signal engine request_id is_framed s b)
  unfolding take_signal bridge_request settle settle_id
  take_signal-IsOrderly (called call message) b o = elim (Bool-cases is_framed) [
    | inl framed ↦
        rw framed (request-IsOrderly b.port (record { call = call; message = message }) b refl o)
    | inr alone ↦ rw alone o
  ]
  take_signal-IsOrderly (connected id) b o = connect-IsOrderly b.port id b o
  take_signal-IsOrderly connection_timed_out b o = inr (fail_empties b.port b refl o).0
  take_signal-IsOrderly (response id message) b o = o
  take_signal-IsOrderly (request_timed_out id) b o = o
  take_signal-IsOrderly (event id message) b o =
      elim (Option-cases (handler_for b.port id b.handlers)) [
        | inl unknown ↦ rw unknown o
        | inr (callback, known) ↦ rw known o
      ]

  take_signals-IsOrderly :
      (ss : List Signal) (b : Bridge)
      → IsOrderly b
      → IsOrderly (take_signals engine request_id is_framed ss b)
  unfolding take_signals
  take_signals-IsOrderly [] b o = o
  take_signals-IsOrderly (s ∷ ss) b o =
      take_signals-IsOrderly ss (take_signal engine request_id is_framed s b)
        (take_signal-IsOrderly s b o)

  -- Timeouts that cover the listeners leave none.
  timeouts-empty :
      (vs : List Waiting) (b : Bridge)
      → Covers vs b.waiting
      → let after =
          take_signals engine request_id is_framed (map (λ w. request_timed_out w.id) vs) b in
        (after.waiting ≡ []) × (after.queue ≡ b.queue)
  unfolding take_signals take_signal settle_id
  timeouts-empty [] b c = (none_covered b.waiting c, refl)
    where
      none_covered : (ws : List Waiting) → Covers [] ws → ws ≡ []
      none_covered [] c = refl
      none_covered (w ∷ ws) (here, c) = cc
  timeouts-empty (v ∷ vs) b c =
      timeouts-empty vs (run_catches (settle_id v.id timed_out b)) (Covers-select v vs b.waiting c)

  no_calls : (n : ℕ) (ws : List Waiting) → calls n (map (λ w. request_timed_out w.id) ws) ≡ 0
  no_calls n [] = refl
  no_calls n (w ∷ ws) = no_calls n ws

  -- However the host page behaves, when the timeouts that are set have run, every call has settled, as
  -- often as it was made.
  pub timeouts_settle :
      (n : ℕ) (ss : List Signal)
      → let b = take_signals engine request_id is_framed ss idle in
        settlements n (take_signals engine request_id is_framed (timeouts b) b).settled ≡ calls n ss
  unfolding take_signals take_signal idle
  timeouts_settle n ss =
      let b = take_signals engine request_id is_framed ss idle in
      let late = take_signal engine request_id is_framed connection_timed_out b in
      let (queue, waiting) =
        fail_empties b.port b refl (take_signals-IsOrderly ss idle (inr refl)) in
      let (unheard, unqueued) =
        timeouts-empty b.waiting late (rw waiting (Covers-refl b.waiting)) in
      ground (
        arith,
        take_signals-load engine request_id is_framed n ss idle,
        take_signals-load engine request_id is_framed n (timeouts b) b,
        no_calls n b.waiting,
        ap (awaited n) unheard,
        ap (queued n) (unqueued ∙ queue),
      )
