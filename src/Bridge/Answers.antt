-- ===== src/Bridge/Answers.antt =====
-- Which calls an answer over the bridge of static/lnbits-extension-sdk.js settles.
pub mod Listeners
use bananabreadwasm.Prelude.{
  ℕ, suc, ◌+◌, ◌≤◌, ◌<◌, ◌≡◌, refl, ap, ◌∙◌, Bool, true, false, not, List, [], ◌∷◌, ◌++◌, All,
  All-map, length, select, arith, Bool-cases, Option-cases, inl, inr,
}
use bananabreadwasm.Text.{Text, text_eq, text_eq_iff}
use bananabreadwasm.Js.{Engine, Fields}
use bananabreadwasm.Bridge.{
  Handler, is_rejected, drop_rejected, run_catches, Outcome, Port, closed, opened, failed,
  connecting, Request, Waiting, Settled, Bridge, idle, Signal, called, connected,
  connection_timed_out, response, request_timed_out, event, timed_out, settle, reject_queue,
  settle_waiting, settle_id, send, send_all, bridge_request, take_signal, take_signals, handler_for,
  request_through, connect_through, fail_through, outcome_of,
}
use bananabreadwasm.Bridge.Answers.Listeners.{
  hit, listeners, listeners-append, listeners-select, All-select, All-append, length-settle_waiting,
  settle_waiting-select, select_twice, reject_queue-parts,
}

drop_twice :
    (settled : List Settled) (xs : List Handler)
    → drop_rejected settled (drop_rejected settled xs) ≡ drop_rejected settled xs
unfolding drop_rejected
drop_twice settled [] = refl
drop_twice settled (x ∷ xs) = elim (Bool-cases (is_rejected x.call settled)) [
  | inl gone ↦ rw gone (drop_twice settled xs)
  | inr kept ↦ rw kept (rw kept (ap (λ ys. x ∷ ys) (drop_twice settled xs)))
]

catches_twice : (b : Bridge) → run_catches (run_catches b) ≡ run_catches b
catches_twice b = rw (drop_twice b.settled b.handlers) refl

module _ (engine : Engine) (request_id : ℕ → Text) (is_framed : Bool)
    (unique : (i j : ℕ) → request_id i ≡ request_id j → i ≡ j) where
  abbrev IsDrawn : ℕ → Waiting → Type 0
  IsDrawn n w = (k : ℕ) × (k < n) × (w.id ≡ request_id k)

  -- The listeners have ids that were drawn, and no two the same.
  abbrev IsDistinct : ℕ → List Waiting → Type 0
  IsDistinct n ws = All (IsDrawn n) ws × ((id : Text) → listeners id ws ≤ 1)

  later-IsDrawn : (n : ℕ) (ws : List Waiting) → All (IsDrawn n) ws → All (IsDrawn (suc n)) ws
  later-IsDrawn n ws a =
      All-map (IsDrawn n) (IsDrawn (suc n)) (λ w (k, below, e). (k, omega arith, e)) ws a

  unheard : (n : ℕ) (ws : List Waiting) → All (IsDrawn n) ws → listeners (request_id n) ws ≡ 0
  unheard n [] a = refl
  unheard n (w ∷ ws) ((k, below, e), a) =
      ground (arith, unheard n ws a, text_eq_iff w.id (request_id n), unique k n)

  send-IsDistinct :
      (r : Request) (b : Bridge)
      → IsDistinct b.ids b.waiting
      → let after = send engine request_id is_framed r b in IsDistinct after.ids after.waiting
  unfolding send
  send-IsDistinct r b (drawn, single) =
      let listener : Waiting = record { id = request_id b.ids; call = r.call } in
      (
        All-append (IsDrawn (suc b.ids)) b.waiting listener (later-IsDrawn b.ids b.waiting drawn)
            (b.ids, omega arith, refl),
        λ id. ground (
          arith,
          listeners-append id b.waiting (listener ∷ []),
          single id,
          unheard b.ids b.waiting drawn,
          text_eq_iff (request_id b.ids) id,
        ),
      )

  send_all-IsDistinct :
      (rs : List Request) (b : Bridge)
      → IsDistinct b.ids b.waiting
      → let after = send_all engine request_id is_framed rs b in IsDistinct after.ids after.waiting
  unfolding send_all
  send_all-IsDistinct [] b d = d
  send_all-IsDistinct (r ∷ rs) b d =
      send_all-IsDistinct rs (send engine request_id is_framed r b) (send-IsDistinct r b d)

  request-IsDistinct :
      (p : Port) (r : Request) (b : Bridge)
      → IsDistinct b.ids b.waiting
      → let after = request_through engine request_id is_framed p r b in
        IsDistinct after.ids after.waiting
  unfolding settle
  request-IsDistinct closed r b (drawn, single) = (later-IsDrawn b.ids b.waiting drawn, single)
  request-IsDistinct (connecting id) r b d = d
  request-IsDistinct opened r b d = send-IsDistinct r b d
  request-IsDistinct failed r b d = d

  connect-IsDistinct :
      (p : Port) (id : Text) (b : Bridge)
      → IsDistinct b.ids b.waiting
      → let after = connect_through engine request_id is_framed p id b in
        IsDistinct after.ids after.waiting
  connect-IsDistinct (connecting awaited) id b d = elim (Bool-cases (text_eq id awaited)) [
    | inl ours ↦ rw ours (send_all-IsDistinct b.queue (record b { port = opened; queue = [] }) d)
    | inr other ↦ rw other d
  ]
  connect-IsDistinct closed id b d = d
  connect-IsDistinct opened id b d = d
  connect-IsDistinct failed id b d = d

  fail-IsDistinct :
      (p : Port) (b : Bridge)
      → IsDistinct b.ids b.waiting
      → let after = fail_through engine request_id is_framed p b in
        IsDistinct after.ids after.waiting
  fail-IsDistinct (connecting awaited) b d =
      let (waiting, ids) = reject_queue-parts b.queue (record b { port = failed; queue = [] }) in
      rw (waiting, ids) d
  fail-IsDistinct closed b d = d
  fail-IsDistinct opened b d = d
  fail-IsDistinct failed b d = d

  settle_id-IsDistinct :
      (id : Text) (o : Outcome) (b : Bridge)
      → IsDistinct b.ids b.waiting
      → let after = settle_id id o b in IsDistinct after.ids after.waiting
  unfolding settle_id
  settle_id-IsDistinct id o b (drawn, single) =
      let other : Waiting → Bool = λ w. not (text_eq w.id id) in
      (
        All-select (IsDrawn b.ids) other b.waiting drawn,
        λ i. omega (arith, listeners-select i other b.waiting, single i),
      )

  take_signal-IsDistinct :
      (s : Signal) (b : Bridge)
      → IsDistinct b.ids b.waiting
      → let after = take_signal engine request_id is_framed s b in
        IsDistinct after.ids after.waiting
  unfolding take_signal bridge_request settle
  take_signal-IsDistinct (called call message) b d = elim (Bool-cases is_framed) [
    | inl framed ↦
        rw framed (request-IsDistinct b.port (record { call = call; message = message }) b d)
    | inr alone ↦ rw alone d
  ]
  take_signal-IsDistinct (connected id) b d = connect-IsDistinct b.port id b d
  take_signal-IsDistinct connection_timed_out b d = fail-IsDistinct b.port b d
  take_signal-IsDistinct (response id message) b d = settle_id-IsDistinct id timed_out b d
  take_signal-IsDistinct (request_timed_out id) b d = settle_id-IsDistinct id timed_out b d
  take_signal-IsDistinct (event id message) b d =
      elim (Option-cases (handler_for b.port id b.handlers)) [
        | inl unknown ↦ rw unknown d
        | inr (callback, known) ↦ rw known d
      ]

  take_signals-IsDistinct :
      (ss : List Signal) (b : Bridge)
      → IsDistinct b.ids b.waiting
      → let after = take_signals engine request_id is_framed ss b in
        IsDistinct after.ids after.waiting
  unfolding take_signals
  take_signals-IsDistinct [] b d = d
  take_signals-IsDistinct (s ∷ ss) b d =
      take_signals-IsDistinct ss (take_signal engine request_id is_framed s b)
        (take_signal-IsDistinct s b d)

  -- If no two ids that are drawn are the same, an answer settles at most one call, whatever came over
  -- the port before, and a second answer with its id changes nothing.
  pub one_answer_settles :
      (ss : List Signal) (id : Text) (message again : Fields)
      → let b = take_signals engine request_id is_framed ss idle in
        let after = take_signal engine request_id is_framed (response id message) b in
        (length after.settled ≤ suc (length b.settled))
        × (take_signal engine request_id is_framed (response id again) after ≡ after)
  unfolding take_signal settle_id idle
  one_answer_settles ss id message again =
      let outcome : Fields → Outcome = outcome_of engine request_id is_framed in
      let b = take_signals engine request_id is_framed ss idle in
      let after = take_signal engine request_id is_framed (response id message) b in
      let (_, single) = take_signals-IsDistinct ss idle (tt, λ i. omega arith) in
      let same : settle_id id (outcome again) after ≡ after =
        rw
          (
            select_twice id b.waiting,
            settle_waiting-select id (outcome again) b.waiting after.settled,
          )
          refl in
      (
        omega (arith, length-settle_waiting id (outcome message) b.waiting b.settled, single id),
        ap run_catches same ∙ catches_twice (settle_id id (outcome message) b),
      )
