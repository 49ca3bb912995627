-- ===== src/Bridge/Failure.antt =====
-- What a bridge of static/lnbits-extension-sdk.js does after its connection timed out.
use bananabreadwasm.Prelude.{◌∙◌, ℕ, ◌≡◌, refl, true, List, [], ◌∷◌, Option-cases, inl, inr}
use bananabreadwasm.Text.{Text}
use bananabreadwasm.Js.{Engine, Fields}
use bananabreadwasm.Bridge.{
  Port, closed, opened, failed, connecting, Request, Bridge, Signal, called, connected,
  connection_timed_out, response, request_timed_out, event, timed_out, settle, settle_id,
  bridge_request, take_signal, take_signals, handler_for, request_through, connect_through,
  fail_through,
}

module _ (engine : Engine) (request_id : ℕ → Text) where
  request-failed :
      (p : Port) (r : Request) (b : Bridge)
      → p ≡ failed
      → request_through engine request_id true p r b ≡ settle r.call timed_out b
  request-failed failed r b e = refl
  request-failed closed r b e = cc
  request-failed opened r b e = cc
  request-failed (connecting id) r b e = cc

  connect-failed :
      (p : Port) (id : Text) (b : Bridge)
      → p ≡ failed
      → connect_through engine request_id true p id b ≡ b
  connect-failed failed id b e = refl
  connect-failed closed id b e = refl
  connect-failed opened id b e = refl
  connect-failed (connecting awaited_id) id b e = cc

  fail-failed : (p : Port) (b : Bridge) → p ≡ failed → fail_through engine request_id true p b ≡ b
  fail-failed failed b e = refl
  fail-failed closed b e = refl
  fail-failed opened b e = refl
  fail-failed (connecting awaited_id) b e = cc

  failed_step :
      (s : Signal) (b : Bridge)
      → b.port ≡ failed
      → ((take_signal engine request_id true s b).port ≡ failed)
        × ((take_signal engine request_id true s b).posted ≡ b.posted)
  unfolding take_signal bridge_request settle settle_id
  failed_step (called call message) b e =
      rw (request-failed b.port (record { call = call; message = message }) b e) (e, refl)
  failed_step (connected id) b e = rw (connect-failed b.port id b e) (e, refl)
  failed_step connection_timed_out b e = rw (fail-failed b.port b e) (e, refl)
  failed_step (response id message) b e = (e, refl)
  failed_step (request_timed_out id) b e = (e, refl)
  failed_step (event id message) b e = elim (Option-cases (handler_for b.port id b.handlers)) [
    | inl unknown ↦ rw unknown (e, refl)
    | inr (callback, known) ↦ rw known (e, refl)
  ]

  -- A connection that timed out is never tried again: whatever comes later, also an answer to the
  -- connection, nothing is posted to the host page any more, and a call made then is rejected at once.
  pub failure_is_final :
      (ss : List Signal) (call : ℕ) (message : Fields) (b : Bridge)
      → b.port ≡ failed
      → let later = take_signals engine request_id true ss b in
        (later.posted ≡ b.posted)
        × (take_signal engine request_id true (called call message) later ≡ record later {
          settled = record { call = call; outcome = timed_out } ∷ later.settled;
        })
  unfolding take_signals take_signal bridge_request settle
  failure_is_final [] call message b e =
      (refl, request-failed b.port (record { call = call; message = message }) b e)
  failure_is_final (s ∷ ss) call message b e =
      let (port, posted) = failed_step s b e in
      let (quiet, refused) =
        failure_is_final ss call message (take_signal engine request_id true s b) port in
      (quiet ∙ posted, refused)
