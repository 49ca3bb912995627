-- ===== src/Handlers/Effects/Resolving.antt =====
-- A failed refund that is tried again, in dev/src/index.js.
use bananabreadwasm.Prelude.{◌≡◌, refl, ◌∙◌, ap, true, false, some, [], ◌∷◌, ◌<◌, arith}
use bananabreadwasm.Text.{codes, text_eq_refl, is_empty}
use bananabreadwasm.Result.{ok}
use bananabreadwasm.Js.{Value}
use bananabreadwasm.Rows.{Game, Player, is_failed}
use bananabreadwasm.Settlement.{
  pay_player, refund_request, answer_of, apply_refund, settlement_counts,
}
use bananabreadwasm.Host.{Host, World, PayRequest, PayResponse, pay_lnurl}
use bananabreadwasm.Handlers.Retry.{
  RetryCall, Retried, refund_settled, retry_call, retries_refunds, retry_due_payout,
  retry_due_refund, retry_refund, retry_player, retry_players, settle_bananabreadwasm_payout,
}
use bananabreadwasm.Safety.Loop.{retried_refund}

module _ (h : Host) where
  abbrev pub retry_request : Game → Player → PayRequest
  retry_request game p =
      refund_request game (retried_refund h p) (codes "Retrying failed disconnect refund.")

  retry_refund-answered :
      (game : Game) (p : Player) (r : PayResponse) (w : World h)
      → let asked = retry_request game p in
        0 < asked.amount
        → is_empty asked.wallet_id ≡ false
        → is_empty asked.lnurl ≡ false
        → h.pay w.payments asked ≡ ok r
        → retry_refund h game p p w ≡ (
          ok (refund_settled p.id (answer_of asked.amount r) ∷ []),
          record w {
            players =
                h.players.set
                  (apply_refund (retried_refund h p) (answer_of asked.amount r))
                  (h.players.set (retried_refund h p) w.players);
            payments = asked ∷ w.payments;
          },
        )
  unfolding retry_refund pay_player pay_lnurl
  retry_refund-answered game p r w some_sats purse address paid = ground arith

  due_round :
      (c : RetryCall) (p : Player) (r : PayResponse) (w : World h)
      → let asked = retry_request c.game p in
        let row = apply_refund (retried_refund h p) (answer_of asked.amount r) in
        retries_refunds c.kind ≡ true
        → is_failed p.payout_status ≡ false
        → is_failed p.refund_status ≡ true
        → h.players.get p.id w.players ≡ some p
        → 0 < asked.amount
        → is_empty asked.wallet_id ≡ false
        → is_empty asked.lnurl ≡ false
        → h.pay w.payments asked ≡ ok r
        → retry_players h c.kind c.game (p ∷ []) w ≡ (
          ok (refund_settled p.id (answer_of asked.amount r) ∷ []),
          record w {
            players = h.players.set row (h.players.set (retried_refund h p) w.players);
            payments = asked ∷ w.payments;
          },
        )
  unfolding retry_players retry_player retry_due_payout retry_due_refund
  due_round c p r w refunds unpaid due stored some_sats purse address paid =
      ground (arith, retry_refund-answered c.game p r w some_sats purse address paid)

  -- The retry of one stored player whose refund failed, and whose reward did not, asks the wallet for
  -- the refund once. If the wallet answers, the call returns that refund alone, and the row has the
  -- status that the answer gives it: left and paid, or pending, or failed again.
  refund_retried :
      (input : Value) (c : RetryCall) (p : Player) (r : PayResponse) (w : World h)
      → retry_call h input w ≡ (ok c, w)
      → c.candidates ≡ p ∷ []
      → retries_refunds c.kind ≡ true
      → is_failed p.payout_status ≡ false
      → is_failed p.refund_status ≡ true
      → h.players.get p.id w.players ≡ some p
      → 0 < (retry_request c.game p).amount
      → is_empty (retry_request c.game p).wallet_id ≡ false
      → is_empty (retry_request c.game p).lnurl ≡ false
      → h.pay w.payments (retry_request c.game p) ≡ ok r
      → let after = settle_bananabreadwasm_payout h input w in
        let refund = answer_of (retry_request c.game p).amount r in
        (x : Retried) × (after.0 ≡ ok x)
        × (x.settlements ≡ refund_settled p.id refund ∷ [])
        × (h.players.get p.id after.1.players ≡ some (apply_refund (retried_refund h p) refund))
        × (after.1.payments ≡ retry_request c.game p ∷ w.payments)
  unfolding settle_bananabreadwasm_payout apply_refund
  refund_retried input c p r w called one refunds unpaid due stored some_sats purse address paid =
      let refund = answer_of (retry_request c.game p).amount r in
      let row : Player = apply_refund (retried_refund h p) refund in
      let round = due_round c p r w refunds unpaid due stored some_sats purse address paid in
      let locked = h.players.set (retried_refund h p) w.players in
      let kept : h.players.get p.id (h.players.set row locked) ≡ some row =
        h.players.get_set p.id row locked ∙ rw (text_eq_refl p.id) refl in
      let w2 : World h = record w {
        players = h.players.set row locked;
        payments = retry_request c.game p ∷ w.payments;
      } in
      let looped : retry_players h c.kind c.game c.candidates w
          ≡ (ok (refund_settled p.id refund ∷ []), w2) =
        ap (λ cs. retry_players h c.kind c.game cs w) one ∙ round in
      let x : Retried = record {
        settled = true;
        settlements = refund_settled p.id refund ∷ [];
        unresolved_count = (settlement_counts h c.game.id w2).unresolved;
      } in
      let whole : settle_bananabreadwasm_payout h input w ≡ (ok x, w2) =
        ground (arith, called, looped) in
      (
        x,
        ap (λ t. t.0) whole,
        refl,
        ap (λ t. h.players.get p.id t.1.players) whole ∙ kept,
        ap (λ t. t.1.payments) whole,
      )
