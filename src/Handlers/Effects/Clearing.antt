-- ===== src/Handlers/Effects/Clearing.antt =====
-- The refunds that dev/src/index.js retries for a whole arena.
use bananabreadwasm.Prelude.{
  ◌≤◌, ◌<◌, ◌≡◌, refl, ◌∙◌, true, false, some, List, [], ◌∷◌, ◌++◌, All, All-map, any, arith,
  Bool-cases, inl, inr,
}
use bananabreadwasm.Text.{Text, codes, text_eq, text_eq_iff, text_eq_refl, is_empty}
use bananabreadwasm.Result.{Result, ok, Result-cases}
use bananabreadwasm.Js.{Value}
use bananabreadwasm.Rows.{Game, Player, is_failed}
use bananabreadwasm.Table.{Once}
use bananabreadwasm.Players.{or_number, in_game, players_for_game}
use bananabreadwasm.Players.Lookup.{players_for_game_complete}
use bananabreadwasm.Settlement.{
  Payout, answer_of, pay_player, apply_refund, refund_request, settlement_status,
}
use bananabreadwasm.Host.{Host, World, PayRequest, PayResponse, pay_lnurl}
use bananabreadwasm.Handlers.Retry.{
  Settlement, refund_settled, refund_only, RetryCall, Retried, retry_refund, retry_due_payout,
  retry_due_refund, retry_player, retry_players, retry_call, candidates_for,
  settle_bananabreadwasm_payout,
}
use bananabreadwasm.Handlers.Effects.Retrying.{retry_player-other, candidates_for-stored}
use bananabreadwasm.Safety.Loop.{retried_refund, retry_call-world, retry_call-candidates}
use bananabreadwasm.Account.Round.{IsStored}
use bananabreadwasm.Account.Loop.{retry_player-IsStored, candidates_for-Once}

-- There is something to refund, and somewhere to send it.
abbrev pub IsPayable : Player → Type 0
IsPayable p = (0 < or_number p.refund_amount p.paid_amount) × (is_empty p.ln_address ≡ false)

-- The wallet answers every request, and not with a failure.
abbrev pub IsWilling : Host → Type 0
IsWilling h =
    (past : List PayRequest) (r : PayRequest)
    → (x : PayResponse) × (h.pay past r ≡ ok x)
      × (is_failed (settlement_status (answer_of r.amount x)) ≡ false)

module _ (h : Host) where
  pay_player-willing :
      (r : PayRequest) (w : World h)
      → IsWilling h
      → 0 < r.amount
      → is_empty r.wallet_id ≡ false
      → is_empty r.lnurl ≡ false
      → (x : Payout) × (pay_player h r w ≡ (ok x, record w { payments = r ∷ w.payments }))
        × (is_failed (settlement_status x) ≡ false)
  unfolding pay_player pay_lnurl
  pay_player-willing r w willing some_sats purse address =
      let (x, answer, good) = willing w.payments r in
      (answer_of r.amount x, ground (arith, answer), good)

  -- The row of a player after a round that cleared it.
  abbrev IsCleared : Player → Result (List Settlement) × World h → Type 0
  IsCleared p (r, w) =
      (done : List Settlement) × (q : Player) × (r ≡ ok done)
      × (h.players.get p.id w.players ≡ some q)
      × (is_failed q.refund_status ≡ false)

  retry_refund-IsCleared :
      (game : Game) (p : Player) (w : World h)
      → IsWilling h
      → IsPayable p
      → is_empty game.wallet_id ≡ false
      → IsCleared p (retry_refund h game p p w)
  unfolding retry_refund refund_request apply_refund
  retry_refund-IsCleared game p w willing (some_sats, address) purse =
      let locked = retried_refund h p in
      let asked : World h = record w { players = h.players.set locked w.players } in
      let reason = codes "Retrying failed disconnect refund." in
      let (x, paid, good) =
        pay_player-willing (refund_request game locked reason) asked willing some_sats purse
          address in
      let stored =
        h.players.get_set p.id (apply_refund locked x) (h.players.set locked w.players) in
      (
        refund_settled p.id x ∷ [],
        apply_refund locked x,
        ground (arith, paid),
        ground (arith, paid, stored, text_eq_refl p.id),
        good,
      )

  retry_player-IsCleared :
      (game : Game) (p : Player) (w : World h)
      → IsWilling h
      → IsPayable p
      → is_empty game.wallet_id ≡ false
      → IsStored h w p
      → IsCleared p (retry_player h refund_only game p w)
  unfolding retry_player retry_due_payout retry_due_refund
  retry_player-IsCleared game p w willing payable purse stored =
      elim (Bool-cases (is_failed p.refund_status)) [
        | inl due ↦
            let (done, q, returned, found, good) =
              retry_refund-IsCleared game p w willing payable purse in
            (
              done,
              q,
              ground (arith, stored, returned),
              ground (arith, stored, returned, found),
              good,
            )
        | inr clear ↦ ([], p, ground (arith, stored), ground (arith, stored), clear)
      ]

  -- The rows of the others are as they were.
  retry_players-others :
      (i : Text) (game : Game) (ps : List Player) (w : World h)
      → any (λ x. text_eq x.id i) ps ≡ false
      → h.players.get i (retry_players h refund_only game ps w).1.players
        ≡ h.players.get i w.players
  unfolding retry_players
  retry_players-others i game [] w apart = refl
  retry_players-others i game (p ∷ ps) w apart =
      let w1 = (retry_player h refund_only game p w).1 in
      let kept = retry_player-other h i refund_only game p w (ground arith) in
      elim (Result-cases (retry_player h refund_only game p w).0) [
        | inl (e, threw) ↦
            let same : (retry_players h refund_only game (p ∷ ps) w).1 ≡ w1 = ground arith in
            rw same kept
        | inr (done, returned) ↦
            let same : (retry_players h refund_only game (p ∷ ps) w).1
                ≡ (retry_players h refund_only game ps w1).1 =
              ground arith in
            rw same (retry_players-others i game ps w1 (ground arith) ∙ kept)
      ]

  -- The call gets through its candidates, and none of them has a failed refund afterwards.
  retry_players-clear :
      (i : Text) (q : Player) (game : Game) (ps : List Player) (w : World h)
      → IsWilling h
      → is_empty game.wallet_id ≡ false
      → All IsPayable ps
      → All (IsStored h w) ps
      → Once (λ p. p.id) ps
      → ((done : List Settlement) × ((retry_players h refund_only game ps w).0 ≡ ok done))
        × (any (λ x. text_eq x.id i) ps ≡ true
            → h.players.get i (retry_players h refund_only game ps w).1.players ≡ some q
            → is_failed q.refund_status ≡ false)
  unfolding retry_players
  retry_players-clear i q game [] w willing purse payable rows once = (([], refl), λ e found. cc)
  retry_players-clear i q game (p ∷ ps) w willing purse (payable, others) (stored, rows)
        (apart, once) =
      let w1 = (retry_player h refund_only game p w).1 in
      let (done, own, returned, found, good) =
        retry_player-IsCleared game p w willing payable purse stored in
      let still = retry_player-IsStored h refund_only game p ps w apart rows in
      let ((rest, finished), later) =
        retry_players-clear i q game ps w1 willing purse others still once in
      let same : (retry_players h refund_only game (p ∷ ps) w).1
          ≡ (retry_players h refund_only game ps w1).1 =
        ground (arith, returned) in
      (
        (done ++ rest, ground (arith, returned, finished)),
        λ among final. elim (Bool-cases (any (λ x. text_eq x.id i) ps)) [
          | inl there ↦ later there (rw (← same) final)
          | inr alone ↦ ground (
            arith,
            same,
            final,
            good,
            found,
            text_eq_iff p.id i,
            retry_players-others i game ps w1 alone,
          )
        ],
      )

  candidates-IsPayable :
      (ps : List Player) (w : World h)
      → ((j : Text) (p : Player) → h.players.get j w.players ≡ some p → IsPayable p)
      → All (IsStored h w) ps
      → All IsPayable ps
  candidates-IsPayable ps w payable rows =
      All-map (IsStored h w) IsPayable (λ p stored. payable p.id p stored) ps rows

  everyone :
      (c : RetryCall) (w w' : World h)
      → candidates_for h c.game c.player_id w ≡ (ok c.candidates, w')
      → is_empty c.player_id ≡ true
      → c.candidates ≡ players_for_game h c.game.id 100 w
  unfolding candidates_for
  everyone c w w' listed all_of_them = ground arith

  -- If the wallet answers every request and never with a failure, a call that retries the refunds of
  -- an arena with a wallet and at most a hundred players returns, and afterwards no player of the arena
  -- has a refund that failed. Every stored player must have a stake and an address.
  pub refunds_clear :
      (input : Value) (c : RetryCall) (i : Text) (q : Player) (w w' : World h)
      → retry_call h input w ≡ (ok c, w')
      → c.kind ≡ refund_only
      → is_empty c.player_id ≡ true
      → IsWilling h
      → is_empty c.game.wallet_id ≡ false
      → h.players.count (in_game c.game.id) w.players ≤ 100
      → ((j : Text) (p : Player) → h.players.get j w.players ≡ some p → IsPayable p)
      → h.players.get i (settle_bananabreadwasm_payout h input w).1.players ≡ some q
      → q.game_id ≡ c.game.id
      → ((reply : Retried) × ((settle_bananabreadwasm_payout h input w).0 ≡ ok reply))
        × (is_failed q.refund_status ≡ false)
  unfolding settle_bananabreadwasm_payout
  refunds_clear input c i q w w' read kind whole willing purse few payable final home =
      let called : retry_call h input w ≡ (ok c, w) =
        ground (arith, read, retry_call-world h input w) in
      let listed = retry_call-candidates h input w w c called in
      let rows = candidates_for-stored h c.game c.player_id w w c.candidates listed in
      let once = candidates_for-Once h c.game c.player_id w w c.candidates listed in
      let ((done, returned), clear) =
        retry_players-clear i q c.game c.candidates w willing purse
          (candidates-IsPayable c.candidates w payable rows) rows once in
      let same : (settle_bananabreadwasm_payout h input w).1
          ≡ (retry_players h refund_only c.game c.candidates w).1 =
        ground (arith, called, kind, returned) in
      let replied : (reply : Retried) × ((settle_bananabreadwasm_payout h input w).0 ≡ ok reply) =
        elim (Result-cases (settle_bananabreadwasm_payout h input w).0) [
          | inl (e, threw) ↦ absurd (ground (arith, called, kind, returned))
          | inr found ↦ found
        ] in
      (
        replied,
        elim (Bool-cases (any (λ x. text_eq x.id i) c.candidates)) [
          | inl among ↦ clear among (rw (← same) final)
          | inr apart ↦
              let kept = retry_players-others i c.game c.candidates w apart in
              let before : h.players.get i w.players ≡ some q = ground (arith, same, kept, final) in
              let here : in_game c.game.id q ≡ true = rw home (text_eq_refl c.game.id) in
              let there : any (λ x. text_eq x.id i) c.candidates ≡ true =
                rw (everyone c w w listed whole)
                  (players_for_game_complete h c.game.id i 100 w q few before here) in
              absurd (ground (arith, apart, there))
        ],
      )
