-- ===== src/Account/Loop.antt =====
-- Stakes through the rounds of a retry in dev/src/index.js, for the rows of one page.
use bananabreadwasm.Prelude.{
  ◌<◌, ◌≡◌, refl, ◌∙◌, false, some, List, [], ◌∷◌, All, any, arith, Bool-cases, inl, inr,
}
use bananabreadwasm.Text.{Text, text_eq, text_eq_iff, is_empty}
use bananabreadwasm.Result.{ok, Result-cases}
use bananabreadwasm.Js.{Value, str}
use bananabreadwasm.Rows.{Game, Player}
use bananabreadwasm.Table.{Once}
use bananabreadwasm.Players.{players_for_game, require_player_id, get_game, by_paid_at, in_game}
use bananabreadwasm.Host.{Host, World}
use bananabreadwasm.Handlers.Retry.{
  Kind, RetryCall, retry_call, candidates_for, retry_player, retry_players,
  settle_bananabreadwasm_payout,
}
use bananabreadwasm.Handlers.Effects.Retrying.{retry_player-other, candidates_for-stored}
use bananabreadwasm.Safety.{IsSafe}
use bananabreadwasm.Safety.Loop.{retry_player-IsSafe, retry_call-world, retry_call-candidates}
use bananabreadwasm.Account.{IsFunded}
use bananabreadwasm.Account.Around.{Step, Step-trans}
use bananabreadwasm.Account.Round.{IsStored, retry_player-Step}

module _ (h : Host) where
  -- The rows after a round are stored as before, if none of them is the round's own.
  pub retry_player-IsStored :
      (kind : Kind) (game : Game) (p : Player) (ps : List Player) (w : World h)
      → any (λ x. text_eq x.id p.id) ps ≡ false
      → All (IsStored h w) ps
      → All (IsStored h (retry_player h kind game p w).1) ps
  retry_player-IsStored kind game p [] w apart rows = tt
  retry_player-IsStored kind game p (q ∷ qs) w apart (stored, rows) =
      let other : text_eq p.id q.id ≡ false =
        ground (arith, text_eq_iff p.id q.id, text_eq_iff q.id p.id) in
      (
        retry_player-other h q.id kind game p w other ∙ stored,
        retry_player-IsStored kind game p qs w (ground arith) rows,
      )

  retry_players-Step :
      (kind : Kind) (game : Game) (ps : List Player) (w : World h)
      → All (IsStored h w) ps
      → Once (λ p. p.id) ps
      → IsSafe w
      → 0 < game.join_amount
      → IsFunded h w
      → Step h 0 w (retry_players h kind game ps w).1
  unfolding retry_players
  retry_players-Step kind game [] w rows once s price f = (omega arith, f)
  retry_players-Step kind game (p ∷ ps) w (stored, rows) (apart, once) s price f =
      let w1 = (retry_player h kind game p w).1 in
      let first = retry_player-Step h kind game p w stored s price f in
      elim (Result-cases (retry_player h kind game p w).0) [
        | inl (e, threw) ↦
            let same : (retry_players h kind game (p ∷ ps) w).1 ≡ w1 = ground arith in rw same first
        | inr (done, returned) ↦
            let same : (retry_players h kind game (p ∷ ps) w).1
                ≡ (retry_players h kind game ps w1).1 =
              ground arith in
            let s1 = retry_player-IsSafe h kind game p w (s.consistent p.id p stored) s in
            rw same (
              Step-trans h 0 0 w w1 (retry_players h kind game ps w1).1 first (
                retry_players-Step kind game ps w1
                  (retry_player-IsStored kind game p ps w apart rows) once s1 price first.1))
      ]

  pub candidates_for-Once :
      (game : Game) (j : Text) (w w' : World h) (ps : List Player)
      → candidates_for h game j w ≡ (ok ps, w')
      → Once (λ p. p.id) ps
  unfolding candidates_for players_for_game
  candidates_for-Once game j w w' ps e = elim (Bool-cases (is_empty j)) [
    | inl everyone ↦
        let query = by_paid_at (in_game game.id) 100 in
        let same : ps ≡ h.players.page query w.players = ground arith in
        rw same (h.players.page_once query w.players)
    | inr one ↦ elim (Result-cases (require_player_id h game.id (str j) "playerId" w).0) [
      | inl (x, threw) ↦ absurd (ground arith)
      | inr (p, read) ↦ let same : ps ≡ p ∷ [] = ground arith in rw same (refl, tt)
    ]
  ]

  retry_call-arena :
      (input : Value) (w w' : World h) (c : RetryCall)
      → retry_call h input w ≡ (ok c, w')
      → h.games.get c.game.id w.games ≡ some c.game
  unfolding retry_call get_game
  retry_call-arena input w w' c e = grind (arith, h.games.get_key)

  pub settle_bananabreadwasm_payout-Step :
      (input : Value) (w : World h)
      → IsSafe w
      → IsFunded h w
      → Step h 0 w (settle_bananabreadwasm_payout h input w).1
  unfolding settle_bananabreadwasm_payout
  settle_bananabreadwasm_payout-Step input w s f = elim (Result-cases (retry_call h input w).0) [
    | inl (x, threw) ↦
        let same : (settle_bananabreadwasm_payout h input w).1 ≡ w =
          ground (arith, retry_call-world h input w) in
        rw same (omega arith, f)
    | inr (c, read) ↦
        let called : retry_call h input w ≡ (ok c, w) =
          ground (arith, retry_call-world h input w) in
        let same : (settle_bananabreadwasm_payout h input w).1
            ≡ (retry_players h c.kind c.game c.candidates w).1 =
          ground arith in
        let listed = retry_call-candidates h input w w c called in
        let arena = retry_call-arena input w w c called in
        rw same (
          retry_players-Step c.kind c.game c.candidates w
            (candidates_for-stored h c.game c.player_id w w c.candidates listed)
            (candidates_for-Once c.game c.player_id w w c.candidates listed) s
            (f.priced c.game.id c.game arena) f)
  ]
