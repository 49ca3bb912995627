-- ===== src/PublicPage/Races.antt =====
-- Answers of static/public.js that come late: to a poll that was sent before the visitor acted.
use bananabreadwasm.Prelude.{◌≡◌, refl, true, false, not, none, some, List, [], ◌∷◌, arith}
use bananabreadwasm.Text.{Text}
use bananabreadwasm.Js.{Engine}
use bananabreadwasm.Views.{PublicGame}
use bananabreadwasm.PublicPage.{join, Response, Page, render_player, take_answer, clear_error}
use bananabreadwasm.PublicPage.Events.{
  Asked, public_game, join_game, Visit, show_join, step, steps, poll_ticked, refresh_answered,
  join_submitted, play_again_clicked,
}

-- An answer for an arena in which the visitor's token names no player.
abbrev pub IsVacant : Response → PublicGame → Type 0
IsVacant r game = (r.game ≡ some game) × (r.player ≡ none)

module _ (engine : Engine) where
  -- What such an answer shows to a visitor with no invoice.
  pub take_answer-vacant :
      (r : Response) (game : PublicGame) (s : Page)
      → IsVacant r game
      → s.payment_request ≡ []
      → let after = take_answer engine r s in
        (after.elements.panel ≡ join)
        × (after.elements.join_disabled ≡ not r.can_join)
        × (after.can_join ≡ r.can_join)
        × (after.player ≡ none)
        × (after.payment_request ≡ [])
        × (after.player_token ≡ s.player_token)
  unfolding take_answer
  take_answer-vacant r game s (named, vacant) e = rw (named, vacant) (ground arith)

  take_answer-token :
      (r : Response) (s : Page)
      → ((take_answer engine r s).player_token ≡ s.player_token)
        × ((take_answer engine r s).game_id ≡ s.game_id)
        × ((take_answer engine r s).payment_request ≡ s.payment_request)
  unfolding take_answer render_player
  take_answer-token r s = ground arith

  module _ (qr_data_uri : Text → Text) where
    -- When the visitor plays again, an answer to a poll that was sent before may still show the old
    -- player. The next poll asks with no token, and if its answer has no player the visitor is back at
    -- the join panel, whatever the late answer was, with the button enabled exactly if the arena is open.
    pub play_again_returns :
        (late r : Response) (game : PublicGame) (v : Visit)
        → IsVacant r game
        → let polled =
            steps engine qr_data_uri
              (play_again_clicked ∷ refresh_answered late ∷ poll_ticked ∷ [])
              v in
          let after = step engine qr_data_uri (refresh_answered r) polled in
          (rest : List Asked) × (polled.asked ≡ public_game v.page.game_id [] ∷ rest)
          × (after.page.elements.panel ≡ join)
          × (after.page.player ≡ none)
          × (after.page.elements.join_disabled ≡ not r.can_join)
    unfolding step steps
    play_again_returns late r game v vacant =
        let shown = show_join v in
        let (token, arena, request) = take_answer-token late shown.page in
        let back : Page = clear_error (take_answer engine late shown.page) in
        let (panel, off, _, gone, _, _) = take_answer-vacant r game back vacant request in
        (shown.asked, ground (arith, token, arena), panel, gone, off)

    -- While a join is in flight its button is disabled, until a poll of an open arena is answered: from
    -- then on a second submission asks for a second invoice.
    pub join_twice :
        (r : Response) (game : PublicGame) (name ln_address : Text) (v : Visit)
        → IsVacant r game
        → v.page.payment_request ≡ []
        → r.can_join ≡ true
        → let sent = step engine qr_data_uri (join_submitted name ln_address) v in
          let polled = step engine qr_data_uri (refresh_answered r) sent in
          (sent.page.elements.join_disabled ≡ true)
          × (polled.page.elements.join_disabled ≡ false)
          × ((step engine qr_data_uri (join_submitted name ln_address) polled).asked
              ≡ join_game v.page.game_id name ln_address
                ∷ join_game v.page.game_id name ln_address
                ∷ v.asked)
    unfolding step
    join_twice r game name ln_address v vacant no_invoice is_open =
        let sent = step engine qr_data_uri (join_submitted name ln_address) v in
        let (panel, off, _, _, _, _) = take_answer-vacant r game sent.page vacant no_invoice in
        let (token, arena, request) = take_answer-token r sent.page in
        (refl, ground arith, ground arith)
