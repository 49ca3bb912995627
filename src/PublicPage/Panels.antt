-- ===== src/PublicPage/Panels.antt =====
-- The panel that static/public.js shows, and the player that it holds.
use bananabreadwasm.Prelude.{
  ◌≡◌, refl, ◌≢◌, true, ◌||◌, Option, none, some, List, [], ◌∷◌, arith, All, Bool-cases,
  Option-cases, inl, inr,
}
use bananabreadwasm.Text.{Text, codes, is_empty, or_text}
use bananabreadwasm.Js.{Engine}
use bananabreadwasm.Rows.{is_alive, is_dead}
use bananabreadwasm.Views.{PublicPlayer}
use bananabreadwasm.PublicPage.{
  Panel, join, invoice, admitted, settled, Response, Page, url_of, has_left, render_player,
  take_answer, render_entry,
}
use bananabreadwasm.PublicPage.Events.{
  Event, Visit, step, steps, context_known, session_read, token_saved, first_refreshed, call_failed,
  poll_ticked, payment_seen, refresh_answered, join_submitted, join_answered, join_saved,
  join_failed, join_recovered, subscribed, subscribe_failed, play_again_clicked, copy_clicked,
  copied, copy_failed, page_hidden,
}

-- The admitted panel is for a live player, and its link is that player's; the settled panel is for a
-- player that is dead or has left.
abbrev pub FitsPanel : Panel → Option PublicPlayer → Text → Type 0
FitsPanel admitted (some p) href =
    (is_alive p.status ≡ true) × (href ≡ or_text (url_of p.enter_url) (codes "#"))
FitsPanel admitted none href = ⊥
FitsPanel settled (some p) href = is_dead p.status || has_left p.status ≡ true
FitsPanel settled none href = ⊥
FitsPanel invoice p href = Unit
FitsPanel join p href = Unit

abbrev pub IsFitting : Page → Type 0
IsFitting s = FitsPanel s.elements.panel s.player s.elements.enter_href

-- An answer names its arena, as every answer of the extension does.
abbrev pub NamesArena : Event → Type 0
NamesArena (refresh_answered r) = r.game ≢ none
NamesArena _ = Unit

render_entry-IsFitting : (s : Page) → IsFitting (render_entry s)
unfolding render_entry
render_entry-IsFitting s = elim (Bool-cases (is_empty s.payment_request)) [
  | inl none_asked ↦ rw none_asked tt
  | inr asked ↦ rw asked tt
]

module _ (engine : Engine) where
  render_player-IsFitting :
      (o : Option PublicPlayer) (s : Page) → s.player ≡ o → IsFitting (render_player engine o s)
  unfolding render_player
  render_player-IsFitting none s e = ground (arith, render_entry-IsFitting s)
  render_player-IsFitting (some p) s e = ground arith

  pub take_answer-IsFitting :
      (r : Response) (s : Page) → r.game ≢ none → IsFitting (take_answer engine r s)
  unfolding take_answer
  take_answer-IsFitting r s named = elim (Option-cases r.game) [
    | inl missing ↦ absurd (named missing)
    | inr (game, found) ↦ rw found (render_player-IsFitting r.player _ refl)
  ]

  module _ (qr_data_uri : Text → Text) where
    step-IsFitting :
        (e : Event) (v : Visit)
        → NamesArena e
        → IsFitting v.page
        → IsFitting (step engine qr_data_uri e v).page
    unfolding step
    step-IsFitting (context_known i) v n f = ground arith
    step-IsFitting (session_read q t) v n f = ground arith
    step-IsFitting token_saved v n f = f
    step-IsFitting first_refreshed v n f = f
    step-IsFitting (call_failed m) v n f = f
    step-IsFitting poll_ticked v n f = f
    step-IsFitting payment_seen v n f = f
    step-IsFitting (refresh_answered r) v n f = take_answer-IsFitting r v.page n
    step-IsFitting (join_submitted i a) v n f = f
    step-IsFitting (join_answered r) v n f = ground arith
    step-IsFitting (join_saved i) v n f = elim (Option-cases v.page.payment_unsubscribe) [
      | inl no_old ↦ rw no_old tt
      | inr (old, e) ↦ rw e tt
    ]
    step-IsFitting (join_failed m) v n f = f
    step-IsFitting (join_recovered m) v n f = f
    step-IsFitting (subscribed i) v n f = f
    step-IsFitting subscribe_failed v n f = f
    step-IsFitting play_again_clicked v n f = tt
    step-IsFitting copy_clicked v n f = ground arith
    step-IsFitting copied v n f = f
    step-IsFitting copy_failed v n f = f
    step-IsFitting page_hidden v n f = ground arith

    -- Whatever events come, in whatever order, the panel of the page fits its player: the admitted panel
    -- is shown for a live player only, with the link of that player, and the settled panel only for one
    -- that is dead or has left. Every answer is assumed to name its arena.
    pub steps-IsFitting :
        (es : List Event) (v : Visit)
        → All NamesArena es
        → IsFitting v.page
        → IsFitting (steps engine qr_data_uri es v).page
    unfolding steps
    steps-IsFitting [] v n f = f
    steps-IsFitting (e ∷ es) v (n, ns) f =
        steps-IsFitting es (step engine qr_data_uri e v) ns (step-IsFitting e v n f)
