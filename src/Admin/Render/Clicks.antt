-- ===== src/Admin/Render/Clicks.antt =====
-- What the owner's page, static/admin.js, lets its owner click.
use bananabreadwasm.Prelude.{
  ℕ, ◌≡◌, refl, Bool, true, false, not, ◌&&◌, Option, none, some, List, [], ◌∷◌, arith,
}
use bananabreadwasm.Text.{Text}
use bananabreadwasm.Js.{Engine, truthy, get_field}
use bananabreadwasm.Views.{OwnerGame}
use bananabreadwasm.Admin.{can_create, can_authorize_payouts}
use bananabreadwasm.Admin.Desk.{
  Desk, Event, save_clicked, create_clicked, authorize_clicked, delete_clicked, copy_clicked,
  retry_clicked, delete_requested, delete_cancelled,
}
use bananabreadwasm.Admin.Markup.{nodes, is_active, offers, offers_in}
use bananabreadwasm.Admin.Cards.{settings_card, new_arena_card}
use bananabreadwasm.Admin.Arenas.{table_cells, games_table, games_card}
use bananabreadwasm.Admin.Render.{delete_dialog_node, header, render}

abbrev pub is_save : Event → Bool
is_save save_clicked = true
is_save _ = false

abbrev pub is_create : Event → Bool
is_create create_clicked = true
is_create _ = false

abbrev pub is_authorize : Event → Bool
is_authorize authorize_clicked = true
is_authorize _ = false

-- A test of events that no button of a row and none of the dialog passes.
abbrev IsElsewhere : (Event → Bool) → Type 0
IsElsewhere f =
    ((i : Text)
      → (f (copy_clicked i) ≡ false)
        × (f (retry_clicked i) ≡ false)
        × (f (delete_clicked i) ≡ false))
    × ((g : OwnerGame) → f (delete_requested g) ≡ false)
    × (f delete_cancelled ≡ false)

module _ (engine : Engine) where
  offers-table_cells :
      (f : Event → Bool) (d : Desk) (gs : List OwnerGame)
      → IsElsewhere f
      → offers_in f (nodes (table_cells engine d gs)) ≡ false
  unfolding offers_in table_cells
  offers-table_cells f d [] e = refl
  offers-table_cells f d (g ∷ gs) (ids, asked, cancelled) =
      ground (arith, ids g.game.id, asked g, offers-table_cells f d gs (ids, asked, cancelled))

  offers-delete_dialog_node :
      (f : Event → Bool) (d : Desk) (shown : Option OwnerGame)
      → IsElsewhere f
      → offers f (delete_dialog_node d shown) ≡ false
  unfolding offers delete_dialog_node
  offers-delete_dialog_node f d none e = refl
  offers-delete_dialog_node f d (some g) (ids, asked, cancelled) =
      ground (arith, ids g.game.id, asked g, cancelled)

  -- The three buttons that are there once.
  pub render-offers :
      (bytes : List ℕ) (d : Desk)
      → let page = render engine bytes d in
        (offers is_save page ≡ not d.saving)
        × (offers is_create page ≡ (can_create engine d.page && not d.creating))
        × (offers is_authorize page
            ≡ (can_authorize_payouts engine d.page && not d.authorizing_payouts))
  unfolding render offers header settings_card new_arena_card games_card games_table is_active
      truthy get_field
  render-offers bytes d = (
    ground (
      arith,
      offers-table_cells is_save d d.games (λ i. (refl, refl, refl), λ g. refl, refl),
      offers-delete_dialog_node is_save d d.delete_dialog
          (λ i. (refl, refl, refl), λ g. refl, refl),
    ),
    ground (
      arith,
      offers-table_cells is_create d d.games (λ i. (refl, refl, refl), λ g. refl, refl),
      offers-delete_dialog_node is_create d d.delete_dialog
          (λ i. (refl, refl, refl), λ g. refl, refl),
    ),
    ground (
      arith,
      offers-table_cells is_authorize d d.games (λ i. (refl, refl, refl), λ g. refl, refl),
      offers-delete_dialog_node is_authorize d d.delete_dialog
          (λ i. (refl, refl, refl), λ g. refl, refl),
    ),
  )
