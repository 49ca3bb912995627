-- ===== src/Admin/Render.antt =====
-- The render function of the owner's page, static/admin.js: the page as a tree of elements.
pub mod Clicks
pub mod Single
use bananabreadwasm.Prelude.{
  ℕ, zero, suc, Bool, true, false, not, ◌++◌, Option, none, some, List, [], ◌∷◌, map, String, ◌==◌,
  if◌then◌else◌,
}
use bananabreadwasm.Text.{Text, codes, text_eq, or_text}
use bananabreadwasm.Js.{Engine, Value, num, finite, bool, str, Fields}
use bananabreadwasm.Settlement.{Counts}
use bananabreadwasm.Views.{OwnerGame}
use bananabreadwasm.Handlers.Arenas.{min_join_sats, max_join_sats}
use bananabreadwasm.Admin.{
  Fault, Form, Page, effective_wallet_id, wallet_error, gateway_error, server_secret_error,
  can_create, can_authorize_payouts,
}
use bananabreadwasm.Admin.Desk.{
  Desk, Event, save_clicked, create_clicked, authorize_clicked, edited, secret_generated,
  table_requested, retry_clicked, delete_requested, delete_clicked, copy_clicked, delete_cancelled,
}
use bananabreadwasm.Admin.Methods.{fault_text}
use bananabreadwasm.Admin.Markup.{
  flag, number, caption, title, Column, Binding, on_click, on_bool, on_text, on_value, on_request,
  options, rows, columns, pagination, Node, element, words, Nodes, nil, cons, nodes, attributes,
  text,
}
use bananabreadwasm.Admin.Cards.{settings_card, new_arena_card}
use bananabreadwasm.Admin.Arenas.{games_card}

-- A dialog that is not shown has no contents.
unfoldable pub delete_dialog_node : Desk → Option OwnerGame → Node
delete_dialog_node d none = element "QDialog" (attributes (("modelValue", bool false) ∷ [])) [] nil
delete_dialog_node d (some g) =
    element "QDialog" (attributes (flag "modelValue" ∷ []))
      (on_bool (λ v. if v then delete_requested g else delete_cancelled) ∷ [])
      (nodes (
        element "QCard"
          (attributes (flag "dark" ∷ ("style", text "width: min(420px, calc(100vw - 32px))") ∷ []))
          []
          (nodes (
            element "QCardSection" (attributes []) []
              (nodes (title "text-h6 text-weight-bold q-my-none" "Delete Arena" ∷ []))
            ∷ element "QCardSection" (attributes (("class", text "q-pt-none") ∷ [])) [] (
                nodes (
                  words
                    (codes "Delete \"" ++ or_text g.game.name (codes "this arena") ++ codes "\"?")
                  ∷ []))
            ∷ element "QCardActions" (attributes (("align", text "right") ∷ [])) [] (
                nodes (
                  element "QBtn"
                    (attributes
                      (flag "flat" ∷ ("color", text "primary") ∷ ("label", text "Cancel") ∷ []))
                    (on_click delete_cancelled ∷ []) nil
                  ∷ element "QBtn"
                      (attributes (
                        flag "unelevated"
                        ∷ ("color", text "negative")
                        ∷ ("label", text "Delete")
                        ∷ ("loading", bool (text_eq d.deleting_game_id g.game.id))
                        ∷ []))
                      (on_click (delete_clicked g.game.id) ∷ []) nil
                  ∷ []))
            ∷ []))
        ∷ []))

unfoldable pub header : Node
header =
    element "header" (attributes (("class", text "row items-center q-gutter-md q-mb-md") ∷ [])) [] (
      nodes (
        element "div" (attributes (("class", text "streetfighter-mark") ∷ [])) [] (caption "BB")
        ∷ element "div" (attributes []) [] (
            nodes (
              element "h1" (attributes (("class", text "text-h4 text-weight-bold q-my-none") ∷ []))
                [] (caption "BananaBread Arena")
              ∷ element "p"
                  (attributes (("class", text "text-subtitle2 text-grey-5 q-my-none") ∷ [])) []
                  (caption "Paid deathmatch rooms, five players at a time.")
              ∷ []))
        ∷ []))

module _ (engine : Engine) where
  unfoldable pub render : List ℕ → Desk → Node
  unfolding delete_dialog_node header settings_card new_arena_card games_card
  render bytes d = element "main" (attributes (("class", text "admin-shell q-pa-md") ∷ [])) [] (
      nodes (
        delete_dialog_node d d.delete_dialog
        ∷ header
        ∷ element "div" (attributes (("class", text "row q-col-gutter-md") ∷ [])) [] (
            nodes (
              element "div" (attributes (("class", text "col-12 col-md-5 q-gutter-y-md") ∷ [])) []
                (nodes (settings_card engine bytes d ∷ new_arena_card engine d ∷ []))
              ∷ element "div" (attributes (("class", text "col-12 col-md-7") ∷ [])) []
                  (nodes (games_card engine d ∷ []))
              ∷ []))
        ∷ []))
