-- ===== src/Admin/Arenas.antt =====
-- The card of the owner's page, static/admin.js, with its table of arenas.
use bananabreadwasm.Prelude.{
  ℕ, Bool, true, false, not, ◌++◌, List, [], ◌∷◌, String, ◌==◌, if◌then◌else◌,
}
use bananabreadwasm.Text.{Text, codes, text_eq}
use bananabreadwasm.Js.{Engine, Value, finite, bool}
use bananabreadwasm.Settlement.{Counts}
use bananabreadwasm.Views.{OwnerGame}
use bananabreadwasm.Admin.{can_authorize_payouts}
use bananabreadwasm.Admin.Desk.{
  Desk, authorize_clicked, table_requested, retry_clicked, delete_requested, copy_clicked,
}
use bananabreadwasm.Admin.Markup.{
  flag, caption, title, Column, on_click, on_request, rows, columns, pagination, Node, element,
  words, nil, nodes, attributes, text,
}

abbrev column : String → String → String → String → Bool → Column
column name label field align sortable = record {
  name = name;
  label = label;
  field = field;
  align = align;
  sortable = sortable;
}

unfoldable pub table_columns : List Column
table_columns =
    column "name" "Arena" "name" "left" true
    ∷ column "joinAmount" "Join sats" "joinAmount" "right" true
    ∷ column "haircut" "Haircut" "haircut" "right" true
    ∷ column "players" "Alive" "playersCount" "left" false
    ∷ column "settlements" "Settlement" "settlements" "left" false
    ∷ column "status" "Status" "status" "left" true
    ∷ column "actions" "" "id" "right" false
    ∷ []

module _ (engine : Engine) where
  abbrev count_text : ℕ → Text
  count_text n = engine.text_of_number (finite false n 0)

  -- What the column of settlements says.
  unfoldable pub settlement_text : Counts → Text
  settlement_text c =
      if not (c.failed == 0)
      then count_text c.failed ++ codes " failed"
      else if not (c.pending == 0)
      then count_text c.pending ++ codes " pending"
      else codes "clear"

  abbrev cell : List (String × Value) → List Node → Node
  cell attrs ns = element "QTd" (attributes attrs) [] (nodes ns)

  -- The cells of a row that have a slot, without the arguments that the table passes on; it shows the
  -- others from their fields.
  unfoldable pub row_cells : Desk → OwnerGame → List Node
  unfolding settlement_text
  row_cells d g =
      cell [] (words (count_text g.game.players_count ++ codes " / 5") ∷ [])
      ∷ cell [] (words (count_text g.game.haircut ++ codes "%") ∷ [])
      ∷ cell [] (words (settlement_text g.settlements) ∷ [])
      ∷ cell (("class", text "q-gutter-xs") ∷ []) (
          element "QBtn"
            (attributes
              (flag "flat" ∷ flag "round" ∷ flag "dense" ∷ ("icon", text "content_copy") ∷ []))
            (on_click (copy_clicked g.game.id) ∷ []) nil
          ∷ element "QBtn"
              (attributes (
                flag "flat"
                ∷ flag "round"
                ∷ flag "dense"
                ∷ ("color", text "warning")
                ∷ ("icon", text "refresh")
                ∷ ("title", text "Retry failed settlements")
                ∷ ("disable", bool (g.settlements.failed == 0))
                ∷ ("loading", bool (text_eq d.retrying_game_id g.game.id))
                ∷ []))
              (on_click (retry_clicked g.game.id) ∷ []) nil
          ∷ element "QBtn"
              (attributes (
                flag "flat"
                ∷ flag "round"
                ∷ flag "dense"
                ∷ ("color", text "negative")
                ∷ ("icon", text "delete")
                ∷ ("loading", bool (text_eq d.deleting_game_id g.game.id))
                ∷ []))
              (on_click (delete_requested g) ∷ []) nil
          ∷ [])
      ∷ []

  unfoldable pub table_cells : Desk → List OwnerGame → List Node
  unfolding row_cells
  table_cells d [] = []
  table_cells d (g ∷ gs) = row_cells d g ++ table_cells d gs

  unfoldable pub games_table : Desk → Node
  unfolding table_columns
  games_table d =
      element "QTable"
        (attributes
          (flag "dark" ∷ flag "flat" ∷ ("rowKey", text "id") ∷ ("loading", bool d.loading) ∷ []))
        (rows d.games
          ∷ columns table_columns
          ∷ pagination d.pagination
          ∷ on_request table_requested
          ∷ [])
        (nodes (table_cells d d.games))

  unfoldable pub games_card : Desk → Node
  unfolding can_authorize_payouts games_table
  games_card d = element "QCard" (attributes (flag "dark" ∷ [])) [] (
      nodes (
        element "QCardSection" (attributes []) [] (
          nodes (
            element "div"
              (attributes (("class", text "row items-center justify-between q-mb-md") ∷ [])) []
              (nodes (
                title "text-h6 text-weight-bold q-my-none" "Arenas"
                ∷ element "QBtn"
                    (attributes (
                      ("color", text "primary")
                      ∷ flag "outline"
                      ∷ ("loading", bool d.authorizing_payouts)
                      ∷ ("disable", bool (not (can_authorize_payouts engine d.page)))
                      ∷ []))
                    (on_click authorize_clicked ∷ []) (caption "Authorize Payouts")
                ∷ []))
            ∷ games_table d
            ∷ []))
        ∷ []))
