-- ===== src/Admin/Cards.antt =====
-- The cards of the owner's page, static/admin.js, for its settings and for a new arena.
use bananabreadwasm.Prelude.{ℕ, true, false, not, ◌++◌, Option, none, some, List, [], ◌∷◌, String}
use bananabreadwasm.Js.{Engine, Value, bool, str}
use bananabreadwasm.Handlers.Arenas.{min_join_sats, max_join_sats}
use bananabreadwasm.Admin.{
  Fault, Form, effective_wallet_id, wallet_error, gateway_error, server_secret_error, can_create,
}
use bananabreadwasm.Admin.Desk.{Desk, Event, save_clicked, create_clicked, edited, secret_generated}
use bananabreadwasm.Admin.Methods.{fault_text}
use bananabreadwasm.Admin.Markup.{
  flag, number, caption, title, on_click, on_bool, on_text, on_value, options, Node, element, nil,
  nodes, attributes, text,
}

abbrev is_fault : Option Fault → Value
is_fault none = bool false
is_fault (some f) = bool true

-- A labelled input on a dark ground, as the page has them.
abbrev dark_input : List (String × Value) → List (String × Value)
dark_input attrs = attrs ++ flag "filled" ∷ flag "dense" ∷ flag "dark" ∷ []

-- `error` and `errorMessage`
abbrev fault_attributes : Option Fault → List (String × Value)
fault_attributes f = ("error", is_fault f) ∷ ("errorMessage", str (fault_text f)) ∷ []

-- The page after its form was edited.
abbrev edit_form : Desk → Form → Event
edit_form d form = edited (record d.page { settings = form })

module _ (engine : Engine) where
  -- `generateServerSecret` draws the bytes when it is called.
  unfoldable pub settings_card : List ℕ → Desk → Node
  settings_card bytes d =
      let form = d.page.settings in
      element "QCard" (attributes (flag "dark" ∷ [])) [] (
        nodes (
          element "QCardSection" (attributes []) [] (
            nodes (
              title "text-h6 text-weight-bold q-my-none q-mb-md" "Settings"
              ∷ element "QToggle"
                  (attributes (
                    ("modelValue", bool form.enabled)
                    ∷ ("label", text "Enable arenas")
                    ∷ ("color", text "primary")
                    ∷ []))
                  (on_bool (λ v. edit_form d (record form { enabled = v })) ∷ []) nil
              ∷ element "QSelect"
                  (attributes (
                    dark_input (
                      ("class", text "q-mt-md")
                      ∷ ("modelValue", str (effective_wallet_id d.page))
                      ∷ ("label", text "Wallet")
                      ∷ [])
                    ++ flag "optionsDark"
                      ∷ flag "emitValue"
                      ∷ flag "mapOptions"
                      ∷ fault_attributes (wallet_error d.page)))
                  (options d.page.wallets
                    ∷ on_text (λ v. edit_form d (record form { wallet_id = v }))
                    ∷ [])
                  nil
              ∷ element "QInput"
                  (attributes (
                    dark_input (
                      ("class", text "q-mt-sm")
                      ∷ ("modelValue", form.haircut)
                      ∷ ("type", text "number")
                      ∷ ("label", text "Arena fee percent")
                      ∷ (
                        "hint",
                        text "Default: 10%. The killer receives the rest of the victim stake.",
                      )
                      ∷ [])
                    ++ ("min", number 0) ∷ ("max", number 100) ∷ []))
                  (on_value (λ v. edit_form d (record form { haircut = v })) ∷ []) nil
              ∷ element "QInput"
                  (attributes (
                    dark_input (
                      ("class", text "q-mt-sm")
                      ∷ ("modelValue", str form.gateway_url)
                      ∷ ("type", text "url")
                      ∷ ("label", text "Public Sour gateway URL")
                      ∷ ("hint", text "HTTPS required except localhost.")
                      ∷ [])
                    ++ ("placeholder", text "https://arena.example.com")
                      ∷ fault_attributes (gateway_error engine form)))
                  (on_text (λ v. edit_form d (record form { gateway_url = v })) ∷ []) nil
              ∷ element "QInput"
                  (attributes (
                    dark_input (
                      ("class", text "q-mt-sm")
                      ∷ ("modelValue", str form.server_secret)
                      ∷ ("type", text "password")
                      ∷ ("label", text "Gateway shared secret")
                      ∷ ("hint", text "Use the same value in BANANABREAD_SERVER_SECRET.")
                      ∷ [])
                    ++ fault_attributes (server_secret_error form)))
                  (on_text (λ v. edit_form d (record form { server_secret = v })) ∷ []) nil
              ∷ element "QBtn"
                  (attributes
                    (("class", text "q-mt-sm") ∷ flag "flat" ∷ ("color", text "primary") ∷ []))
                  (on_click (secret_generated bytes) ∷ []) (caption "Generate Secret")
              ∷ element "QBtn"
                  (attributes (
                    ("class", text "q-mt-md")
                    ∷ ("color", text "primary")
                    ∷ ("loading", bool d.saving)
                    ∷ []))
                  (on_click save_clicked ∷ []) (caption "Save Settings")
              ∷ []))
          ∷ []))

  unfoldable pub new_arena_card : Desk → Node
  unfolding can_create
  new_arena_card d = element "QCard" (attributes (flag "dark" ∷ [])) [] (
      nodes (
        element "QCardSection" (attributes []) [] (
          nodes (
            title "text-h6 text-weight-bold q-my-none q-mb-md" "New Arena"
            ∷ element "QInput"
                (attributes (
                  dark_input (("modelValue", str d.page.game_name) ∷ ("label", text "Title") ∷ [])))
                (on_text (λ v. edited (record d.page { game_name = v })) ∷ []) nil
            ∷ element "QInput"
                (attributes (
                  dark_input (
                    ("class", text "q-mt-sm")
                    ∷ ("modelValue", d.page.join_amount)
                    ∷ ("type", text "number")
                    ∷ ("label", text "Join sats (50–100)")
                    ∷ ("hint", text "Experimental beta cap: 100 sats.")
                    ∷ [])
                  ++ ("min", number min_join_sats) ∷ ("max", number max_join_sats) ∷ []))
                (on_value (λ v. edited (record d.page { join_amount = v })) ∷ []) nil
            ∷ element "QBtn"
                (attributes (
                  ("class", text "q-mt-md")
                  ∷ ("color", text "primary")
                  ∷ ("loading", bool d.creating)
                  ∷ ("disable", bool (not (can_create engine d.page)))
                  ∷ []))
                (on_click create_clicked ∷ []) (caption "Create Arena")
            ∷ []))
        ∷ []))
