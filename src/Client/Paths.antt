-- ===== src/Client/Paths.antt =====
-- The paths of the calls for one arena in static/lnbits-extension-sdk.js.
use bananabreadwasm.Prelude.{◌≡◌, refl, ap, [], ◌∷◌, arith, ◌++◌, inl, inr}
use bananabreadwasm.Text.{Text, codes}
use bananabreadwasm.Result.{ok, Result-cases}
use bananabreadwasm.Js.{Value, str, Fields, get_field}
use bananabreadwasm.Gateway.{encode_uri_component}
use bananabreadwasm.Gateway.Segments.{IsSegment, encode-IsSegment}
use bananabreadwasm.Client.{
  Browser, delete_game, join_game, settle_game, api_message, game_path, base_url, message_of,
}

append_nil : (s : Text) → s ++ [] ≡ s
append_nil [] = refl
append_nil (c ∷ s) = ap (λ t. c ∷ t) (append_nil s)

module _ (b : Browser) (extension_id : Text) where
  -- A call to delete, join or settle an arena that is sent has the encoded id of the arena in its path,
  -- between the base of the arenas and the word for the call, and no character of the encoding ends
  -- its segment.
  pub game_calls_stay :
      (game_id : Text) (payload : Value) (deletion joining settling : Fields)
      → message_of b extension_id (delete_game game_id) ≡ ok deletion
      → message_of b extension_id (join_game game_id payload) ≡ ok joining
      → message_of b extension_id (settle_game game_id payload) ≡ ok settling
      → (segment : Text) × (encode_uri_component game_id ≡ ok segment)
        × IsSegment segment
        × (let path = base_url b extension_id ++ codes "/games/" ++ segment in
            (get_field "path" deletion ≡ str path)
            × (get_field "path" joining ≡ str (path ++ codes "/join"))
            × (get_field "path" settling ≡ str (path ++ codes "/settle")))
  unfolding message_of game_path api_message get_field
  game_calls_stay game_id payload deletion joining settling d j s =
      elim (Result-cases (encode_uri_component game_id)) [
        | inl (x, bad) ↦ absurd (ground arith)
        | inr (segment, encoded) ↦ (
          segment,
          encoded,
          encode-IsSegment game_id segment encoded,
          (
            ground (arith, append_nil (base_url b extension_id ++ codes "/games/" ++ segment)),
            ground arith,
            ground arith,
          ),
        )
      ]
