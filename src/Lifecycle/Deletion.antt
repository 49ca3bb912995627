-- ===== src/Lifecycle/Deletion.antt =====
-- Rows at the deletion of an arena in dev/src/index.js.
use bananabreadwasm.Prelude.{
  ◌≡◌, true, false, ◌⊎◌, none, some, All, any, arith, ◌∙◌, Bool-cases, inl, inr,
}
use bananabreadwasm.Text.{Text, text_eq}
use bananabreadwasm.Result.{ok, Result-cases}
use bananabreadwasm.Js.{Value}
use bananabreadwasm.Rows.{Player, is_alive}
use bananabreadwasm.Players.{in_game}
use bananabreadwasm.Players.Lookup.{players_for_game-rows}
use bananabreadwasm.Settlement.{has_unresolved_settlement}
use bananabreadwasm.Host.{Host, World}
use bananabreadwasm.Handlers.Arenas.{
  DeleteCall, delete_players, delete_call, delete_bananabreadwasm_game,
}
use bananabreadwasm.Handlers.Effects.Deletion.{
  any-of-listed, delete_players_removes, delete_players_spares, delete_call-eq-ok,
}
use bananabreadwasm.Safety.Sequence.{delete_call-world}

-- Nothing of the stake is at play, and no payment for it is open.
abbrev pub IsSettled : Player → Type 0
IsSettled p = (is_alive p.status ≡ false) × (has_unresolved_settlement p ≡ false)

module _ (h : Host) where
  -- A row that is not kept is gone, and it was settled.
  abbrev pub IsRemoved : Text → Player → World h → Type 0
  IsRemoved i p w = (h.players.get i w.players ≡ none) × IsSettled p

  -- A row that is deleted was listed, and so it was tested.
  delete_players-IsSettled :
      (input : Value) (c : DeleteCall) (i : Text) (p : Player) (w : World h)
      → delete_call h input w ≡ (ok c, w)
      → h.players.get i w.players ≡ some p
      → (h.players.get i (delete_players h c.players w).players ≡ some p)
        ⊎ IsRemoved i p (delete_players h c.players w)
  delete_players-IsSettled input c i p w called stored =
      let (same, page, none_live, none_open) = delete_call-eq-ok h input w w c called in
      let rows : All (λ q. (in_game c.game_id q ≡ true) × (h.players.get q.id w.players ≡ some q))
          c.players =
        rw page (players_for_game-rows h c.game_id 100 w) in
      elim (Bool-cases (any (λ q. text_eq q.id i) c.players)) [
        | inl listed ↦ inr (
          delete_players_removes h i c.players w listed,
          (
            any-of-listed h (λ q. is_alive q.status) c.game_id i p c.players w rows stored listed
                none_live,
            any-of-listed h has_unresolved_settlement c.game_id i p c.players w rows stored listed
                none_open,
          ),
        )
        | inr spared ↦ inl (delete_players_spares h i c.players w spared ∙ stored)
      ]

  pub delete_bananabreadwasm_game-IsSettled :
      (input : Value) (i : Text) (p : Player) (w : World h)
      → h.players.get i w.players ≡ some p
      → (h.players.get i (delete_bananabreadwasm_game h input w).1.players ≡ some p)
        ⊎ IsRemoved i p (delete_bananabreadwasm_game h input w).1
  unfolding delete_bananabreadwasm_game
  delete_bananabreadwasm_game-IsSettled input i p w stored =
      elim (Result-cases (delete_call h input w).0) [
        | inl (e, threw) ↦
            let same : (delete_bananabreadwasm_game h input w).1 ≡ w =
              ground (arith, delete_call-world h input w) in
            inl (rw same stored)
        | inr (c, read) ↦
            let called : delete_call h input w ≡ (ok c, w) =
              ground (arith, delete_call-world h input w) in
            let players : (delete_bananabreadwasm_game h input w).1.players
                ≡ (delete_players h c.players w).players =
              ground arith in
            rw players (delete_players-IsSettled input c i p w called stored)
      ]
