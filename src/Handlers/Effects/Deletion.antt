-- ===== src/Handlers/Effects/Deletion.antt =====
-- The deletion of an arena in dev/src/index.js, which looks at the arena's first hundred players.
use bananabreadwasm.Prelude.{
  ◌≡◌, refl, Bool, true, false, none, some, List, [], ◌∷◌, any, arith, Bool-cases, inl, inr, All,
}
use bananabreadwasm.Text.{Text, text_eq, text_eq_iff}
use bananabreadwasm.Result.{Result, ok, err}
use bananabreadwasm.Js.{Value, Fields}
use bananabreadwasm.Normalize.{parse_json_object}
use bananabreadwasm.Rows.{Player, is_alive}
use bananabreadwasm.Players.{in_game, get_game, players_for_game}
use bananabreadwasm.Settlement.{has_unresolved_settlement}
use bananabreadwasm.Host.{Host, World}
use bananabreadwasm.Handlers.Arenas.{DeleteCall, delete_players, delete_call}

module _ (h : Host) where
  delete_players_keeps :
      (i : Text) (ps : List Player) (w : World h)
      → h.players.get i w.players ≡ none
      → h.players.get i (delete_players h ps w).players ≡ none
  unfolding delete_players
  delete_players_keeps i [] w e = e
  delete_players_keeps i (p ∷ ps) w e =
      delete_players_keeps i ps _ (ground (arith, h.players.get_delete i p.id w.players))

  pub delete_players_removes :
      (i : Text) (ps : List Player) (w : World h)
      → any (λ p. text_eq p.id i) ps ≡ true
      → h.players.get i (delete_players h ps w).players ≡ none
  unfolding delete_players
  delete_players_removes i [] w e = cc
  delete_players_removes i (p ∷ ps) w e = elim (Bool-cases (text_eq p.id i)) [
    | inl here ↦ delete_players_keeps i ps _ (ground (arith, h.players.get_delete i p.id w.players))
    | inr later ↦ delete_players_removes i ps _ (ground arith)
  ]

  delete_players-games : (ps : List Player) (w : World h) → (delete_players h ps w).games ≡ w.games
  unfolding delete_players
  delete_players-games [] w = refl
  delete_players-games (p ∷ ps) w = delete_players-games ps _

  pub delete_players_spares :
      (i : Text) (ps : List Player) (w : World h)
      → any (λ p. text_eq p.id i) ps ≡ false
      → h.players.get i (delete_players h ps w).players ≡ h.players.get i w.players
  unfolding delete_players
  delete_players_spares i [] w e = refl
  delete_players_spares i (p ∷ ps) w e = ground (
    arith,
    delete_players_spares i ps (record w { players = h.players.delete p.id w.players }),
    h.players.get_delete i p.id w.players,
  )

  -- A row of a list whose rows all fail a test, found by its id, fails the test.
  pub any-of-listed :
      (f : Player → Bool) (g i : Text) (p : Player) (ps : List Player) (w : World h)
      → All (λ q. (in_game g q ≡ true) × (h.players.get q.id w.players ≡ some q)) ps
      → h.players.get i w.players ≡ some p
      → any (λ q. text_eq q.id i) ps ≡ true
      → any f ps ≡ false
      → f p ≡ false
  any-of-listed f g i p [] w rows e m no_hit = cc
  any-of-listed f g i p (q ∷ ps) w (row, rows) e m no_hit = elim (Bool-cases (text_eq q.id i)) [
    | inl here ↦ ground (arith, text_eq_iff q.id i)
    | inr later ↦ any-of-listed f g i p ps w rows e (ground arith) (ground arith)
  ]

  pub delete_call-eq-ok :
      (input : Value) (w w' : World h) (call : DeleteCall)
      → delete_call h input w ≡ (ok call, w')
      → (w' ≡ w)
        × (call.players ≡ players_for_game h call.game_id 100 w)
        × (any (λ p. is_alive p.status) call.players ≡ false)
        × (any has_unresolved_settlement call.players ≡ false)
  unfolding delete_call get_game
  delete_call-eq-ok input w w' call e = go (parse_json_object h.engine input) refl
    where
      go :
          (t : Result Fields)
          → parse_json_object h.engine input ≡ t
          → (w' ≡ w)
            × (call.players ≡ players_for_game h call.game_id 100 w)
            × (any (λ p. is_alive p.status) call.players ≡ false)
            × (any has_unresolved_settlement call.players ≡ false)
      go (ok fs) q = ground arith
      go (err x) q = ground arith
