-- ===== src/Handlers/Effects/Retrying.antt =====
-- Which rows the retries of dev/src/index.js touch.
use bananabreadwasm.Prelude.{
  ◌≡◌, refl, ap, ◌∙◌, ◌⊎◌, inl, inr, false, some, List, [], ◌∷◌, All, All-map, arith, Bool-cases,
  Option-cases,
}
use bananabreadwasm.Text.{Text, text_eq, text_eq_iff, is_empty}
use bananabreadwasm.Result.{ok, Result-cases}
use bananabreadwasm.Js.{Value, str}
use bananabreadwasm.Rows.{Game, Player, is_failed}
use bananabreadwasm.Players.{require_player_id, players_for_game}
use bananabreadwasm.Players.Lookup.{require_player_id-eq-ok, players_for_game-rows}
use bananabreadwasm.Settlement.{Payout, apply_payout, apply_refund}
use bananabreadwasm.Host.{Host, World}
use bananabreadwasm.Handlers.Retry.{
  Kind, retry_call, candidates_for, stored_or, retry_payout, retry_refund, retry_due_payout,
  retry_due_refund, retry_player, retry_players, settle_bananabreadwasm_payout,
}
use bananabreadwasm.Safety.{Writes}
use bananabreadwasm.Safety.Loop.{
  retried_payout, retried_refund, retry_payout-Writes, retry_refund-Writes, require_player_id-world,
  retry_call-world, retry_call-candidates,
}

-- No settlement of the row failed.
abbrev pub IsUndue : Player → Type 0
IsUndue p = (is_failed p.payout_status ≡ false) × (is_failed p.refund_status ≡ false)

module _ (h : Host) where
  -- Rows that are written under another id leave a row as it was.
  Writes-get :
      (i : Text) (locked : Player) (settled : Payout → Player) (w w' : World h)
      → Writes locked settled w w'
      → text_eq locked.id i ≡ false
      → ((x : Payout) → (settled x).id ≡ locked.id)
      → h.players.get i w'.players ≡ h.players.get i w.players
  Writes-get i locked settled w w' (inl once) other same =
      ap (h.players.get i) once ∙ (h.players.get_set i locked w.players ∙ rw other refl)
  Writes-get i locked settled w w' (inr (x, twice)) other same =
      ap (h.players.get i) twice
      ∙ (h.players.get_set i (settled x) (h.players.set locked w.players)
          ∙ rw (same x, other) (h.players.get_set i locked w.players ∙ rw other refl))

  retry_payout-get :
      (i : Text) (game : Game) (c : Player) (w : World h)
      → text_eq c.id i ≡ false
      → h.players.get i (retry_payout h game c w).1.players ≡ h.players.get i w.players
  unfolding retry_payout apply_payout
  retry_payout-get i game c w other =
      elim (Result-cases (require_player_id h game.id (str c.killer_id) "killerPlayerId" w).0) [
        | inl (e, threw) ↦
            let same : (retry_payout h game c w).1 ≡ w =
              ground (arith, require_player_id-world h game.id (str c.killer_id) w) in
            rw same refl
        | inr (killer, read) ↦
            let found : require_player_id h game.id (str c.killer_id) "killerPlayerId" w
                ≡ (ok killer, w) =
              ground (arith, require_player_id-world h game.id (str c.killer_id) w) in
            Writes-get i (retried_payout h c) (apply_payout (retried_payout h c)) w
              (retry_payout h game c w).1 (retry_payout-Writes h game c killer w found) other
              (same_row (retried_payout h c))
      ]
    where
      same_row : (q : Player) (x : Payout) → (apply_payout q x).id ≡ q.id
      same_row q x = refl

  retry_refund-get :
      (i : Text) (game : Game) (c current : Player) (w : World h)
      → text_eq current.id i ≡ false
      → h.players.get i (retry_refund h game c current w).1.players ≡ h.players.get i w.players
  unfolding apply_refund
  retry_refund-get i game c current w other =
      Writes-get i (retried_refund h current) (apply_refund (retried_refund h current)) w
        (retry_refund h game c current w).1 (retry_refund-Writes h game c current w) other
        (same_row (retried_refund h current))
    where
      same_row : (q : Player) (x : Payout) → (apply_refund q x).id ≡ q.id
      same_row q x = refl

  retry_due_payout-get :
      (i : Text) (kind : Kind) (game : Game) (c : Player) (w : World h)
      → text_eq c.id i ≡ false
      → h.players.get i (retry_due_payout h kind game c w).1.players ≡ h.players.get i w.players
  unfolding retry_due_payout
  retry_due_payout-get i kind game c w other = ground (arith, retry_payout-get i game c w other)

  retry_due_refund-get :
      (i : Text) (kind : Kind) (game : Game) (c current : Player) (w : World h)
      → text_eq current.id i ≡ false
      → h.players.get i (retry_due_refund h kind game c current w).1.players
        ≡ h.players.get i w.players
  unfolding retry_due_refund
  retry_due_refund-get i kind game c current w other =
      ground (arith, retry_refund-get i game c current w other)

  pub stored_or-id :
      (c : Player) (w : World h) → (stored_or c (h.players.get c.id w.players)).id ≡ c.id
  stored_or-id c w = elim (Option-cases (h.players.get c.id w.players)) [
    | inl gone ↦ rw gone refl
    | inr (q, stored) ↦ rw stored (h.players.get_key c.id q w.players stored)
  ]

  own_round :
      (kind : Kind) (game : Game) (c p : Player) (w : World h) {i : Text}
      → IsUndue p
      → h.players.get i w.players ≡ some p
      → c ≡ p
      → (retry_player h kind game c w).1 ≡ w
  unfolding retry_player retry_due_payout retry_due_refund
  own_round kind game c p w {i} (unpaid, unrefunded) stored own =
      ground (arith, own, h.players.get_key i p w.players stored)

  -- One round of the loop leaves every other row as it was.
  pub retry_player-other :
      (i : Text) (kind : Kind) (game : Game) (c : Player) (w : World h)
      → text_eq c.id i ≡ false
      → h.players.get i (retry_player h kind game c w).1.players ≡ h.players.get i w.players
  unfolding retry_player
  retry_player-other i kind game c w other =
      let w1 = (retry_due_payout h kind game c w).1 in
      let current = stored_or c (h.players.get c.id w1.players) in
      let kept = retry_due_payout-get i kind game c w other in
      elim (Result-cases (retry_due_payout h kind game c w).0) [
        | inl (e, threw) ↦
            let same : (retry_player h kind game c w).1 ≡ w1 = ground arith in rw same kept
        | inr (done, returned) ↦
            let same : (retry_player h kind game c w).1
                ≡ (retry_due_refund h kind game c current w1).1 =
              ground arith in
            rw same
              (retry_due_refund-get i kind game c current w1 (rw (stored_or-id c w1) other) ∙ kept)
      ]

  -- A row that is not due stays, whether the round is its own or another's.
  retry_player-get :
      (i : Text) (kind : Kind) (game : Game) (c p : Player) (w : World h)
      → IsUndue p
      → h.players.get i w.players ≡ some p
      → (text_eq c.id i ≡ false) ⊎ (c ≡ p)
      → h.players.get i (retry_player h kind game c w).1.players ≡ some p
  retry_player-get i kind game c p w u stored (inl other) =
      retry_player-other i kind game c w other ∙ stored
  retry_player-get i kind game c p w u stored (inr own) =
      rw (own_round kind game c p w u stored own) stored

  retry_players-get :
      (i : Text) (kind : Kind) (game : Game) (cs : List Player) (p : Player) (w : World h)
      → IsUndue p
      → h.players.get i w.players ≡ some p
      → All (λ c. (text_eq c.id i ≡ false) ⊎ (c ≡ p)) cs
      → h.players.get i (retry_players h kind game cs w).1.players ≡ some p
  unfolding retry_players
  retry_players-get i kind game [] p w u stored a = stored
  retry_players-get i kind game (c ∷ cs) p w u stored (a, rest) =
      let w1 = (retry_player h kind game c w).1 in
      let kept = retry_player-get i kind game c p w u stored a in
      elim (Result-cases (retry_player h kind game c w).0) [
        | inl (e, threw) ↦
            let same : (retry_players h kind game (c ∷ cs) w).1 ≡ w1 = ground arith in rw same kept
        | inr (done, returned) ↦
            let same : (retry_players h kind game (c ∷ cs) w).1
                ≡ (retry_players h kind game cs w1).1 =
              ground arith in
            rw same (retry_players-get i kind game cs p w1 u kept rest)
      ]

  -- Every candidate is a stored row.
  pub candidates_for-stored :
      (game : Game) (j : Text) (w w' : World h) (ps : List Player)
      → candidates_for h game j w ≡ (ok ps, w')
      → All (λ c. h.players.get c.id w.players ≡ some c) ps
  unfolding candidates_for
  candidates_for-stored game j w w' ps e = elim (Bool-cases (is_empty j)) [
    | inl everyone ↦
        let same : ps ≡ players_for_game h game.id 100 w = ground arith in
        rw same (All-map _ _ (λ c r. r.1) _ (players_for_game-rows h game.id 100 w))
    | inr one ↦ elim (Result-cases (require_player_id h game.id (str j) "playerId" w).0) [
      | inl (x, threw) ↦ absurd (ground arith)
      | inr (p, read) ↦
          let found : require_player_id h game.id (str j) "playerId" w
              ≡ (ok p, (require_player_id h game.id (str j) "playerId" w).1) =
            ground arith in
          let (_, _, stored, _) =
            require_player_id-eq-ok h game.id (str j) "playerId" w _ p found in
          let same : ps ≡ p ∷ [] = ground arith in rw same (stored, tt)
    ]
  ]

  one_row :
      (i : Text) (p c : Player) (w : World h)
      → h.players.get i w.players ≡ some p
      → h.players.get c.id w.players ≡ some c
      → (text_eq c.id i ≡ false) ⊎ (c ≡ p)
  one_row i p c w stored row = elim (Bool-cases (text_eq c.id i)) [
    | inl same ↦ inr (ground (arith, text_eq_iff c.id i))
    | inr other ↦ inl other
  ]

  -- A retry leaves every stored row as it was of which neither the reward nor the refund failed,
  -- whether the call returns or throws.
  pub retry_leaves_undue :
      (input : Value) (i : Text) (p : Player) (w : World h)
      → h.players.get i w.players ≡ some p
      → IsUndue p
      → h.players.get i (settle_bananabreadwasm_payout h input w).1.players ≡ some p
  unfolding settle_bananabreadwasm_payout
  retry_leaves_undue input i p w stored u = elim (Result-cases (retry_call h input w).0) [
    | inl (x, threw) ↦
        let same : (settle_bananabreadwasm_payout h input w).1 ≡ w =
          ground (arith, retry_call-world h input w) in
        rw same stored
    | inr (c, read) ↦
        let called : retry_call h input w ≡ (ok c, w) =
          ground (arith, retry_call-world h input w) in
        let same : (settle_bananabreadwasm_payout h input w).1
            ≡ (retry_players h c.kind c.game c.candidates w).1 =
          ground arith in
        rw same (
          retry_players-get i c.kind c.game c.candidates p w u stored (
            All-map _ _ (λ q row. one_row i p q w stored row) _
              (candidates_for-stored c.game c.player_id w w c.candidates
                (retry_call-candidates h input w w c called))))
  ]
