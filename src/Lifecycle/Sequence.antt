-- ===== src/Lifecycle/Sequence.antt =====
-- Players' rows over any sequence of the calls of dev/src/index.js.
use bananabreadwasm.Prelude.{
  ◌≡◌, refl, Bool, true, false, ◌⊎◌, inl, inr, Bool-cases, some, List, [], ◌∷◌, ◌++◌, arith, ◌∙◌,
  ap, ◌⊎◌,
}
use bananabreadwasm.Text.{Text}
use bananabreadwasm.Rows.{Player, processing, pending, failed}
use bananabreadwasm.Handlers.Config.{get_bananabreadwasm_settings, list_bananabreadwasm_wallets}
use bananabreadwasm.Host.{Host, World}
use bananabreadwasm.Run.{
  Call, get_settings, list_wallets, save_settings, create_game, list_games, delete_game,
  get_public_game, join_game, record_payment, admit_player, settle_kill, expire_disconnect,
  settle_payout, run, run_all,
}
use bananabreadwasm.Safety.{IsSafe}
use bananabreadwasm.Safety.Sequence.{
  run-IsSafe, create_bananabreadwasm_game-players, save_bananabreadwasm_settings-players,
  get_public_bananabreadwasm_game-players, join_bananabreadwasm_game-players,
  list_bananabreadwasm_games-players,
}
use bananabreadwasm.Lifecycle.{
  Phase, playing, lost, returned, phase_of, Move, killed, expired, reward_retried, refund_retried,
  Reaches, here, next, IsSamePlayer, Advances, Advances-refl, Advances-trans, Evolves, same-Evolves,
}
use bananabreadwasm.Lifecycle.Deletion.{IsRemoved, delete_bananabreadwasm_game-IsSettled}
use bananabreadwasm.Settlement.{has_unresolved_settlement}
use bananabreadwasm.Lifecycle.Match.{
  settle_bananabreadwasm_kill-Evolves, expire_bananabreadwasm_disconnect-Evolves,
}
use bananabreadwasm.Lifecycle.Admission.{
  record_bananabreadwasm_payment-Evolves, admit_bananabreadwasm_player-Evolves,
}
use bananabreadwasm.Lifecycle.Retry.{settle_bananabreadwasm_payout-Evolves}

-- Rows are removed by one call only.
abbrev pub is_deletion : Call → Bool
is_deletion (delete_game v) = true
is_deletion _ = false

-- The wallet owes no second payment: the settlement is through, is held back, or was never answered.
abbrev is_final : Phase → Bool
is_final playing = false
is_final (lost failed) = false
is_final (returned failed) = false
is_final _ = true

-- The wallet did not say yet what became of the payment.
abbrev pub is_unanswered : Phase → Bool
is_unanswered (lost processing) = true
is_unanswered (lost pending) = true
is_unanswered (returned processing) = true
is_unanswered (returned pending) = true
is_unanswered _ = false

Move-final : (a b : Phase) → Move a b → is_final a ≡ true → b ≡ a
Move-final a b (killed s e) final = ground arith
Move-final a b (expired s e) final = ground arith
Move-final a b (reward_retried s e) final = ground arith
Move-final a b (refund_retried s e) final = ground arith

Reaches-final : (a b : Phase) → Reaches a b → is_final a ≡ true → b ≡ a
Reaches-final a b here final = refl
Reaches-final a c (next {b} r m) final =
    let same = Reaches-final a b r final in Move-final b c m (ap is_final same ∙ final) ∙ same

module _ (h : Host) where
  run-Evolves : (c : Call) (w : World h) → IsSafe w → is_deletion c ≡ false → Evolves w (run h c w)
  unfolding run get_bananabreadwasm_settings list_bananabreadwasm_wallets
  run-Evolves get_settings w s e = same-Evolves w w refl
  run-Evolves list_wallets w s e = same-Evolves w w refl
  run-Evolves (save_settings v) w s e =
      same-Evolves w (run h (save_settings v) w) (save_bananabreadwasm_settings-players h v w)
  run-Evolves (create_game v) w s e =
      same-Evolves w (run h (create_game v) w) (create_bananabreadwasm_game-players h v w)
  run-Evolves (list_games v) w s e =
      same-Evolves w (run h (list_games v) w) (list_bananabreadwasm_games-players h v w)
  run-Evolves (delete_game v) w s e = ground arith
  run-Evolves (get_public_game v) w s e =
      same-Evolves w (run h (get_public_game v) w) (get_public_bananabreadwasm_game-players h v w)
  run-Evolves (join_game v) w s e =
      same-Evolves w (run h (join_game v) w) (join_bananabreadwasm_game-players h v w)
  run-Evolves (record_payment v) w s e = record_bananabreadwasm_payment-Evolves h v w
  run-Evolves (admit_player v) w s e = admit_bananabreadwasm_player-Evolves h v w
  run-Evolves (settle_kill v) w s e = settle_bananabreadwasm_kill-Evolves h v w
  run-Evolves (expire_disconnect v) w s e = expire_bananabreadwasm_disconnect-Evolves h v w
  run-Evolves (settle_payout v) w s e = settle_bananabreadwasm_payout-Evolves h v w s

  -- A row is kept by a call, or it is removed by a deletion, as it was.
  abbrev Survives : Call → World h → Text → Player → Type 0
  Survives c w i p =
      ((q : Player) × (h.players.get i (run h c w).players ≡ some q) × Advances p q)
      ⊎ ((is_deletion c ≡ true) × IsRemoved h i p (run h c w))

  run-Survives :
      (c : Call) (w : World h) (i : Text) (p : Player)
      → IsSafe w
      → h.players.get i w.players ≡ some p
      → Survives c w i p
  unfolding run
  run-Survives c w i p s stored = elim (Bool-cases (is_deletion c)) [
    | inl deletes ↦ go c deletes
    | inr keeps ↦ inl (run-Evolves c w s keeps i p stored)
  ]
    where
      go : (c : Call) → is_deletion c ≡ true → Survives c w i p
      go (delete_game v) e = elim (delete_bananabreadwasm_game-IsSettled h v i p w stored) [
        | inl kept ↦ inl (p, kept, Advances-refl p)
        | inr removed ↦ inr (refl, removed)
      ]
      go _ e = ground arith

  -- Some call was a deletion that removed the row: it was stored before as the machine led it, it
  -- was settled, and afterwards it was gone.
  abbrev pub WasRemoved : List Call → World h → Text → Player → Type 0
  WasRemoved cs w i q =
      (before after : List Call) × (c : Call) × (cs ≡ before ++ c ∷ after)
      × (is_deletion c ≡ true)
      × (h.players.get i (run_all h before w).players ≡ some q)
      × IsRemoved h i q (run h c (run_all h before w))

  -- From a safe state, whatever calls come, returned or thrown, a stored player's row moves along the
  -- machine of phases, with its id, arena, name, address, payment, token, slot and stake as they
  -- were: a live player may be killed, with a reward of any status but unset, or expire, with a
  -- refund that is processing, pending, paid or failed; a reward or a refund that failed may become
  -- processing, pending, paid or failed. At the end the row is stored where the machine led it, or
  -- else one of the calls was a deletion that removed it: before that call it was stored where the
  -- machine led it, the player was not alive and neither reward nor refund was processing, pending or
  -- failed, and after it the row was gone.
  pub players_advance :
      (cs : List Call) (w : World h) (i : Text) (p : Player)
      → IsSafe w
      → h.players.get i w.players ≡ some p
      → (q : Player) × Advances p q
        × ((h.players.get i (run_all h cs w).players ≡ some q) ⊎ WasRemoved cs w i q)
  unfolding run_all
  players_advance [] w i p s stored = (p, Advances-refl p, inl stored)
  players_advance (c ∷ cs) w i p s stored =
      let w1 = run h c w in
      elim (run-Survives c w i p s stored) [
        | inl (q, found, early) ↦
            let (r, late, last) = players_advance cs w1 i q (run-IsSafe h c w s) found in
            (
              r,
              Advances-trans p q r early late,
              elim last [
                | inl kept ↦ inl kept
                | inr (before, after, d, split, deletes, there, gone) ↦
                    inr (c ∷ before, after, d, ap (λ ds. c ∷ ds) split, deletes, there, gone)
              ],
            )
        | inr (deletes, gone) ↦ (p, Advances-refl p, inr ([], cs, c, refl, deletes, stored, gone))
      ]

  -- From a safe state, if a stored player's reward or refund is processing or pending, then after any
  -- calls, returned or thrown, deletions included, the row of the same player is still stored, in the
  -- same phase.
  pub unanswered_stays :
      (cs : List Call) (w : World h) (i : Text) (p : Player)
      → IsSafe w
      → h.players.get i w.players ≡ some p
      → is_unanswered (phase_of p) ≡ true
      → (q : Player) × (h.players.get i (run_all h cs w).players ≡ some q)
        × IsSamePlayer p q
        × (phase_of q ≡ phase_of p)
  unfolding has_unresolved_settlement
  unanswered_stays cs w i p s stored waits =
      let (q, (same, reached), fate) = players_advance cs w i p s stored in
      let stays = Reaches-final (phase_of p) (phase_of q) reached (ground arith) in
      (
        q,
        elim fate [
          | inl found ↦ found
          | inr (_, _, _, _, _, _, (_, settled)) ↦ ground (arith, settled, stays)
        ],
        same,
        stays,
      )
