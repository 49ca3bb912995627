-- ===== src/Account/Round.antt =====
-- Stakes in one round of a retry in dev/src/index.js: a reward that failed, then a refund, of a row
-- that is stored as it was listed.
use bananabreadwasm.Prelude.{◌<◌, ◌≡◌, refl, ◌&&◌, some, arith, Bool-cases, inl, inr}
use bananabreadwasm.Text.{text_eq_refl}
use bananabreadwasm.Result.{ok, Result-cases}
use bananabreadwasm.Js.{str}
use bananabreadwasm.Rows.{Game, Player, failed, is_failed}
use bananabreadwasm.Players.{require_player_id}
use bananabreadwasm.Settlement.{Payout, apply_payout}
use bananabreadwasm.Host.{Host, World}
use bananabreadwasm.Handlers.Retry.{
  Kind, retries_payouts, retries_refunds, retry_payout, retry_due_payout, retry_due_refund,
  retry_player,
}
use bananabreadwasm.Safety.{IsSafe, Writes}
use bananabreadwasm.Safety.Loop.{
  retried_payout, require_player_id-world, retry_payout-Writes, retry_due_payout-IsSafe,
}
use bananabreadwasm.Account.{IsFunded}
use bananabreadwasm.Account.Around.{Step, Step-trans}
use bananabreadwasm.Account.Retry.{retry_payout-Step, retry_refund-Step}

module _ (h : Host) where
  -- The row is stored as it is given.
  abbrev pub IsStored : World h → Player → Type 0
  IsStored w p = h.players.get p.id w.players ≡ some p

  Writes-found :
      (locked : Player) (settled : Payout → Player) (w w' : World h)
      → ((x : Payout) → (settled x).id ≡ locked.id)
      → Writes locked settled w w'
      → (q : Player) × (h.players.get locked.id w'.players ≡ some q)
  Writes-found locked settled w w' same (inl once) =
      (locked, ground (arith, h.players.get_set locked.id locked w.players, text_eq_refl locked.id))
  Writes-found locked settled w w' same (inr (x, twice)) = (
    settled x,
    ground (
      arith,
      h.players.get_set locked.id (settled x) (h.players.set locked w.players),
      text_eq_refl locked.id,
      same x,
    ),
  )

  retry_payout-found :
      (game : Game) (p : Player) (w : World h)
      → IsStored w p
      → (q : Player) × (h.players.get p.id (retry_payout h game p w).1.players ≡ some q)
  unfolding retry_payout apply_payout
  retry_payout-found game p w stored =
      elim (Result-cases (require_player_id h game.id (str p.killer_id) "killerPlayerId" w).0) [
        | inl (e, threw) ↦
            let same : (retry_payout h game p w).1 ≡ w =
              ground (arith, require_player_id-world h game.id (str p.killer_id) w) in
            (p, rw same stored)
        | inr (killer, read) ↦
            let found : require_player_id h game.id (str p.killer_id) "killerPlayerId" w
                ≡ (ok killer, w) =
              ground (arith, require_player_id-world h game.id (str p.killer_id) w) in
            Writes-found (retried_payout h p) (apply_payout (retried_payout h p)) w
              (retry_payout h game p w).1 (λ x. refl) (retry_payout-Writes h game p killer w found)
      ]

  pub retry_due_payout-found :
      (kind : Kind) (game : Game) (p : Player) (w : World h)
      → IsStored w p
      → (q : Player) × (h.players.get p.id (retry_due_payout h kind game p w).1.players ≡ some q)
  unfolding retry_due_payout
  retry_due_payout-found kind game p w stored =
      elim (Bool-cases (retries_payouts kind && is_failed p.payout_status)) [
        | inl due ↦ rw due (retry_payout-found game p w stored)
        | inr settled ↦ rw settled (p, stored)
      ]

  retry_due_payout-Step :
      (kind : Kind) (game : Game) (p : Player) (w : World h)
      → IsStored w p
      → IsSafe w
      → 0 < game.join_amount
      → IsFunded h w
      → Step h 0 w (retry_due_payout h kind game p w).1
  unfolding retry_due_payout
  retry_due_payout-Step kind game p w stored s price f =
      elim (Bool-cases (retries_payouts kind && is_failed p.payout_status)) [
        | inl due ↦
            let due_now : p.payout_status ≡ failed = ground arith in
            rw due
              (retry_payout-Step h game p w stored (s.consistent p.id p stored) due_now price f)
        | inr settled ↦ rw settled (omega arith, f)
      ]

  retry_due_refund-Step :
      (kind : Kind) (game : Game) (p current : Player) (w : World h)
      → IsStored w current
      → IsSafe w
      → 0 < game.join_amount
      → IsFunded h w
      → Step h 0 w (retry_due_refund h kind game p current w).1
  unfolding retry_due_refund
  retry_due_refund-Step kind game p current w stored s price f =
      elim (Bool-cases (retries_refunds kind && is_failed current.refund_status)) [
        | inl due ↦
            let due_now : current.refund_status ≡ failed = ground arith in
            let fits = s.consistent current.id current stored in
            rw due (retry_refund-Step h game p current w stored fits due_now price f)
        | inr settled ↦ rw settled (omega arith, f)
      ]

  pub retry_player-Step :
      (kind : Kind) (game : Game) (p : Player) (w : World h)
      → IsStored w p
      → IsSafe w
      → 0 < game.join_amount
      → IsFunded h w
      → Step h 0 w (retry_player h kind game p w).1
  unfolding retry_player
  retry_player-Step kind game p w stored s price f =
      let w1 = (retry_due_payout h kind game p w).1 in
      let first = retry_due_payout-Step kind game p w stored s price f in
      let s1 = retry_due_payout-IsSafe h kind game p w (s.consistent p.id p stored) s in
      let (q, found) = retry_due_payout-found kind game p w stored in
      elim (Result-cases (retry_due_payout h kind game p w).0) [
        | inl (e, threw) ↦
            let same : (retry_player h kind game p w).1 ≡ w1 = ground arith in rw same first
        | inr (done, returned) ↦
            let same : (retry_player h kind game p w).1 ≡ (retry_due_refund h kind game p q w1).1 =
              ground arith in
            let anew : IsStored w1 q = rw (h.players.get_key p.id q w1.players found) found in
            rw same (
              Step-trans h 0 0 w w1 (retry_due_refund h kind game p q w1).1 first
                (retry_due_refund-Step kind game p q w1 anew s1 price first.1))
      ]
