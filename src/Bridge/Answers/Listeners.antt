-- ===== src/Bridge/Answers/Listeners.antt =====
-- The listeners that wait for an id on the port of static/lnbits-extension-sdk.js, and the lists that
-- `settle_id` and `reject_queue` leave.
use bananabreadwasm.Prelude.{
  ℕ, ◌+◌, ◌≤◌, ◌≡◌, refl, ap, Bool, true, false, not, List, [], ◌∷◌, ◌++◌, All, length, select,
  arith, Bool-cases, inl, inr,
}
use bananabreadwasm.Text.{Text, text_eq}
use bananabreadwasm.Bridge.{
  Outcome, Request, Waiting, Settled, Bridge, timed_out, settle, reject_queue, settle_waiting,
}

abbrev pub hit : Bool → ℕ
hit true = 1
hit false = 0

-- How many listeners there are for an id.
abbrev pub listeners : Text → List Waiting → ℕ
listeners id [] = 0
listeners id (w ∷ ws) = hit (text_eq w.id id) + listeners id ws

pub listeners-append :
    (id : Text) (ws vs : List Waiting) → listeners id (ws ++ vs) ≡ listeners id ws + listeners id vs
listeners-append id [] vs = omega arith
listeners-append id (w ∷ ws) vs = omega (arith, listeners-append id ws vs)

pub listeners-select :
    (id : Text) (p : Waiting → Bool) (ws : List Waiting)
    → listeners id (select p ws) ≤ listeners id ws
listeners-select id p [] = omega arith
listeners-select id p (w ∷ ws) = elim (Bool-cases (p w)) [
  | inl kept ↦ rw kept (omega (arith, listeners-select id p ws))
  | inr gone ↦ rw gone (omega (arith, listeners-select id p ws))
]

pub All-select :
    (P : Waiting → Type 0) (p : Waiting → Bool) (ws : List Waiting) → All P ws → All P (select p ws)
All-select P p [] a = tt
All-select P p (w ∷ ws) (h, a) = elim (Bool-cases (p w)) [
  | inl kept ↦ rw kept (h, All-select P p ws a)
  | inr gone ↦ rw gone (All-select P p ws a)
]

pub All-append :
    (P : Waiting → Type 0) (ws : List Waiting) (v : Waiting) → All P ws → P v → All P (ws ++ v ∷ [])
All-append P [] v a h = (h, tt)
All-append P (w ∷ ws) v (k, a) h = (k, All-append P ws v a h)

pub length-settle_waiting :
    (id : Text) (o : Outcome) (ws : List Waiting) (ss : List Settled)
    → length (settle_waiting id o ws ss) ≡ listeners id ws + length ss
unfolding settle_waiting
length-settle_waiting id o [] ss = omega arith
length-settle_waiting id o (w ∷ ws) ss = elim (Bool-cases (text_eq w.id id)) [
  | inl here ↦
      rw here
        (omega (arith, length-settle_waiting id o ws (record { call = w.call; outcome = o } ∷ ss)))
  | inr other ↦ rw other (omega (arith, length-settle_waiting id o ws ss))
]

-- Without its listeners, an id settles nothing.
pub settle_waiting-select :
    (id : Text) (o : Outcome) (ws : List Waiting) (ss : List Settled)
    → settle_waiting id o (select (λ w. not (text_eq w.id id)) ws) ss ≡ ss
unfolding settle_waiting
settle_waiting-select id o [] ss = refl
settle_waiting-select id o (w ∷ ws) ss = elim (Bool-cases (text_eq w.id id)) [
  | inl here ↦ rw here (settle_waiting-select id o ws ss)
  | inr other ↦ rw other (rw other (settle_waiting-select id o ws ss))
]

pub select_twice :
    (id : Text) (ws : List Waiting)
    → let p : Waiting → Bool = λ w. not (text_eq w.id id) in select p (select p ws) ≡ select p ws
select_twice id [] = refl
select_twice id (w ∷ ws) = elim (Bool-cases (text_eq w.id id)) [
  | inl here ↦ rw here (select_twice id ws)
  | inr other ↦ rw other (rw other (ap (λ vs. w ∷ vs) (select_twice id ws)))
]

pub reject_queue-parts :
    (rs : List Request) (b : Bridge)
    → ((reject_queue rs b).waiting ≡ b.waiting) × ((reject_queue rs b).ids ≡ b.ids)
unfolding reject_queue settle
reject_queue-parts [] b = (refl, refl)
reject_queue-parts (r ∷ rs) b = reject_queue-parts rs (settle r.call timed_out b)
