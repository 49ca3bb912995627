-- ===== src/Account/Around.antt =====
-- The writes of dev/src/index.js around a payment: the row is locked, the wallet is asked, and the row
-- is written again.
use bananabreadwasm.Prelude.{
  ℕ, ◌+◌, ◌≤◌, ◌<◌, ◌≡◌, ◌∙◌, ◌⊎◌, some, arith, inl, inr, false, Bool-cases,
}
use bananabreadwasm.Text.{Text, text_eq}
use bananabreadwasm.Result.{Error, Result, ok, err}
use bananabreadwasm.Rows.{Game, Player, is_alive, is_failed, unset}
use bananabreadwasm.Players.{or_number, with_fresh_player_count}
use bananabreadwasm.Settlement.{Payout, pay_player, apply_payout, apply_refund, settlement_status}
use bananabreadwasm.Host.{Host, World, PayRequest, time_at}
use bananabreadwasm.Safety.Calls.{pay_player-tables}
use bananabreadwasm.Account.{
  Sends, pay_player-Sends, Sends-ok, Sends-err, Pays, Pays-book, IsFunded, book, owed, returned,
}
use bananabreadwasm.Table.{amount_of}

-- A reward that came back is owed again.
pub apply_payout-owed :
    (p : Player)
    → is_alive p.status ≡ false
    → p.refund_status ≡ unset
    → (x : Payout)
    → (owed (apply_payout p x) ≤ returned x p.payout_amount)
      × ((apply_payout p x).id ≡ p.id)
      × ((apply_payout p x).paid_amount ≡ p.paid_amount)
unfolding apply_payout owed settlement_status
apply_payout-owed p gone unrefunded x = ground arith

-- So is a refund.
pub apply_refund-owed :
    (p : Player)
    → is_failed p.payout_status ≡ false
    → (x : Payout)
    → (owed (apply_refund p x) ≤ returned x (or_number p.refund_amount p.paid_amount))
      × ((apply_refund p x).id ≡ p.id)
      × ((apply_refund p x).paid_amount ≡ p.paid_amount)
unfolding apply_refund owed settlement_status
apply_refund-owed p unfailed x = ground arith

module _ (h : Host) where
  abbrev pub recount : Game → World h → Game
  recount game w = with_fresh_player_count h (record game { updated_at = time_at h w.ticks }) w

  -- The arenas are as they were, or a new version of one was written.
  abbrev pub Keeps : Game → World h → World h → Type 0
  Keeps game w w' =
      (w'.games ≡ w.games)
      ⊎ ((g : Game) × (w'.games ≡ h.games.set g w.games) × (g.join_amount ≡ game.join_amount))

  -- What a call does after its payment: nothing if it threw, or else it writes the row.
  abbrev pub Rest : Game → (Payout → Player) → Result Payout × World h → World h → Type 0
  Rest game settled (r, w) w' =
      ((e : Error) × (r ≡ err e) × (w' ≡ w))
      ⊎ ((x : Payout) × (r ≡ ok x)
          × (w'.players ≡ h.players.set (settled x) w.players)
          × (w'.payments ≡ w.payments)
          × Keeps game w w')

  -- The payment itself touches no table.
  abbrev pub Asks : ℕ → World h → Result Payout × World h → Type 0
  Asks amount w (r, w') = Sends h amount r w w' × (w'.players ≡ w.players) × (w'.games ≡ w.games)

  pub pay_player-Asks : (r : PayRequest) (w : World h) → Asks r.amount w (pay_player h r w)
  pay_player-Asks r w =
      let (players, games, _) = pay_player-tables h r w in (pay_player-Sends h r w, players, games)

  pub around :
      (game : Game) (locked : Player) (settled : Payout → Player) (amount : ℕ) (w asked : World h)
      (done : Result Payout × World h) (w' : World h)
      → asked.players ≡ h.players.set locked w.players
      → asked.payments ≡ w.payments
      → asked.games ≡ w.games
      → Asks amount asked done
      → Rest game settled done w'
      → Pays h locked settled amount w w' × Keeps game w w'
  around game locked settled amount w asked (r, mid) w' players payments games (sends, p, g)
        (inl (e, threw, same)) =
      let total = Sends-err h amount r e asked mid threw sends in
      (inl (rw same (p ∙ players), ground arith), inl (rw same (g ∙ games)))
  around game locked settled amount w asked (r, mid) w' players payments games (sends, p, g)
        (inr (x, paid, row, log, kept)) =
      let total = Sends-ok h amount r x asked mid paid sends in
      (inr (x, ground arith, ground arith), ground arith)

  -- The world after: no more was sent or is owed than before, but for what came in, and the arenas and
  -- the rows still have their prices.
  abbrev pub Step : ℕ → World h → World h → Type 0
  Step gained w w' = (book h w' ≤ book h w + gained) × IsFunded h w'

  pub Keeps-priced :
      (game : Game) (w w' : World h)
      → Keeps game w w'
      → 0 < game.join_amount
      → IsFunded h w
      → (i : Text) (g : Game) → h.games.get i w'.games ≡ some g
      → 0 < g.join_amount
  Keeps-priced game w w' (inl same) price f i g stored = f.priced i g (rw (← same) stored)
  Keeps-priced game w w' (inr (new, same, equal)) price f i g stored =
      elim (Bool-cases (text_eq new.id i)) [
        | inl own ↦ ground (arith, h.games.get_set i new w.games)
        | inr other ↦ f.priced i g (ground (arith, h.games.get_set i new w.games))
      ]

  pub set-staked :
      (row : Player) (s : h.players.State)
      → 0 < row.paid_amount
      → ((i : Text) (p : Player) → h.players.get i s ≡ some p → 0 < p.paid_amount)
      → (i : Text) (p : Player) → h.players.get i (h.players.set row s) ≡ some p
      → 0 < p.paid_amount
  set-staked row s stake f i p stored = elim (Bool-cases (text_eq row.id i)) [
    | inl own ↦ ground (arith, h.players.get_set i row s)
    | inr other ↦ f i p (ground (arith, h.players.get_set i row s))
  ]

  Pays-staked :
      (locked : Player) (settled : Payout → Player) (amount : ℕ) (w w' : World h)
      → Pays h locked settled amount w w'
      → 0 < locked.paid_amount
      → ((x : Payout) → (settled x).paid_amount ≡ locked.paid_amount)
      → IsFunded h w
      → (i : Text) (p : Player) → h.players.get i w'.players ≡ some p
      → 0 < p.paid_amount
  Pays-staked locked settled amount w w' (inl (players, total)) stake same f =
      rw players (set-staked locked w.players stake f.staked)
  Pays-staked locked settled amount w w' (inr (x, players, total)) stake same f = rw players (
      set-staked (settled x) (h.players.set locked w.players) (rw (same x) stake)
        (set-staked locked w.players stake f.staked))

  pub settles :
      (game : Game) (locked : Player) (settled : Payout → Player) (amount gained : ℕ)
      (w w' : World h)
      → Pays h locked settled amount w w' × Keeps game w w'
      → owed locked ≡ 0
      → ((x : Payout)
          → (owed (settled x) ≤ returned x amount)
            × ((settled x).id ≡ locked.id)
            × ((settled x).paid_amount ≡ locked.paid_amount))
      → amount ≤ amount_of owed (h.players.get locked.id w.players) + gained
      → 0 < locked.paid_amount
      → 0 < game.join_amount
      → IsFunded h w
      → Step gained w w'
  settles game locked settled amount gained w w' (pays, keeps) free each covered stake price f = (
    omega (
      arith,
      covered,
      Pays-book h locked settled amount w w' free (λ x. ((each x).0, (each x).1)) pays,
    ),
    record {
      priced = Keeps-priced game w w' keeps price f;
      staked = Pays-staked locked settled amount w w' pays stake (λ x. (each x).2) f;
    },
  )

  pub Step-trans : (a b : ℕ) (w w1 w2 : World h) → Step a w w1 → Step b w1 w2 → Step (a + b) w w2
  Step-trans a b w w1 w2 (first, _) (second, f) = (omega arith, f)
