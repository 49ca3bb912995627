-- ===== src/Host.antt =====
-- The host of the extension: the tables, the wallet, the clock and the random ids behind
-- dev/src/lnbits-sdk.js, all of them parameters, and the computations that run against it.
pub mod Bind
use bananabreadwasm.Prelude.{
  ℕ, suc, ◌/◌, ◌^◌, Bool, true, false, Option, List, [], ◌∷◌, String, ltb, if◌then◌else◌,
}
use bananabreadwasm.Text.{Text}
use bananabreadwasm.Result.{Result, ok, err, Error}
use bananabreadwasm.Js.{Engine, Number, nan, finite, whole}
use bananabreadwasm.Rows.{Settings, Game, Player}
use bananabreadwasm.Table.{Table, Query}

-- An integer of the host's wire format.
pub data ℤ : Type 0 where
  pos : ℕ → ℤ
  negsuc : ℕ → ℤ

-- `wallet.payLnurl`. The currency is always `sat`.
pub record PayRequest : Type 0 where
  pub wallet_id : Text
  pub lnurl : Text
  pub amount : ℕ
  pub comment : Text
  pub max_sat : ℕ
  pub description : Text
  pub extra : List (String × Text)

-- `pay-invoice-response`
pub record PayResponse : Type 0 where
  pub ok : Bool
  pub error : Option Text
  pub checking_id : Option Text
  pub payment_hash : Option Text
  pub status : Option Text
  pub amount_msat : ℤ
  pub fee_msat : ℤ
  pub pending : Bool
  pub success : Bool

-- `wallet.createInvoicePublic`
pub record InvoiceRequest : Type 0 where
  pub source_id : Text
  pub amount : ℕ
  pub memo : Text
  pub extra : List (String × Text)

pub record Invoice : Type 0 where
  pub payment_hash : Text
  pub payment_request : Text
  pub checking_id : Text

pub record Wallet : Type 0 where
  pub id : Text
  pub name : Text

-- The answers of the wallet may depend on all that was asked before, and a call may throw.
pub record Host : Type 1 where
  pub engine : Engine
  pub settings : Table Settings (λ r. r.id)
  pub games : Table Game (λ r. r.id)
  pub players : Table Player (λ r. r.id)
  -- The n-th reading of the host's clock, in seconds, and of the engine's, in milliseconds.
  pub timestamp : ℕ → Number
  pub date_now : ℕ → ℕ
  pub random_id : ℕ → Text → Text
  pub wallets : List Wallet
  pub pay : List PayRequest → PayRequest → Result PayResponse
  pub invoice : List InvoiceRequest → InvoiceRequest → Result Invoice

-- The tables, and what was asked of the host so far, the last request first.
pub record World (h : Host) : Type 0 where
  pub settings : h.settings.State
  pub games : h.games.State
  pub players : h.players.State
  pub ticks : ℕ
  pub ids : ℕ
  pub payments : List PayRequest
  pub invoices : List InvoiceRequest

-- A call of the extension: what it wrote stays written when it throws.
abbrev pub Exec : Host → Type 0 → Type 0
Exec h A = World h → Result A × World h

module _ {h : Host} where
  abbrev pub pure : {A : Type 0} → A → Exec h A
  pure a w = (ok a, w)

  abbrev pub lift : {A : Type 0} → Result A → Exec h A
  lift r w = (r, w)

  abbrev pub gets : {A : Type 0} → (World h → A) → Exec h A
  gets f w = (ok (f w), w)

  abbrev pub modify : (World h → World h) → Exec h (Unit {0})
  modify f w = (ok tt, f w)

  infixl 5 ◌>>=◌ ◌>>◌
  abbrev pub ◌>>=◌ : {A B : Type 0} → Exec h A → (A → Exec h B) → Exec h B
  ◌>>=◌ m f w = let (r, w') = m w in elim r [ ok a ↦ f a w' | err e ↦ (err e, w') ]

  abbrev pub ◌>>◌ : {B : Type 0} → Exec h (Unit {0}) → Exec h B → Exec h B
  m >> k = m >>= λ _. k

-- `system.now()`: the integer part of a positive host time, or else the engine's clock.
unfoldable pub now_of : Number → ℕ → ℕ
now_of nan date = date / 1000
now_of (finite true m d) date = date / 1000
now_of (finite false m d) date = if ltb 0 m then whole m d else date / 1000

module _ (h : Host) where
  -- The n-th reading of `system.now()`.
  unfoldable pub time_at : ℕ → ℕ
  unfolding now_of
  time_at n = now_of (h.timestamp n) (h.date_now n)

  unfoldable pub now : Exec h ℕ
  now w = (ok (time_at w.ticks), record w { ticks = suc w.ticks })

  -- `idValue(system.id(prefix))`: the host answers with a string.
  unfoldable pub random_id : Text → Exec h Text
  random_id prefix w = (ok (h.random_id w.ids prefix), record w { ids = suc w.ids })

  abbrev pub save_settings : Settings → Exec h (Unit {0})
  save_settings r = modify λ w. record w { settings = h.settings.set r w.settings }

  abbrev pub save_game : Game → Exec h (Unit {0})
  save_game r = modify λ w. record w { games = h.games.set r w.games }

  abbrev pub save_player : Player → Exec h (Unit {0})
  save_player r = modify λ w. record w { players = h.players.set r w.players }

  abbrev pub find_player : Text → Exec h (Option Player)
  find_player i = gets λ w. h.players.get i w.players

  unfoldable pub pay_lnurl : PayRequest → Exec h PayResponse
  pay_lnurl r w = (h.pay w.payments r, record w { payments = r ∷ w.payments })

  unfoldable pub create_invoice_public : InvoiceRequest → Exec h Invoice
  create_invoice_public r w = (h.invoice w.invoices r, record w { invoices = r ∷ w.invoices })
