-- ===== src/Result.antt =====
-- The errors that dev/src/index.js throws, one constructor for each message, and computations that
-- may throw.
use bananabreadwasm.Prelude.{◌≡◌, refl, ◌⊎◌, inl, inr, Bool, true, false, String}
use bananabreadwasm.Text.{Text}

pub data Error : Type 0 where
  syntax_error not_object : Error
  required not_a_player : String → Error
  wallet_id_required gateway_url_required server_secret_short : Error
  arenas_disabled wallet_unset gateway_unset secret_unset : Error
  arena_not_found live_players_left settlements_left : Error
  admissions_disabled arena_inactive arena_full payment_hash_required : Error
  no_live_player invalid_secret : Error
  self_kill victim_not_alive killer_not_alive too_few_players player_not_alive : Error
  bad_kind invalid_ln_address invalid_gateway_url gateway_not_https malformed_uri : Error
  host_threw : Text → Error

pub data Result {ℓ} (A : Type ℓ) : Type ℓ where
  ok : A → Result A
  err : Error → Result A

infixl 5 ◌>>=◌ ◌>>◌
-- What follows a statement runs if it did not throw.
abbrev pub ◌>>=◌ {κ ℓ} : {B : Type κ} {A : Type ℓ} → Result A → (A → Result B) → Result B
m >>= f = elim m [ err e ↦ err e | ok a ↦ f a ]

abbrev pub ◌>>◌ {κ} : {B : Type κ} → Result (Unit {0}) → Result B → Result B
tests >> rest = tests >>= λ _. rest

-- `if (test) throw new Error(…)`
abbrev pub throw_if : Bool → Error → Result (Unit {0})
throw_if true e = err e
throw_if false e = ok tt

pub Result-cases {ℓ} :
    {A : Type ℓ} (r : Result A) → ((e : Error) × (r ≡ err e)) ⊎ ((a : A) × (r ≡ ok a))
Result-cases (ok a) = inr (a, refl)
Result-cases (err e) = inl (e, refl)
