-- ===== src/Tests/Account.antt =====
-- A run of the calls that move stakes.
use bananabreadwasm.Prelude.{
  ◌⊎◌, false, ◌+◌, ◌≤◌, ◌<◌, ◌≡◌, refl, none, some, [], ◌∷◌, arith, if◌then◌else◌,
}
use bananabreadwasm.Text.{Text, codes, text_eq}
use bananabreadwasm.Rows.{Player, alive, unset, is_alive}
use bananabreadwasm.Host.{World}
use bananabreadwasm.Handlers.Admission.{Payment, record_payment as book_payment}
use bananabreadwasm.Handlers.Effects.Recording.{
  stake_of, IsPayer, late_request, new_payment_is_booked,
}
use bananabreadwasm.Players.{alive_in}
use bananabreadwasm.Table.Memory.{memory, find, upsert}
use bananabreadwasm.Run.{record_payment, settle_kill, run_all}
use bananabreadwasm.Safety.{IsSafe, admit-IsSafe}
use bananabreadwasm.Account.{book, IsFunded}
use bananabreadwasm.Account.Around.{set-staked}
use bananabreadwasm.Account.Sequence.{deposits, stakes_cover_payments}
use bananabreadwasm.Tests.Sample.{
  player_named, host, arena, ann, bob, empty_world, with_player, duel, kill_input, payment_input,
}

no_player : (i : Text) → host.players.get i empty_world.players ≡ none
unfolding memory find
no_player i = refl

no_live_player : (g : Text) → host.players.count (alive_in g) empty_world.players ≡ 0
unfolding memory
no_live_player g = refl

pub fresh-IsSafe : IsSafe empty_world
fresh-IsSafe = record {
  consistent = λ i p stored. ground (arith, no_player i);
  within = λ g. ground (arith, no_live_player g);
  placed = λ i p stored live. ground (arith, no_player i);
  apart = λ i j p q stored stored' live live' home slot. ground (arith, no_player i);
}

one_live : host.players.count (alive_in (codes "arena")) (with_player ann empty_world).players < 5
unfolding memory find upsert text_eq
one_live = omega arith

ann_stored :
    (i : Text)
    → host.players.get i (with_player ann empty_world).players
      ≡ (if text_eq ann.id i then some ann else none)
unfolding memory find upsert
ann_stored i = refl

pub duel-IsSafe : IsSafe duel
duel-IsSafe =
    admit-IsSafe (with_player ann empty_world) bob refl one_live (ground arith)
      (λ j q stored live home same. ground (arith, ann_stored j))
      (admit-IsSafe empty_world ann refl (ground (arith, no_live_player (codes "arena")))
        (ground arith) (λ j q stored live home same. ground (arith, no_player j)) fresh-IsSafe)

arena_stored :
    (i : Text) → host.games.get i duel.games ≡ (if text_eq arena.id i then some arena else none)
unfolding memory find upsert
arena_stored i = refl

duel-IsFunded : IsFunded host duel
duel-IsFunded = record {
  priced = λ i g stored. ground (arith, arena_stored i);
  staked = set-staked host bob (with_player ann empty_world).players (omega arith) (
      set-staked host ann empty_world.players (omega arith)
        (λ i p stored. ground (arith, no_player i)));
}

-- Bob is killed, and a third player pays.
stakes_cover_payments_example :
    book host (run_all host (settle_kill kill_input ∷ record_payment payment_input ∷ []) duel)
    ≤ book host duel
      + deposits host (settle_kill kill_input ∷ record_payment payment_input ∷ []) duel
stakes_cover_payments_example =
    stakes_cover_payments host (settle_kill kill_input ∷ record_payment payment_input ∷ []) duel
      duel-IsSafe duel-IsFunded

-- An arena with five live players, and one more payment for it.
abbrev crowd : World host
crowd = with_player (player_named (codes "cy") alive unset) (
    with_player (player_named (codes "dee") alive unset)
      (with_player (player_named (codes "eli") alive unset) duel))

abbrev late : Payment
late = record {
  payment_hash = codes "beef";
  game_id = codes "arena";
  ln_address = codes "fay@pay.example.org";
  player_name = codes "Fay";
  player_token = codes "token";
  sats = 100;
}

late_arena : host.games.get (codes "arena") crowd.games ≡ some arena
unfolding memory find upsert text_eq
late_arena = refl

late_is_new : host.players.get (codes "beef") crowd.players ≡ none
unfolding memory find upsert text_eq
late_is_new = refl

new_payment_is_booked_example :
    let after = (book_payment host late crowd).1 in
    let live = host.players.count (alive_in arena.id) crowd.players in
    let asked = late_request host late arena crowd in
    (row : Player) × (host.players.get late.payment_hash after.players ≡ some row)
    × IsPayer late arena row
    × (((live < 5) × (row.status ≡ alive) × (after.payments ≡ crowd.payments))
        ⊎ ((5 ≤ live)
            × (is_alive row.status ≡ false)
            × (row.refund_amount ≡ stake_of late arena)
            × (after.payments ≡ asked ∷ crowd.payments)
            × (asked.amount ≡ stake_of late arena)
            × (asked.wallet_id ≡ arena.wallet_id)
            × (asked.lnurl ≡ late.ln_address)))
new_payment_is_booked_example =
    new_payment_is_booked host late arena crowd late_arena late_is_new (omega arith) refl refl
