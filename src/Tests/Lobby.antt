-- ===== src/Tests/Lobby.antt =====
-- Runs of the calls that admit players, delete arenas and normalise fields.
use bananabreadwasm.Prelude.{◌⊎◌, ◌≡◌, refl, false, none, [], ◌∷◌}
use bananabreadwasm.Text.{
  codes, text_eq, is_space, trim_start, drop_end, trim, before, after, ascii_lower,
}
use bananabreadwasm.Result.{Result, ok, err, invalid_ln_address}
use bananabreadwasm.Js.{str, get_field, member, nullish_or, truthy, or_value, string_of, number_of}
use bananabreadwasm.Normalize.{
  clean_text, required_text, parse_json_object, normalize_ln_address, matches_address, is_domain,
  has_dot, is_address_char,
}
use bananabreadwasm.Normalize.Address.{IsAddress, normalize_ln_address-decides}
use bananabreadwasm.Rows.{dead}
use bananabreadwasm.Table.Memory.{memory, find, upsert}
use bananabreadwasm.Host.{World, now_of, time_at, now}
use bananabreadwasm.Players.{
  get_game, alive_players_for_game, next_slot, free_slot, with_fresh_player_count,
  update_game_count, make_player,
}
use bananabreadwasm.Gateway.{build_enter_url, encode_uri_component, percent_utf8}
use bananabreadwasm.Views.{public_game, public_player, private_player}
use bananabreadwasm.Handlers.Arenas.{delete_bananabreadwasm_game}
use bananabreadwasm.Handlers.Admission.{
  Recorded, event_payment_hash, payment_of, admit_payment, settle_admission, record_payment,
  record_bananabreadwasm_payment,
}
use bananabreadwasm.Handlers.Once.Payment.{record_bananabreadwasm_payment_again}
use bananabreadwasm.Run.{record_payment as call_record_payment, settle_kill, run_all}
use bananabreadwasm.Safety.{IsSafe}
use bananabreadwasm.Safety.Sequence.{run_all-IsSafe}
use bananabreadwasm.Tests.Account.{fresh-IsSafe}
use bananabreadwasm.Tests.Sample.{
  engine, host, arena, ghost, empty_world, duel, with_player, kill_input, payment_input,
  arena_input,
}

-- An arena whose one player is dead and paid for.
abbrev graveyard : World host
graveyard = with_player ghost empty_world

abbrev after_deletion : World host
after_deletion = (delete_bananabreadwasm_game host arena_input graveyard).1

run_all-IsSafe_example :
    IsSafe
      (run_all host (call_record_payment payment_input ∷ settle_kill kill_input ∷ []) empty_world)
run_all-IsSafe_example =
    run_all-IsSafe host (call_record_payment payment_input ∷ settle_kill kill_input ∷ [])
      empty_world fresh-IsSafe

abbrev after_payment : World host
after_payment = (record_bananabreadwasm_payment host payment_input duel).1

abbrev or_else : {A : Type 0} → A → Result A → A
or_else a (ok b) = b
or_else a (err e) = a

abbrev returned : Recorded
returned =
    or_else
      (record {
        game = public_game arena;
        player = public_player engine ghost false;
        status = dead;
        refund = none;
      })
      (record_bananabreadwasm_payment host payment_input duel).0

payment_returns :
    record_bananabreadwasm_payment host payment_input duel ≡ (ok returned, after_payment)
unfolding record_bananabreadwasm_payment payment_of event_payment_hash record_payment
    settle_admission admit_payment parse_json_object truthy or_value required_text clean_text
    string_of number_of nullish_or get_field member get_game normalize_ln_address matches_address
    is_domain has_dot is_address_char before after ascii_lower trim trim_start drop_end is_space
    text_eq memory find upsert alive_players_for_game next_slot free_slot now time_at now_of
    make_player update_game_count with_fresh_player_count private_player build_enter_url
    encode_uri_component percent_utf8
payment_returns = refl

record_bananabreadwasm_payment_again_example :
    (again : Recorded) × (record_bananabreadwasm_payment host payment_input after_payment
      ≡ (ok again, after_payment))
    × (again.player ≡ returned.player)
    × (again.status ≡ returned.status)
record_bananabreadwasm_payment_again_example =
    record_bananabreadwasm_payment_again host payment_input duel after_payment returned
      payment_returns

address_given :
    required_text engine (str (codes "ann@pay.example.org")) "lnAddress" 320
    ≡ ok (codes "ann@pay.example.org")
unfolding required_text clean_text string_of nullish_or trim trim_start drop_end is_space
address_given = refl

normalize_ln_address-decides_example :
    let text = engine.to_lower (codes "ann@pay.example.org") in
    ((normalize_ln_address engine (str (codes "ann@pay.example.org")) ≡ ok text) × IsAddress text)
    ⊎ ((normalize_ln_address engine (str (codes "ann@pay.example.org")) ≡ err invalid_ln_address)
        × (IsAddress text → ⊥))
normalize_ln_address-decides_example =
    normalize_ln_address-decides engine (str (codes "ann@pay.example.org"))
      (codes "ann@pay.example.org") address_given
