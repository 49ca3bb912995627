-- ===== src/Settlement/Amounts.antt =====
-- How dev/src/index.js divides a stake, and what the wallet is asked for.
use bananabreadwasm.Prelude.{ℕ, ◌+◌, ◌-◌, ◌*◌, ◌≤◌, ◌<◌, arith}
use bananabreadwasm.Settlement.{reward_after_haircut}

mul-le_left : (k a b : ℕ) → a ≤ b → k * a ≤ k * b
mul-le_left k a b h = grind arith

-- The reward is the stake less the haircut, rounded down to a whole sat: at most the exact share,
-- by less than a sat, and never above the stake.
pub reward_after_haircut_bounds :
    (stake haircut : ℕ)
    → (reward_after_haircut stake haircut ≤ stake)
      × (100 * reward_after_haircut stake haircut ≤ stake * (100 - haircut))
      × (stake * (100 - haircut) < 100 * reward_after_haircut stake haircut + 100)
unfolding reward_after_haircut
reward_after_haircut_bounds stake haircut =
    let share = stake * (100 - haircut) in
    let most : share ≤ stake * 100 = mul-le_left stake (100 - haircut) 100 (omega arith) in
    (omega arith, omega arith, omega arith)
