-- ===== src/Handlers/Effects/Privacy.antt =====
-- What the visitors' calls of dev/src/index.js read of an arena.
use bananabreadwasm.Text.{Text}
use bananabreadwasm.Rows.{Game}
use bananabreadwasm.Host.{Host, World}

-- The columns of an arena that are its owner's alone.
pub record Private : Type 0 where
  pub server_secret : Text
  pub wallet_id : Text
  pub settings_id : Text

-- The arena as it would be with other private columns.
abbrev pub with_private : Private → Game → Game
with_private hidden g = record g {
  server_secret = hidden.server_secret;
  wallet_id = hidden.wallet_id;
  settings_id = hidden.settings_id;
}

module _ (h : Host) where
  abbrev pub hide : Private → Game → World h → World h
  hide hidden g w = record w { games = h.games.set (with_private hidden g) w.games }
