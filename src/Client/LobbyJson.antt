-- ===== src/Client/LobbyJson.antt =====
-- The lobby that dev/src/index.js answers with, as JSON.
use bananabreadwasm.Prelude.{ℕ, false, Option, none, some, List, [], ◌∷◌}
use bananabreadwasm.Text.{Text, codes}
use bananabreadwasm.Js.{
  finite, Value, null, bool, num, str, arr, obj, Values, nil, cons, Fields, field, end,
}
use bananabreadwasm.Rows.{
  PlayerStatus, alive, dead, refund_processing, refund_pending, refund_failed, left,
}
use bananabreadwasm.Views.{PublicGame, PublicPlayer}
use bananabreadwasm.Handlers.Arenas.{Lobby}
use bananabreadwasm.PublicPage.{status_text}

abbrev number : ℕ → Value
number n = num (finite false n 0)

-- What the column `status` of a player holds, as text.
unfoldable pub player_status_text : PlayerStatus → Text
player_status_text alive = codes "alive"
player_status_text dead = codes "dead"
player_status_text refund_processing = codes "refund-processing"
player_status_text refund_pending = codes "refund-pending"
player_status_text refund_failed = codes "refund-failed"
player_status_text left = codes "left"

-- `publicGame`
unfoldable pub game_fields : PublicGame → Fields
game_fields g = field "id" (str g.id) (
    field "name" (str g.name) (
      field "joinAmount" (number g.join_amount) (
        field "haircut" (number g.haircut) (
          field "playersCount" (number g.players_count) (
            field "maxPlayers" (number g.max_players) (
              field "gatewayUrl" (str g.gateway_url) (
                field "status" (str g.status) (
                  field "createdAt" (number g.created_at)
                    (field "updatedAt" (number g.updated_at) end)))))))))

-- `enterUrl` is a property of the object only if there is one.
abbrev pub url_fields : Option Text → Fields
url_fields none = end
url_fields (some url) = field "enterUrl" (str url) end

-- `publicPlayer`
unfoldable pub player_fields : PublicPlayer → Fields
unfolding player_status_text status_text
player_fields p = field "id" (str p.id) (
    field "name" (str p.name) (
      field "lnAddress" (str p.ln_address) (
        field "slot" (number p.slot) (
          field "status" (str (player_status_text p.status)) (
            field "paidAmount" (number p.paid_amount) (
              field "payoutAmount" (number p.payout_amount) (
                field "payoutStatus" (str (status_text p.payout_status)) (
                  field "refundAmount" (number p.refund_amount) (
                    field "refundStatus" (str (status_text p.refund_status)) (
                      field "paidAt" (number p.paid_at) (
                        field "connectedAt" (number p.connected_at) (
                          field "disconnectedAt" (number p.disconnected_at) (
                            field "killedAt" (number p.killed_at)
                              (url_fields p.enter_url))))))))))))))

abbrev pub player_values : List PublicPlayer → Values
player_values [] = nil
player_values (p ∷ ps) = cons (obj (player_fields p)) (player_values ps)

abbrev pub own_value : Option PublicPlayer → Value
own_value none = null
own_value (some p) = obj (player_fields p)

-- The result of `getPublicBananabreadwasmGame`
unfoldable pub lobby_fields : Lobby → Fields
unfolding game_fields player_fields
lobby_fields l = field "game" (obj (game_fields l.game)) (
    field "players" (arr (player_values l.players)) (
      field "player" (own_value l.player) (
        field "canJoin" (bool l.can_join) (
          field "admissionsEnabled" (bool l.admissions_enabled) (
            field "minimumJoinSats" (number l.minimum_join_sats) (
              field "maximumJoinSats" (number l.maximum_join_sats) (
                field "disconnectGraceSeconds" (number l.disconnect_grace_seconds)
                  (field "serverTimeMs" (number l.server_time_ms) end))))))))
