-- ===== src/Lib.antt =====
-- BananaBread Arena, an extension that runs paid arenas of a multiplayer game on a wallet server.
-- A visitor pays to enter an arena. A kill in the game pays the victim's stake, less a fee, to the
-- killer, and a player who stays disconnected gets the stake back.
--
-- The program has four parts. dev/src/index.js is the extension itself: thirteen calls, each from a
-- JSON request to a JSON reply, over three tables of the host. dev/src/lnbits-sdk.js wraps the
-- host's functions. static/ holds the pages for owners and visitors, which make calls of the
-- extension over a bridge to the page of the wallet server around them. gateway/ is a game server in
-- Go, which makes the calls for admission, kills and disconnects. This library models the first three
-- parts, the bridge included, and leaves the gateway out.
--
-- Which file models which code, in dev/src/index.js unless another file is named:
--   Text, Js        the strings, values and conversions of JavaScript that the code uses
--   Result          its errors: `throw new Error(…)` is an `err`, each message a constructor
--   Normalize       requiredText, cleanText, cleanId, normalizeInteger, normalizePage,
--                   normalizePageSize, normalizeGameSortBy, normalizeLnAddress, maskLnAddress,
--                   parseJsonObject
--   Gateway         normalizeGatewayUrl, buildEnterUrl
--   Rows            the rows of storage/schema.json; the strings of the columns status,
--                   payout_status and refund_status are data types
--   Table           the storage of the host; Table/Memory is a table in memory, for the tests
--   Host            the host: system and wallet of dev/src/lnbits-sdk.js, and the monad of a call
--   Sdk             dev/src/lnbits-sdk.js: Sdk for the arguments that extensionApi builds,
--                   Sdk/Wrappers for storage and wallet, Sdk/Services for the other exports
--   Players         getGame, playersForGame, alivePlayersForGame, playerForToken,
--                   requireAlivePlayer, requirePlayerId, requireServerSecret, nextSlot,
--                   withFreshPlayerCount, updateGameCount, makePlayer
--   Settlement      payPlayer, payKillReward, refundPlayer, settlementStatus, applyPayout,
--                   applyRefund, withheldPayout, storedPayout, storedRefund,
--                   hasUnresolvedSettlement, settlementCounts
--   Views           publicGame, ownerGame, publicPlayer
--   Handlers        the exported calls: Config for settings and wallets, Checks for the tests of
--                   settings, Arenas, Admission, Match for the calls of the gateway, and Retry
--   Run             any sequence of the exported calls
--   Account         what was sent and what is owed, summed over the requests and the rows, and how each
--                   of the calls moves it
--   Lifecycle       the life of a player's row as a machine of phases, and what each of the calls
--                   does to the rows that are stored
--   Admin           the computed properties of the owner's form in static/admin.js, and the requests
--                   that it builds; Admin/Agreement and Admin/Saving compare them with the extension, and
--                   Admin/Loading has ownerSettings and how the form takes its answer.
--                   Admin/Desk has the data of the page, Admin/Methods its methods, and
--                   Admin/Render its render function, a tree of the elements of Admin/Markup
--   PublicPage      static/public.js: PublicPage for its state and what it renders, PublicPage/Events
--                   for its handlers; PublicPage/Server for the extension's lobby on it
--   Bridge          the port of static/lnbits-extension-sdk.js: connectBridge, bridgeRequest,
--                   bridgePortRequest, attachBridgeEvents; Bridge/Subscriptions for
--                   subscribePayment and subscribeWebsocket
--   Client          the messages of createLNbitsExtensionClient, and unwrapRuntimeResponse;
--                   Client/Replies has the JSON of runJson, Client/LobbyJson that of the lobby
-- Proofs stand below the module they are about, or in Account, Lifecycle, Safety, Handlers/Once and
-- Handlers/Effects.
-- Tests holds runs at concrete inputs.
--
-- How state and operations correspond. A function keeps its name, in snake case. A call is a
-- function from the `World` (the tables, and what was asked of the host so far) to a result and the
-- next world. What a call wrote stays written when it throws. Objects are immutable in the code too:
-- it copies rows by spread, so there is no aliasing. A handler is divided where its guards end, so
-- that lemmas can name its parts: kill_call reads the request, settle_kill decides, claim_stake
-- writes and pays.
--
-- A handler of a page waits for answers. It is cut where it waits, and what follows is an event of its
-- own, so that a list of events is one order in which answers, timers and clicks may come. Timeouts
-- of the bridge are signals in the same way. The owner's page keeps a list of what is in flight, and
-- an answer names its place there.
--
-- What is a parameter. `Host` holds the tables, with the laws of `Table`; the clock and the random
-- ids, as functions of how many were read before; and the wallet, whose answer may depend on every
-- request before, and which may throw. `Engine` holds JSON.parse, Number of a string, String of a
-- number, and toLowerCase. `Browser` adds URLSearchParams and JSON.stringify. The pages are given the
-- image of a QR code and the ids of requests as functions. In Sdk the functions of the host are one
-- parameter, and `Runtime` adds JSON.stringify, BigInt and Object.fromEntries. Nothing is assumed of
-- the wallet, the clock, the ids, the engine or the browser but what a theorem names: ids that do not
-- repeat, an engine that reads the value that it wrote, a host that keeps what it was given.
--
-- Bounds. No definition takes fuel: loops are recursions on lists, and the search for a slot runs
-- over the five slots. A number is a decimal fraction or NaN; the infinities are left out. Columns
-- of the schema's numeric types hold natural numbers, which is what the code writes to them, so a
-- reading such as `Number(x || 0)` of a column is the column. A text is a list of UTF-16 code units.
--
-- What is not modelled: the text of JSON, which is a value here; dates and sorting of a page of rows,
-- which the host does; elements of the DOM other than by their contents; what the bridge logs;
-- static/qr.js, a copy of a QR code library; dev/scripts/bundle.mjs, which runs the bundler; the
-- gateway; the tests and the build.
pub mod Prelude
pub mod Text
pub mod Js
pub mod Result
pub mod Normalize
pub mod Gateway
pub mod Rows
pub mod Table
pub mod Host
pub mod Players
pub mod Settlement
pub mod Views
pub mod Handlers
pub mod Run
pub mod Admin
pub mod Bridge
pub mod Client
pub mod PublicPage
pub mod Account
pub mod Safety
pub mod Lifecycle
pub mod Sdk
pub mod Tests
