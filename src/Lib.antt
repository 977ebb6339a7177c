-- ===== src/Lib.antt =====
-- Klatchr: a party-game platform. Phones and a host's screen share a room; the room runs rounds of
-- small question games and keeps a tally over a session. This library models the platform's core
-- (packages/core) and its games (packages/games), both pure TypeScript, and proves what they
-- promise; of the server (apps/server) it models the live rooms, their hub and the limits on sockets,
-- and of the web app (apps/web) the transport that connects it.
--
-- Parts, and how they interact. A room is a value (Room/State.antt:
-- packages/core/src/roomTypes.ts; Room.antt and its guards: room.ts); `room_reduce` is
-- `roomReduce`, with one function for each event: join_room, leave_room, choose_game
-- (`selectGame`), configure, start, play_event (`gameEvent`), finish_game (`endGame`).
-- `Room.Step.step` is the room after an event: a refused one leaves it. A room finds its game in a
-- registry (Registry.antt: registry.ts) and runs it through the record Game (Game.antt: game.ts,
-- ids.ts, deps.ts, bounds.ts), the interface that the two games fill: Games/GuessWho.antt with
-- State, Cards and View (packages/games/src/guessWho) and Games/MostLikely.antt (mostLikelyTo).
-- Games/Catalogue.antt joins them as the source does (index.ts), with their states in one type,
-- AnyState, for the `unknown` of the source. Seats and tallies of rounds are Rounds.antt
-- (rounds.ts), room codes RoomCode.antt (roomCode.ts), texts and nicknames Strings.antt (text.ts,
-- nickname.ts), questions Games/Prompts.antt (promptConfig.ts), event shapes Value.antt
-- (eventShapes.ts) and Games.antt (eventGuard.ts, roster.ts).
--
-- How the code is rendered. A string is its list of UTF-16 code units, `unknown` the type Value of
-- what JSON can carry. A `Record<string, T>` is an association list in insertion order. A reducer
-- gives `ok kept` where the source returns the very object it was given and `ok (fresh s)` where
-- it makes a new one, since the room compares the two by identity. Points and rounds are natural
-- numbers; the hash is taken modulo 2 ^ 32. Random numbers, ids and secrets come from outside: an
-- event's context carries the id and the secret that its join would draw.
--
-- Parameters. The tables of Unicode in the JavaScript engine (grapheme clusters, lower case,
-- invisible characters, collation) are the record Unicode; theorems hold for all of them, and the
-- one that needs a collation to turn round with its arguments says so. Which room codes are drawn
-- is a function of the number of the draw.
--
-- Bounds and fuel. The loop of generateRoomCode has no bound in the source; it runs on fuel, and
-- enough fuel is as many attempts as it takes to meet a free code. A decimal numeral has ten
-- digits, enough below 10 ^ 10: the salts are below 2 ^ 32 and the cards of a round at most as
-- many as its players.
--
-- A live room is Server/Session.antt and Server/Broadcast.antt (roomSession.ts), with the messages
-- of packages/protocol and connection.ts in Server/Wire.antt: its connections are numbers, what it
-- does to the outside is a log of effects, and the grace timers and the microtask of the broadcast
-- are steps, `reap`, `reap_host` and `flush`. It runs over the catalogue and calls `room_reduce`
-- in `apply`. Server/Events.antt is roomEvents.ts and usage.ts.
--
-- The hub of all rooms is Server/Hub.antt (roomHub.ts), with the messages of the clients in
-- Server/Messages.antt. It keeps the sessions by their codes, binds each connection to a code, and
-- settles the effects of a session's call as the session's callbacks do; each entry ends with the
-- microtask of its room. Server/History.antt lists the calls that a session gets, and
-- Server/Attached.antt says how members, seats and timers fit; Server/Hub/Always.antt lists the
-- hub's entries, and tells from them alone which address opened a room. Server/Sockets.antt is the part of socketServer.ts that is not a call of the http
-- and ws libraries: the rate of a socket's messages, the sockets of an address, the heartbeat.
--
-- The browser's side is Web (apps/web/src). Web/Link.antt and Web/Transport.antt are the reconnecting
-- transport (transport/socket.ts, socket.parts.ts): its state, with each timer as pending or not and
-- each socket under its generation, and one function for each handler; `happen` in
-- Web/Transport/Life.antt lets a listener, a socket, a timer or the device call its handler, and Life
-- is every sequence of that. Of the browser it is assumed that a socket opens only if it has neither
-- been closed nor dropped. Web/Wire.antt is wire.ts and types.ts, Web/Stored.antt factory.ts
-- with the leave of screens/PlayerScreen.tsx,
-- Web/Mock.antt the room of the tests (mockRoom.ts), Web/JoinLink.antt joinLink.ts and Web/Errors.antt
-- errors.ts, Web/PromptSet.antt the edits of games/PromptSetEditor.tsx. Web/Crossing.antt puts the
-- message of an action, the hub's handler and the session in a row.
--
-- Parameters of these parts. JSON and the zod schemas are one function, from a text to a message; the
-- text of a stored host session parses to what was written, where a theorem says so; `toUpperCase`
-- leaves capitals as they are. A thousandth of a token is the unit of the token bucket, so that its
-- refill is exact where the source rounds; the clock is not set back.
--
-- Not modelled: the ready-made question packs, the React components, the bots and the scripts, the
-- files that the server hands out, and the start and the close of its sockets.
pub mod Prelude
pub mod Value
pub mod Strings
pub mod Game
pub mod Registry
pub mod Rounds
pub mod RoomCode
pub mod Room
pub mod Games
pub mod Server
pub mod Web
mod Tests
