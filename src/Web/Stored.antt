-- ===== src/Web/Stored.antt =====
-- apps/web/src/transport/factory.ts and apps/web/src/screens/PlayerScreen.tsx: what the browser keeps
-- of a host's and a player's session over a reload, in localStorage and sessionStorage. The JSON text of a host session is a parameter:
-- `JSON.stringify`, and the parser with the checks of the fields' types.
pub mod Laws
use klatchr.Prelude.{
  ℕ, ◌≡◌, Bool, true, false, Option, none, some, List, [], ◌∷◌, ◌++◌, Text, codes, Dict, lookup,
  insert, omit, same, includes, if◌then◌else◌,
}
use klatchr.Web.Link.{
  SocketInit, host_init, player_init, Notice, token_told, host_told, terminal_told,
}

pub record Storage : Type 0 where
  pub local : Dict Text
  pub session : Dict Text

abbrev pub host_key : Text
host_key = codes "klatchr:host"

abbrev pub gone : List Text
gone = codes "ROOM_CLOSED" ∷ codes "NO_SUCH_ROOM" ∷ codes "BAD_HOST_TOKEN" ∷ []

unfoldable pub nick_key : Text → Text
nick_key code = codes "klatchr:nick:" ++ code

unfoldable pub reconnect_key : Text → Text
reconnect_key code = codes "klatchr:reconnect:" ++ code

unfoldable pub migrate_legacy_host_session : Storage → Storage
migrate_legacy_host_session storage = elim (lookup host_key storage.local) [
  | none ↦ storage
  | some legacy ↦ record {
    local = omit host_key storage.local;
    session = elim (lookup host_key storage.session) [
      | none ↦ insert host_key legacy storage.session
      | some own ↦ storage.session
    ];
  }
]

-- The storage after the migration, and the host session that it holds.
unfoldable pub stored_host_session :
    (Text → Option (Text × Text)) → Storage → Storage × Option (Text × Text)
stored_host_session parse storage =
    let moved = migrate_legacy_host_session storage in
    (moved, elim (lookup host_key moved.session) [ none ↦ none | some raw ↦ parse raw ])

unfoldable pub clear_host_session : Storage → Storage
clear_host_session storage = record storage { session = omit host_key storage.session }

-- What the callbacks of a host's transport do to the storage.
unfoldable pub heed_host : (Text → Text → Text) → Storage → Notice → Storage
heed_host stringify storage (host_told code host_token) = record storage {
  session = insert host_key (stringify code host_token) storage.session;
}
heed_host stringify storage (terminal_told message) =
    if includes gone message then clear_host_session storage else storage
heed_host stringify storage notice = storage

unfoldable pub stored_nick : Text → Storage → Option Text
stored_nick code storage = lookup (nick_key code) storage.local

unfoldable pub forget_player_session : Text → Storage → Storage
forget_player_session code storage = record storage {
  local = omit (nick_key code) (omit (reconnect_key code) storage.local);
}

-- A player's transport: what it starts from, and what is recorded at once.
unfoldable pub create_player_transport : Text → Text → Storage → Storage × SocketInit
create_player_transport code nickname storage = elim (lookup (reconnect_key code) storage.local) [
  | none ↦ (
    record storage { local = insert (nick_key code) nickname storage.local },
    player_init code nickname none,
  )
  | some token ↦ (storage, player_init code nickname (some token))
]

-- What the callbacks of a player's transport do to the storage.
unfoldable pub heed_player : Text → Storage → Notice → Storage
heed_player code storage (token_told token) = record storage {
  local = insert (reconnect_key code) token storage.local;
}
heed_player code storage (terminal_told message) =
    if includes gone message then forget_player_session code storage else storage
heed_player code storage notice = storage

-- `PhoneLobby`'s `onLeave`: the session is forgotten if the link is live, so that the leave has
-- really gone out.
unfoldable pub on_leave : Bool → Text → Storage → Storage
on_leave live frame_code storage =
    if live then forget_player_session frame_code storage else storage

-- What happens to a player's session in the browser.
pub data PlayerEvent : Type 0 where
  told : Notice → PlayerEvent
  leaves : (live : Bool) (frame_code : Text) → PlayerEvent

unfoldable pub heed_event : Text → Storage → PlayerEvent → Storage
heed_event code storage (told notice) = heed_player code storage notice
heed_event code storage (leaves live frame_code) = on_leave live frame_code storage

unfoldable pub heed_events : Text → Storage → List PlayerEvent → Storage
heed_events code storage [] = storage
heed_events code storage (event ∷ events) = heed_events code (heed_event code storage event) events

-- `resolveWsUrl`, with the location's scheme and host.
unfoldable pub resolve_ws_url : Option Text → Text → Text → Option Text
resolve_ws_url none protocol host = none
resolve_ws_url (some raw) protocol host =
    if same raw (codes "same-origin")
    then some (
        (if same protocol (codes "https:") then codes "wss" else codes "ws") ++ codes "://" ++ host)
    else some raw
