-- ===== src/Web/Crossing.antt =====
-- The message that apps/web/src/transport/wire.ts makes of an app's action, in the handlers of
-- apps/server/src/roomHub.ts and roomSession.ts, beside the engine of transport/mockRoom.ts, which
-- applies the action to its room at once.
use klatchr.Prelude.{
  ℕ, ◌≡◌, ◌≢◌, ap, refl, ◌∙◌, Bool, true, false, not, Option, none, some, Text, if_false, arith,
}
use klatchr.Value.{Value, undefined, null, bool, num, str, arr, obj, is_record, is_advance}
use klatchr.Game.{host, player}
use klatchr.Room.{RoomEvent}
use klatchr.Server.Events.{
  HostAction, selects, configures, starts, ends, host_event, stamp_player_id,
}
use klatchr.Server.Session.{
  Session, Context, member, apply, report, host_action, play, forward_game_event,
}
use klatchr.Server.Hub.{Limits, Hub, Sources, room_of, route, handle, store, flush_room}
use klatchr.Web.Mock.{mock_event}
use klatchr.Web.Wire.{
  Action, select_game, configure_game, start_game, end_game, leave, game_event, to_wire, or_null,
}

-- The actions that are a host's: the controls, and the advance of the game.
unfoldable pub is_control : Action → Bool
is_control leave = false
is_control (game_event event) = is_advance event
is_control action = true

route-found :
    (hub : Hub) (conn : ℕ) (code own : Text) (s : Session) (action : Session → Session)
    (ctx : Context)
    → room_of hub conn ≡ some (own, s)
    → route hub conn code action ctx ≡ flush_room (store hub own (action s)) own ctx
unfolding route
route-found hub conn code own s action ctx found = rw (found, route) refl

host_action-host :
    (s : Session) (conn : ℕ) (action : HostAction) (game_id : Option Text) (config : Value)
    (event : RoomEvent) (ctx : Context)
    → member conn s.members ≡ some host
    → host_event action game_id config ≡ some event
    → host_action s conn action game_id config ctx ≡ report conn (apply s event host ctx)
unfolding host_action
host_action-host s conn action game_id config event ctx hosting made =
    rw (hosting, made, host_action) refl

or_null-advance : (event : Value) → is_advance event ≡ true → or_null event ≡ event
unfolding or_null is_advance is_record
or_null-advance undefined h = ground arith
or_null-advance null h = refl
or_null-advance (bool b) h = refl
or_null-advance (num n) h = refl
or_null-advance (str t) h = refl
or_null-advance (arr xs) h = refl
or_null-advance (obj fs) h = refl

play-host :
    (s : Session) (conn : ℕ) (event : Value) (ctx : Context)
    → member conn s.members ≡ some host
    → is_advance event ≡ true
    → play s conn event ctx ≡ report conn (apply s (RoomEvent.game_event event) host ctx)
unfolding play forward_game_event
play-host s conn event ctx hosting advance =
    rw (hosting, play) (if_false (not (is_advance event)) _ _ (rw advance refl))

play-player :
    (s : Session) (conn : ℕ) (id : Text) (event : Value) (ctx : Context)
    → member conn s.members ≡ some (player id)
    → is_advance event ≡ false
    → play s conn event ctx
      ≡ report conn (apply s (RoomEvent.game_event (stamp_player_id event id)) (player id) ctx)
unfolding play forward_game_event
play-player s conn id event ctx seated other = rw (seated, play) (if_false _ _ _ other)

settled_as :
    (hub : Hub) (own : Text) (ctx : Context) {s t : Session}
    → s ≡ t
    → flush_room (store hub own s) own ctx ≡ flush_room (store hub own t) own ctx
settled_as hub own ctx same = ap (λ (s : Session). flush_room (store hub own s) own ctx) same

control_crosses :
    (hub : Hub) (conn : ℕ) (code own : Text) (s : Session) (action : HostAction)
    (game_id : Option Text) (config : Value) (event : RoomEvent) (ctx : Context)
    → room_of hub conn ≡ some (own, s)
    → member conn s.members ≡ some host
    → host_event action game_id config ≡ some event
    → route hub conn code (λ s. host_action s conn action game_id config ctx) ctx
      ≡ flush_room (store hub own (report conn (apply s event host ctx))) own ctx
control_crosses hub conn code own s action game_id config event ctx found hosting made =
    route-found hub conn code own s _ ctx found
    ∙ settled_as hub own ctx (host_action-host s conn action game_id config event ctx hosting made)

or_null-there : (event : Value) → event ≢ undefined → or_null event ≡ event
unfolding or_null
or_null-there undefined h = absurd (h refl)
or_null-there null h = refl
or_null-there (bool b) h = refl
or_null-there (num n) h = refl
or_null-there (str t) h = refl
or_null-there (arr xs) h = refl
or_null-there (obj fs) h = refl

-- The message that the wire module makes of a control, once it has reached the hub's handler as it
-- was made, is applied to the host's room as the event that the mock engine applies at once, with
-- the host as its actor; what the room refuses is reported to the host, and the room's microtask
-- runs. The text of the message and the limits of its parser are not part of this.
handle-to_wire :
    (limits : Limits) (hub : Hub) (conn : ℕ) (address : Option Text) (action : Action)
    (code own : Text) (s : Session) (src : Sources)
    → room_of hub conn ≡ some (own, s)
    → member conn s.members ≡ some host
    → is_control action ≡ true
    → handle limits hub conn address (to_wire action code) src
      ≡ flush_room
          (store hub own (report conn (apply s (mock_event action) host src.ctx)))
          own
          src.ctx
unfolding handle to_wire mock_event is_control host_event
handle-to_wire limits hub conn address (select_game game_id) code own s src found hosting control =
    control_crosses hub conn code own s selects (some game_id) undefined
      (RoomEvent.select_game game_id) src.ctx found hosting refl
handle-to_wire limits hub conn address (configure_game config) code own s src found hosting
      control =
    control_crosses hub conn code own s configures none config (RoomEvent.configure_game config)
      src.ctx found hosting refl
handle-to_wire limits hub conn address start_game code own s src found hosting control =
    control_crosses hub conn code own s starts none undefined RoomEvent.start_game src.ctx found
      hosting refl
handle-to_wire limits hub conn address end_game code own s src found hosting control =
    control_crosses hub conn code own s ends none undefined RoomEvent.end_game src.ctx found hosting
      refl
handle-to_wire limits hub conn address leave code own s src found hosting control = absurd (cc)
handle-to_wire limits hub conn address (game_event event) code own s src found hosting control =
    route-found hub conn code own s _ src.ctx found
    ∙ settled_as hub own src.ctx (
        ap (λ v. play s conn v src.ctx) (or_null-advance event control)
        ∙ play-host s conn event src.ctx hosting control)

-- The message that the wire module makes of a player's game event, once it has reached the hub's
-- handler as it was made, is applied to the player's room as that event with the player's own id
-- stamped into it, and with the player as its actor; it is not the host's advance, and it is there.
handle-to_wire_player :
    (limits : Limits) (hub : Hub) (conn : ℕ) (address : Option Text) (event : Value)
    (code own id : Text) (s : Session) (src : Sources)
    → room_of hub conn ≡ some (own, s)
    → member conn s.members ≡ some (player id)
    → is_advance event ≡ false
    → event ≢ undefined
    → handle limits hub conn address (to_wire (game_event event) code) src
      ≡ flush_room
          (store hub own (
            report conn
              (apply s (mock_event (game_event (stamp_player_id event id))) (player id) src.ctx)))
          own
          src.ctx
unfolding handle to_wire mock_event
handle-to_wire_player limits hub conn address event code own id s src found seated other there =
    route-found hub conn code own s _ src.ctx found
    ∙ settled_as hub own src.ctx (
        ap (λ v. play s conn v src.ctx) (or_null-there event there)
        ∙ play-player s conn id event src.ctx seated other)
