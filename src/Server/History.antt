-- ===== src/Server/History.antt =====
-- apps/server/src/roomSession.ts: the calls that the hub and the timers make of a live room, and
-- every session that a history of them makes.
pub mod Refines
pub mod Held
use klatchr.Prelude.{ℕ, ◌≡◌, Option, none, some, Text}
use klatchr.Value.{Value}
use klatchr.Registry.{Registry}
use klatchr.Room.{Room, create_room}
use klatchr.Room.Invariant.{IsFresh}
use klatchr.Games.Catalogue.{AnyState, AnyView, nothing}
use klatchr.Server.Events.{HostAction}
use klatchr.Server.Session.{
  Session, Context, create_session, add_host, resume_host, join_session, host_action, play,
  leave_session, disconnect, reap, reap_host,
}
use klatchr.Server.Broadcast.{flush}

pub data Call : Type 0 where
  resumes : (conn : ℕ) (token : Text) → Call
  joins : (conn : ℕ) (nickname : Text) (token : Option Text) → Call
  acts : (conn : ℕ) (action : HostAction) (game_id : Option Text) (config : Value) → Call
  plays : (conn : ℕ) (event : Value) → Call
  leaves : (conn : ℕ) → Call
  drops : (conn : ℕ) → Call
  player_due : (id : Text) → Call
  host_due : Call
  flushes : Call

unfoldable pub run : Session → Call → Context → Session
run s (resumes conn token) ctx = (resume_host s conn token).0
run s (joins conn nickname token) ctx = (join_session s conn nickname token ctx).0
run s (acts conn action game_id config) ctx = host_action s conn action game_id config ctx
run s (plays conn event) ctx = play s conn event ctx
run s (leaves conn) ctx = leave_session s conn ctx
run s (drops conn) ctx = disconnect s conn
run s (player_due id) ctx = reap s id ctx
run s host_due ctx = reap_host s ctx
run s flushes ctx = flush s ctx

-- A live room, from its opening on: every call has its own fresh id, over one registry.
pub data Live (r : Registry AnyState AnyView) (code host_id : Text) : Session → Type 0 where
  opens :
      (secret : Text) (conn : ℕ)
      → Live r code host_id
          (add_host (create_session (create_room nothing code host_id) secret) conn)
  called :
      {s : Session} (call : Call) (ctx : Context)
      → ctx.registry ≡ r
      → IsFresh s.room ctx
      → Live r code host_id s
      → Live r code host_id (run s call ctx)
