-- ===== src/Server/History/Held.antt =====
-- What holds of every live room, whatever has happened to it.
use klatchr.Prelude.{if_keeps, ℕ, ◌≡◌, refl, sym, subst, Bool, true, false, List, [], Text}
use klatchr.Game.{host}
use klatchr.Registry.{Registry}
use klatchr.Room.{create_room, join, ids}
use klatchr.Room.Invariant.{Inv, IsFresh}
use klatchr.Room.Invariant.Kept.{step-Inv}
use klatchr.Room.Reach.{Reach-Inv}
use klatchr.Games.Catalogue.{AnyState, AnyView, nothing}
use klatchr.Server.Session.{
  Session, Context, create_session, add_host, admit_host, schedule_broadcast, emit, member,
}
use klatchr.Server.Broadcast.{flush, broadcast, close_out}
use klatchr.Server.Attached.{Fits, IsAttached}
use klatchr.Server.Attached.Moves.{Fits-host}
use klatchr.Server.Attached.Kept.{
  leave_session-IsAttached, disconnect-IsAttached, reap-IsAttached, reap_host-IsAttached,
  play-IsAttached, host_action-IsAttached,
}
use klatchr.Server.Attached.Arrivals.{resume_host-IsAttached, join_session-IsAttached}
use klatchr.Server.History.{
  Call, run, Live, opens, called, resumes, joins, acts, plays, leaves, drops, player_due, host_due,
  flushes,
}
use klatchr.Server.History.Refines.{Live-Reach}

nobody : (seats : List Text) → Fits seats [] [] false
unfolding member klatchr.Prelude.includes
nobody seats = record {
  seated = λ c id h. absurd (cc);
  single = λ c d v h k. absurd (cc);
  timed = λ id h. absurd (cc);
  away = λ id c due h. cc;
  host_away = λ c due h. cc;
}

flush-IsAttached : (s : Session) (ctx : Context) → IsAttached s → IsAttached (flush s ctx)
unfolding flush broadcast close_out emit
flush-IsAttached s ctx f =
    if_keeps IsAttached s.pending_broadcast _ s
      (if_keeps IsAttached s.room.closed _ _ (nobody (ids s.room.players)) f) f

add_host-IsAttached :
    (code host_id secret : Text) (conn : ℕ)
    → IsAttached (add_host (create_session (create_room nothing code host_id) secret) conn)
unfolding add_host admit_host create_session schedule_broadcast emit create_room member
add_host-IsAttached code host_id secret conn = Fits-host (nobody []) conn refl λ c h. cc

-- One call keeps connections, seats and timers together, in a room that keeps the invariant.
pub run-IsAttached :
    (s : Session) (call : Call) (ctx : Context)
    → IsFresh s.room ctx
    → Inv ctx.registry s.room
    → IsAttached s
    → IsAttached (run s call ctx)
unfolding run
run-IsAttached s (resumes conn token) ctx free v f = resume_host-IsAttached s conn token f
run-IsAttached s (joins conn nickname token) ctx free v f =
    join_session-IsAttached ctx.registry s conn nickname token ctx
      (step-Inv s.room (join nickname token) host ctx free v) f
run-IsAttached s (acts conn action game_id config) ctx free v f =
    host_action-IsAttached s conn action game_id config ctx f
run-IsAttached s (plays conn event) ctx free v f = play-IsAttached s conn event ctx f
run-IsAttached s (leaves conn) ctx free v f = leave_session-IsAttached s conn ctx f
run-IsAttached s (drops conn) ctx free v f = disconnect-IsAttached s conn f
run-IsAttached s (player_due id) ctx free v f = reap-IsAttached s id ctx f
run-IsAttached s host_due ctx free v f = reap_host-IsAttached s ctx f
run-IsAttached s flushes ctx free v f = flush-IsAttached s ctx f

-- In every live room, whatever its connections have sent and whichever timers have run out: whoever
-- is attached as a player has a seat, no seat and no host's place is taken by two connections, and
-- a grace timer runs only for a seat, or a host's place, that nobody is attached to.
pub Live-IsAttached :
    (r : Registry AnyState AnyView) (code host_id : Text) {s : Session}
    → Live r code host_id s
    → IsAttached s
Live-IsAttached r code host_id (opens secret conn) = add_host-IsAttached code host_id secret conn
Live-IsAttached r code host_id (called {s = before} call ctx same_registry free past) =
    run-IsAttached before call ctx free
      (subst (λ q. Inv q before.room) (sym same_registry)
        (Reach-Inv r nothing code host_id (Live-Reach r code host_id past)))
      (Live-IsAttached r code host_id past)
