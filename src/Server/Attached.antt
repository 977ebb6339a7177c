-- ===== src/Server/Attached.antt =====
-- Who is attached to a room, and which grace timers run: the connections, the seats and the timers of
-- a session fit together.
pub mod Moves
pub mod Kept
pub mod Arrivals
use klatchr.Prelude.{ℕ, ◌≡◌, ◌≢◌, Bool, true, false, some, List, Text, includes}
use klatchr.Game.{Viewer, player, host}
use klatchr.Room.{ids}
use klatchr.Server.Session.{Session, member}

pub record Fits (seats : List Text) (members : List (ℕ × Viewer)) (reapers : List Text)
    (host_reaping : Bool) : Type 0 where
  -- Whoever is attached as a player has a seat in the room.
  pub seated : (c : ℕ) (id : Text) → member c members ≡ some (player id) → includes seats id ≡ true
  -- A seat, and the host's place, are taken by one connection at most.
  pub single :
      (c d : ℕ) (v : Viewer) → member c members ≡ some v → member d members ≡ some v → c ≡ d
  -- A grace timer runs only for a seat that nobody is attached to.
  pub timed : (id : Text) → includes reapers id ≡ true → includes seats id ≡ true
  pub away : (id : Text) (c : ℕ) → includes reapers id ≡ true → member c members ≢ some (player id)
  pub host_away : (c : ℕ) → host_reaping ≡ true → member c members ≢ some host

abbrev pub IsAttached : Session → Type 0
IsAttached s = Fits (ids s.room.players) s.members s.reapers s.host_reaping
