-- ===== src/Server/Sockets/Addresses.antt =====
-- The sockets of each address, and the sweep of those that do not answer.
use klatchr.Prelude.{
  ℕ, ◌+◌, ◌≤◌, ◌≡◌, Bool, true, false, ◌||◌, ◌==◌, none, some, List, [], ◌∷◌, Text, Dict, lookup,
  same, same_iff, includes, if◌then◌else◌, arith, refl, sym, ap, ◌∙◌,
}
use klatchr.Server.Hub.{count_or, release}
use klatchr.Server.Hub.Counts.{count-release, count-insert}
use klatchr.Server.Sockets.{connection, hang_up, terminated, sweep, pong_of}

-- The addresses of the open sockets, and the counts that the server keeps.
pub record Doors : Type 0 where
  pub sockets : List Text
  pub per_ip : Dict ℕ

unfoldable pub held : Text → List Text → ℕ
held a [] = 0
held a (ip ∷ sockets) = (if same ip a then 1 else 0) + held a sockets

unfoldable pub remove : Text → List Text → List Text
remove ip [] = []
remove ip (other ∷ sockets) = if same other ip then sockets else other ∷ remove ip sockets

unfoldable pub arrive : ℕ → Text → Doors → Doors
arrive max ip doors = elim (connection max ip doors.per_ip) [
  | none ↦ doors
  | some per_ip ↦ record { sockets = ip ∷ doors.sockets; per_ip = per_ip }
]

unfoldable pub depart : Text → Doors → Doors
depart ip doors = record { sockets = remove ip doors.sockets; per_ip = hang_up ip doors.per_ip }

-- What a server's sockets do: one arrives, or an open one closes.
pub data Traffic (max : ℕ) : Doors → Type 0 where
  starts : Traffic max (record { sockets = []; per_ip = [] })
  arrives : {doors : Doors} (ip : Text) → Traffic max doors → Traffic max (arrive max ip doors)
  departs :
      {doors : Doors} (ip : Text)
      → includes doors.sockets ip ≡ true
      → Traffic max doors
      → Traffic max (depart ip doors)

hang_up-release : (ip : Text) (per_ip : Dict ℕ) → hang_up ip per_ip ≡ release ip per_ip
unfolding hang_up release
hang_up-release ip per_ip = ground arith

held-remove :
    (ip a : Text) (sockets : List Text)
    → includes sockets ip ≡ true
    → held a (remove ip sockets) + (if same ip a then 1 else 0) ≡ held a sockets
unfolding held remove includes
held-remove ip a [] h = absurd (cc)
held-remove ip a (other ∷ sockets) h =
    ground (arith, held-remove ip a sockets, same_iff other ip, same_iff ip a, same_iff other a)

arrive-counts :
    (max : ℕ) (ip a : Text) (doors : Doors)
    → count_or 0 (lookup a doors.per_ip) ≡ held a doors.sockets
    → count_or 0 (lookup ip doors.per_ip) ≡ held ip doors.sockets
    → held a doors.sockets ≤ max
    → (count_or 0 (lookup a (arrive max ip doors).per_ip) ≡ held a (arrive max ip doors).sockets)
      × (held a (arrive max ip doors).sockets ≤ max)
unfolding arrive connection held
arrive-counts max ip a doors counted counted_ip few =
    ground (
      arith,
      count-insert ip a (count_or 0 (lookup ip doors.per_ip) + 1) doors.per_ip,
      same_iff ip a,
    )

depart-counts :
    (max : ℕ) (ip a : Text) (doors : Doors)
    → includes doors.sockets ip ≡ true
    → count_or 0 (lookup a doors.per_ip) ≡ held a doors.sockets
    → held a doors.sockets ≤ max
    → (count_or 0 (lookup a (depart ip doors).per_ip) ≡ held a (depart ip doors).sockets)
      × (held a (depart ip doors).sockets ≤ max)
unfolding depart
depart-counts max ip a doors there counted few = ground (
  arith,
  hang_up-release ip doors.per_ip,
  count-release ip a doors.per_ip,
  held-remove ip a doors.sockets there,
)

-- Whatever arrives and closes, the count that the server keeps of an address is the number of its
-- open sockets, and that is at most the limit.
pub Traffic-counts :
    (max : ℕ) (doors : Doors) (a : Text)
    → Traffic max doors
    → (count_or 0 (lookup a doors.per_ip) ≡ held a doors.sockets) × (held a doors.sockets ≤ max)
unfolding held count_or lookup
Traffic-counts max _ a starts = (refl, omega arith)
Traffic-counts max _ a (arrives {doors} ip traffic) =
    let here = Traffic-counts max doors a traffic in
    arrive-counts max ip a doors here.0 (Traffic-counts max doors ip traffic).0 here.1
Traffic-counts max _ a (departs {doors} ip there traffic) =
    let here = Traffic-counts max doors a traffic in
    depart-counts max ip a doors there here.0 here.1

-- The sockets that answer, one after the other.
unfoldable pub answers : List ℕ → List (ℕ × Bool) → List (ℕ × Bool)
answers [] sockets = sockets
answers (answering ∷ more) sockets = answers more (pong_of answering sockets)

unfoldable pub one_of : List ℕ → ℕ → Bool
one_of [] n = false
one_of (m ∷ ms) n = (n == m) || one_of ms n

-- The sockets that a sweep keeps.
unfoldable pub kept : List (ℕ × Bool) → List ℕ
kept [] = []
kept ((socket, alive) ∷ sockets) = if alive then socket ∷ kept sockets else kept sockets

unfoldable pub others : List ℕ → List ℕ → List ℕ
others answering [] = []
others answering (socket ∷ sockets) =
    if one_of answering socket then others answering sockets else socket ∷ others answering sockets

others_none : (sockets : List ℕ) → others [] sockets ≡ sockets
unfolding others one_of
others_none [] = refl
others_none (socket ∷ sockets) = ap (λ (xs : List ℕ). socket ∷ xs) (others_none sockets)

terminated-pong_of :
    (answering : ℕ) (more : List ℕ) (sockets : List (ℕ × Bool))
    → others more (terminated (pong_of answering sockets))
      ≡ others (answering ∷ more) (terminated sockets)
unfolding others one_of terminated pong_of
terminated-pong_of answering more [] = refl
terminated-pong_of answering more ((socket, alive) ∷ sockets) =
    ground (arith, terminated-pong_of answering more sockets)

terminated-answers :
    (answering : List ℕ) (sockets : List (ℕ × Bool))
    → terminated (answers answering sockets) ≡ others answering (terminated sockets)
unfolding answers
terminated-answers [] sockets = sym (others_none (terminated sockets))
terminated-answers (x ∷ xs) sockets =
    terminated-answers xs (pong_of x sockets) ∙ terminated-pong_of x xs sockets

terminated-sweep : (sockets : List (ℕ × Bool)) → terminated (sweep sockets) ≡ kept sockets
unfolding terminated sweep kept
terminated-sweep [] = refl
terminated-sweep ((socket, alive) ∷ sockets) = ground (arith, terminated-sweep sockets)

-- Of the sockets that one sweep of the heartbeat keeps, the next sweep terminates those, and only
-- those, that have not answered in between.
pub terminated-next :
    (sockets : List (ℕ × Bool)) (answering : List ℕ)
    → terminated (answers answering (sweep sockets)) ≡ others answering (kept sockets)
terminated-next sockets answering =
    terminated-answers answering (sweep sockets) ∙ ap (others answering) (terminated-sweep sockets)
