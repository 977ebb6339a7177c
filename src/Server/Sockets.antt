-- ===== src/Server/Sockets.antt =====
-- apps/server/src/socketServer.ts: the limits on the sockets and on their messages, and the sweep
-- of the dead ones. A thousandth of a token is the unit of a bucket, so that its refill is exact;
-- the source's floating point rounds it. Times are those that have passed since the last call of the
-- clock, which is not set back.
pub mod Flow
pub mod Addresses
use klatchr.Prelude.{
  ℕ, suc, ◌+◌, ◌-◌, ◌*◌, min, ◌==◌, Bool, true, false, not, ◌&&◌, Option, none, some, List, [], ◌∷◌,
  ◌++◌, Text, codes, Dict, same, lookup, insert, omit, filter, leb, ltb, if◌then◌else◌,
}
use klatchr.Strings.{trim}
use klatchr.Server.Hub.{Hub, is_bound, count_or}

abbrev pub max_conns_per_ip : ℕ
max_conns_per_ip = 200

abbrev pub max_dropped : ℕ
max_dropped = 200

pub record Rate : Type 0 where
  pub per_second : ℕ
  pub burst : ℕ

abbrev pub default_rate : Rate
default_rate = record { per_second = 20; burst = 40 }

unfoldable pub full : Rate → ℕ
full rate = rate.burst * 1000

unfoldable pub refill : Rate → ℕ → ℕ → ℕ
refill rate elapsed tokens = min (full rate) (tokens + elapsed * rate.per_second)

-- The tokens that are left, and whether one was taken.
unfoldable pub take : Rate → ℕ → ℕ → ℕ × Bool
take rate elapsed tokens =
    let now = refill rate elapsed tokens in
    if ltb now 1000 then (now, false) else (now - 1000, true)

pub record Gate : Type 0 where
  pub tokens : ℕ
  pub dropped : ℕ

pub data Verdict : Type 0 where
  passes : Verdict
  dropped : (notice closes : Bool) → Verdict

unfoldable pub new_gate : Rate → Gate
new_gate rate = record { tokens = full rate; dropped = 0 }

-- A message arrives: it is handed to the hub, or it is dropped, perhaps with the notice of the
-- limit, perhaps with the close of the socket.
unfoldable pub on_message : Rate → Gate → ℕ → Gate × Verdict
on_message rate gate elapsed =
    let (tokens, taken) = take rate elapsed gate.tokens in
    if taken then (record { tokens = tokens; dropped = 0 }, passes) else (
      record { tokens = tokens; dropped = suc gate.dropped },
      dropped (suc gate.dropped == 1) (leb max_dropped (suc gate.dropped)),
    )

-- The sockets of an address: one more, unless it holds as many as it may.
unfoldable pub connection : ℕ → Text → Dict ℕ → Option (Dict ℕ)
connection max ip per_ip =
    let count = count_or 0 (lookup ip per_ip) + 1 in
    if ltb max count then none else some (insert ip count per_ip)

-- A socket of an address has closed.
unfoldable pub hang_up : Text → Dict ℕ → Dict ℕ
hang_up ip per_ip =
    let left = count_or 1 (lookup ip per_ip) - 1 in
    if leb left 0 then omit ip per_ip else insert ip left per_ip

-- One sweep of the heartbeat over the sockets and whether each has answered: those that are
-- terminated, and those that are pinged and stay.
unfoldable pub terminated : List (ℕ × Bool) → List ℕ
terminated [] = []
terminated ((socket, alive) ∷ sockets) =
    if alive then terminated sockets else socket ∷ terminated sockets

unfoldable pub sweep : List (ℕ × Bool) → List (ℕ × Bool)
sweep [] = []
sweep ((socket, alive) ∷ sockets) = if alive then (socket, false) ∷ sweep sockets else sweep sockets

-- The socket that answers a ping.
unfoldable pub pong_of : ℕ → List (ℕ × Bool) → List (ℕ × Bool)
pong_of answering [] = []
pong_of answering ((socket, alive) ∷ sockets) =
    (if socket == answering then (socket, true) else (socket, alive)) ∷ pong_of answering sockets

-- The handshake's deadline: a connection that no room has is closed.
unfoldable pub deadline : Hub → ℕ → Bool
deadline hub conn = not (is_bound hub conn)

-- The last part of a text, split at its commas.
unfoldable pub last_part : Text → Text → Text
last_part part [] = part
last_part part (c ∷ rest) = if c == 44 then last_part [] rest else last_part (part ++ c ∷ []) rest

-- The address of a client, from the last `x-forwarded-for` header and the socket's peer.
unfoldable pub client_address : Bool → Option Text → Option Text → Text
client_address trust_proxy header peer =
    let own : Text = elim peer [ none ↦ codes "unknown" | some address ↦ address ] in
    elim header [
      | none ↦ own
      | some text ↦
          if trust_proxy && not (same (trim (last_part [] text)) [])
          then trim (last_part [] text)
          else own
    ]
