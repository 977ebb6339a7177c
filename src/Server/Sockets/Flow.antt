-- ===== src/Server/Sockets/Flow.antt =====
-- The rate at which a socket's messages reach the hub.
use native.Mathlib.Nat.{add-mul}
use klatchr.Prelude.{
  ℕ, zero, suc, ap, ap₂, sym, ◌∙◌, ◌-◌, ltb, tests, if◌then◌else◌, if_true, if_false, Bool-cases,
  inl, inr, ◌==◌, ◌+◌, ◌*◌, ◌≤◌, ◌<◌, ◌≡◌, List, [], ◌∷◌, leb, arith,
}
use klatchr.Server.Sockets.{
  Rate, Gate, Verdict, passes, dropped, max_dropped, full, refill, take, new_gate, on_message,
}

-- A gate after messages that arrive with these times between them.
unfoldable pub gate_after : Rate → Gate → List ℕ → Gate
gate_after rate gate [] = gate
gate_after rate gate (elapsed ∷ times) = gate_after rate (on_message rate gate elapsed).0 times

unfoldable pub passed : Verdict → ℕ
passed passes = 1
passed (dropped notice closes) = 0

-- How many of the messages pass.
unfoldable pub passes_in : Rate → Gate → List ℕ → ℕ
passes_in rate gate [] = 0
passes_in rate gate (elapsed ∷ times) =
    passed (on_message rate gate elapsed).1 + passes_in rate (on_message rate gate elapsed).0 times

-- What the times refill.
unfoldable pub refill_of : Rate → List ℕ → ℕ
refill_of rate [] = 0
refill_of rate (elapsed ∷ times) = elapsed * rate.per_second + refill_of rate times

pub on_message-tokens :
    (rate : Rate) (gate : Gate) (elapsed : ℕ)
    → 1000 * passed (on_message rate gate elapsed).1 + (on_message rate gate elapsed).0.tokens
      ≤ gate.tokens + elapsed * rate.per_second
unfolding on_message take refill passed
on_message-tokens rate gate elapsed = ground arith

pub passes-tokens :
    (rate : Rate) (gate : Gate) (times : List ℕ)
    → 1000 * passes_in rate gate times + (gate_after rate gate times).tokens
      ≤ gate.tokens + refill_of rate times
unfolding passes_in gate_after refill_of
passes-tokens rate gate [] = omega arith
passes-tokens rate gate (elapsed ∷ times) = omega (
  arith,
  on_message-tokens rate gate elapsed,
  passes-tokens rate (on_message rate gate elapsed).0 times,
)

unfoldable pub total : List ℕ → ℕ
total [] = 0
total (elapsed ∷ times) = elapsed + total times

refill_of-total :
    (rate : Rate) (times : List ℕ) → refill_of rate times ≡ total times * rate.per_second
unfolding refill_of total
refill_of-total rate [] = omega arith
refill_of-total rate (elapsed ∷ times) =
    omega (arith, refill_of-total rate times, add-mul elapsed (total times) rate.per_second)

-- Of the messages of one socket, the number that reach the hub is bounded: a thousand times it is at
-- most a thousand times the burst and the rate times the milliseconds that the messages take.
pub passes-burst :
    (rate : Rate) (times : List ℕ)
    → 1000 * passes_in rate (new_gate rate) times
      ≤ 1000 * rate.burst + total times * rate.per_second
unfolding new_gate full
passes-burst rate times =
    omega (arith, passes-tokens rate (new_gate rate) times, refill_of-total rate times)

unfoldable pub at_once : ℕ → List ℕ
at_once zero = []
at_once (suc n) = 0 ∷ at_once n

on_message-dropped :
    (rate : Rate) (tokens count : ℕ)
    → tokens < 1000
    → tokens ≤ full rate
    → (on_message rate (record { tokens = tokens; dropped = count }) 0).1
      ≡ Verdict.dropped (suc count == 1) (leb max_dropped (suc count))
unfolding on_message take refill
on_message-dropped rate tokens count empty below = ground arith

on_message-empty :
    (rate : Rate) (gate : Gate)
    → gate.tokens < 1000
    → gate.tokens ≤ full rate
    → (on_message rate gate 0).0 ≡ record gate { dropped = suc gate.dropped }
unfolding on_message take refill
on_message-empty rate gate empty below = ground arith

-- Messages that come at once while the bucket is empty are dropped, each of them.
gate_after-at_once :
    (rate : Rate) (gate : Gate) (n : ℕ)
    → gate.tokens < 1000
    → gate.tokens ≤ full rate
    → gate_after rate gate (at_once n) ≡ record { tokens = gate.tokens; dropped = gate.dropped + n }
unfolding gate_after at_once
gate_after-at_once rate gate zero empty below = ground arith
gate_after-at_once rate gate (suc n) empty below =
    ap (λ (g : Gate). gate_after rate g (at_once n)) (on_message-empty rate gate empty below)
    ∙ gate_after-at_once rate (record gate { dropped = suc gate.dropped }) n empty below
    ∙ ap (λ (k : ℕ). record gate { dropped = k }) (omega arith)

abbrev as_gate : ℕ → ℕ → Gate
as_gate tokens count = record { tokens = tokens; dropped = count }

-- A gate with that many whole tokens.
abbrev holds : ℕ → Gate
holds k = record { tokens = k * 1000; dropped = 0 }

on_message-passes :
    (rate : Rate) (k : ℕ)
    → suc k ≤ rate.burst
    → on_message rate (holds (suc k)) 0 ≡ (holds k, passes)
unfolding on_message take refill full
on_message-passes rate k below = ground arith

gate_after-holds :
    (rate : Rate) (k n : ℕ)
    → k ≤ rate.burst
    → gate_after rate (holds k) (at_once n) ≡ record { tokens = (k - n) * 1000; dropped = n - k }
unfolding gate_after at_once
gate_after-holds rate k zero below = ap₂ as_gate (omega arith) (omega arith)
gate_after-holds rate zero (suc n) below =
    gate_after-at_once rate (holds zero) (suc n) (omega arith) (ground arith)
    ∙ ap₂ as_gate (omega arith) (omega arith)
gate_after-holds rate (suc k) (suc n) below =
    ap (λ (m : Gate × Verdict). gate_after rate m.0 (at_once n)) (on_message-passes rate k below)
    ∙ gate_after-holds rate k n (omega arith)
    ∙ ap₂ as_gate (omega arith) (omega arith)

-- Of the messages that come at once on a new socket, as many pass as the burst is, and no more.
-- The first one after them is told of the limit, and none after that. From the two hundredth that
-- is dropped on, each closes the socket. This is said of the message that comes after `n` others.
pub flood :
    (rate : Rate) (n : ℕ)
    → (on_message rate (gate_after rate (new_gate rate) (at_once n)) 0).1 ≡ (
        if ltb n rate.burst
        then passes
        else Verdict.dropped (n == rate.burst) (leb (rate.burst + 200) (suc n)))
unfolding new_gate full
flood rate n = elim (Bool-cases (ltb n rate.burst)) [
  | inl early ↦
      let k : ℕ = rate.burst - n - 1 in
      let left : gate_after rate (holds rate.burst) (at_once n) ≡ holds (suc k) =
        gate_after-holds rate rate.burst n (omega arith)
        ∙ ap₂ as_gate (omega tests) (omega tests) in
      ap (λ (g : Gate). (on_message rate g 0).1) left
      ∙ ap (λ (m : Gate × Verdict). m.1) (on_message-passes rate k (omega tests))
      ∙ sym (if_true _ _ _ early)
  | inr late ↦
      ap (λ (g : Gate). (on_message rate g 0).1) (gate_after-holds rate rate.burst n (omega arith))
      ∙ on_message-dropped rate ((rate.burst - n) * 1000) (n - rate.burst) (omega tests)
          (omega tests)
      ∙ ap₂ Verdict.dropped (ground arith) (ground arith)
      ∙ sym (if_false _ _ _ late)
]
