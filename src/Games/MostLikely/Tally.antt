-- ===== src/Games/MostLikely/Tally.antt =====
-- A round of votes: who can vote for whom, and what the tally counts.
use klatchr.Prelude.{
  ℕ, ◌+◌, ◌≡◌, refl, sym, ap, ◌∙◌, true, false, List, [], ◌∷◌, map, Text, Dict, values, insert, has,
  has-insert, same, same_iff, includes, includes-append, Distinct, ok, fresh, next_of, after,
  after_cases, arith, filter, not, ◌&&◌, length, Bool-cases, inl, inr, All, filter-All,
  includes-filter, Distinct-filter, length-map,
}
use klatchr.Value.{Value}
use klatchr.Strings.{Unicode}
use klatchr.Game.{GameDeps, Player, Score}
use klatchr.Games.{departed}
use klatchr.Games.MostLikely.{
  MltState, MltEvent, results, init, reduce, dispatch, cast_vote, advance, player_joined,
  player_left, on_vote, on_advance, candidates, tally, live_votes, votes_for, is_event, event_of,
}
use klatchr.Games.MostLikely.Secret.{on_vote-ok}

-- Votes are by seated players for seated players, and only seated players have left.
pub record IsValid (s : MltState) : Type 0 where
  pub seats : Distinct s.roster
  pub voters : (k : Text) → has k s.votes ≡ true → includes s.roster k ≡ true
  pub targets : All (λ t. includes s.roster t ≡ true) (values s.votes)
  pub leavers : (k : Text) → includes s.left k ≡ true → includes s.roster k ≡ true

pub init-IsValid :
    (u : Unicode) (active : List Player) (deps : GameDeps) (config : Value)
    → Distinct (map (λ p. p.id) active)
    → IsValid (init u active deps config)
unfolding init has includes
init-IsValid u active deps config d = record {
  seats = d;
  voters = λ k h. cc;
  targets = tt;
  leavers = λ k h. cc;
}

All-values-insert :
    (P : Text → Type 0) (id target : Text) (votes : Dict Text)
    → P target
    → All P (values votes)
    → All P (values (insert id target votes))
unfolding insert
All-values-insert P id target [] p h = (p, tt)
All-values-insert P id target ((k, t) ∷ votes) p h = elim (Bool-cases (same k id)) [
  | inl hit ↦ rw (hit, insert) (p, h.1)
  | inr miss ↦ rw (miss, insert) (h.0, All-values-insert P id target votes p h.1)
]

on_vote-IsValid :
    (s : MltState) (id target : Text)
    → includes s.roster id ≡ true
    → includes s.roster target ≡ true
    → IsValid s
    → IsValid (record s { votes = insert id target s.votes })
on_vote-IsValid s id target seated aimed v = record {
  seats = v.seats;
  voters = λ k h. ground (arith, has-insert id k target s.votes, v.voters k, same_iff id k);
  targets = All-values-insert _ id target s.votes aimed v.targets;
  leavers = v.leavers;
}

departed-IsValid :
    (s : MltState) (id : Text)
    → IsValid s
    → IsValid (next_of s (departed s.roster s.left (λ left. record s { left = left }) id))
unfolding departed includes
departed-IsValid s id v = elim (Bool-cases (includes s.roster id && not (includes s.left id))) [
  | inr stays ↦ rw (stays, next_of) v
  | inl leaves ↦
      rw (leaves, next_of)
        (record {
          seats = v.seats;
          voters = v.voters;
          targets = v.targets;
          leavers =
              λ k h. ground (arith, includes-append s.left (id ∷ []) k, v.leavers k, same_iff id k);
        })
]

on_advance-ok : (s x : MltState) → on_advance s ≡ ok (fresh x) → record s { phase = results } ≡ x
unfolding on_advance
on_advance-ok s x h = ground arith

dispatch-IsValid :
    (s : MltState) (event : MltEvent) → IsValid s → IsValid (after s (dispatch s event))
unfolding dispatch
dispatch-IsValid s (cast_vote id target) v = after_cases IsValid s (on_vote s id target) v λ x e.
    let (_, seated, aimed, _, made) = on_vote-ok s x id target e in
    rw made (on_vote-IsValid s id target seated aimed v)
dispatch-IsValid s advance v = after_cases IsValid s (on_advance s) v λ x e.
    rw (← on_advance-ok s x e)
      (record { seats = v.seats; voters = v.voters; targets = v.targets; leavers = v.leavers })
dispatch-IsValid s player_joined v = v
dispatch-IsValid s (player_left id) v = departed-IsValid s id v

-- Every event keeps a round of votes valid, the malformed and the refused ones too: votes are by
-- seated players for seated players, and only seated players count as having left.
pub reduce-IsValid : (s : MltState) (event : Value) → IsValid s → IsValid (after s (reduce s event))
unfolding reduce
reduce-IsValid s event v = elim (Bool-cases (is_event event)) [
  | inl shaped ↦ rw (shaped, after) (dispatch-IsValid s (event_of event) v)
  | inr bad ↦ rw (bad, after) v
]

-- The points of a list of scores together.
pub total : List Score → ℕ
total [] = 0
total (s ∷ scores) = s.points + total scores

votes_for-cons :
    (c : Text) (cs targets : List Text)
    → includes cs c ≡ false
    → votes_for c targets + length (filter (includes cs) targets)
      ≡ length (filter (includes (c ∷ cs)) targets)
unfolding votes_for includes
votes_for-cons c cs [] h = refl
votes_for-cons c cs (t ∷ targets) h =
    ground (arith, votes_for-cons c cs targets h, same_iff t c, same_iff c t)

nobody : (targets : List Text) → filter (includes []) targets ≡ []
unfolding includes
nobody [] = refl
nobody (t ∷ targets) = nobody targets

total-votes_for :
    (cs targets : List Text)
    → Distinct cs
    → total (map (λ id. record { player_id = id; points = votes_for id targets }) cs)
      ≡ length (filter (includes cs) targets)
unfolding total
total-votes_for [] targets d = sym (ap length (nobody targets))
total-votes_for (c ∷ cs) targets d =
    omega (arith, total-votes_for cs targets d.1, votes_for-cons c cs targets d.0)

live-candidates :
    (left roster : List Text) (votes : Dict Text)
    → All (λ t. includes roster t ≡ true) (values votes)
    → All
        (λ t. includes (filter (λ id. not (includes left id)) roster) t ≡ true)
        (values (filter (λ e. not (includes left e.1)) votes))
live-candidates left roster [] h = tt
live-candidates left roster ((voter, target) ∷ votes) h = elim (Bool-cases (includes left target)) [
  | inl gone ↦ rw gone (live-candidates left roster votes h.1)
  | inr there ↦ rw there (
    rw (includes-filter (λ id. not (includes left id)) target roster, h.0, there) refl,
    live-candidates left roster votes h.1,
  )
]

-- In a valid round the points of the tally add up to the votes for players who are still there:
-- no such vote is lost or counted twice, and a vote for somebody who left counts for nobody.
pub total-tally : (s : MltState) → IsValid s → total (tally s) ≡ length (live_votes s)
unfolding tally candidates live_votes
total-tally s v =
    let stays = λ (id : Text). not (includes s.left id) in
    let named = values (filter (λ e. not (includes s.left e.1)) s.votes) in
    total-votes_for (filter stays s.roster) named (Distinct-filter stays s.roster v.seats)
    ∙ ap length (
        filter-All (includes (filter stays s.roster)) named
          (live-candidates s.left s.roster s.votes v.targets))
    ∙ length-map _ (filter (λ e. not (includes s.left e.1)) s.votes)
