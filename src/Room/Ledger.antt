-- ===== src/Room/Ledger.antt =====
-- Points that wait for a player who left: `leave` parks them, `join` under the same name takes
-- them back.
use klatchr.Prelude.{
  ℕ, ◌≡◌, refl, ◌∙◌, ◌<◌, false, not, none, some, List, [], ◌∷◌, Text, lookup, lookup-insert,
  lookup-omit, lookup-insert_self, same, same_refl, length, filter, find, length-filter-le, ok,
  arith, lt→leb-false,
}
use klatchr.Strings.{normalise_nickname, NormalisedNickname}
use klatchr.Game.{Player, Viewer, player, max_players_bound}
use klatchr.Room.{
  Room, ReduceContext, join, leave, room_reduce, join_room, leave_room, seat_joiner, drop_player,
  reclaim, park, ledger_key, resumes,
}
use klatchr.Room.Step.{step}
use klatchr.Value.{Value}
use klatchr.Value.Equality.{same_json}
use klatchr.Game.{host}
use klatchr.Room.{
  configure_game, configure, require_host_before_game, require_host, is_host, is_in_game,
}
use klatchr.Room.Invariant.{Inv}

length-filter-lt :
    (id : Text) (ps : List Player) (p : Player)
    → find (λ q. same q.id id) ps ≡ some p
    → length (filter (λ q. not (same q.id id)) ps) < length ps
length-filter-lt id [] p h = cc
length-filter-lt id (q ∷ ps) p h =
    ground (arith, length-filter-lt id ps p, length-filter-le (λ q. not (same q.id id)) ps)

-- What the reclaim of parked points makes of the tally and the ledger.
reclaim_lem :
    {S : Type 0} (key id : Text) (points : ℕ) (room : Room S)
    → lookup key room.score_ledger ≡ some points
    → (lookup id (reclaim key id room).session_scores ≡ some points)
      × (lookup key (reclaim key id room).score_ledger ≡ none)
      × ((k : Text)
          → same id k ≡ false
          → lookup k (reclaim key id room).session_scores ≡ lookup k room.session_scores)
unfolding reclaim
reclaim_lem key id points room h =
    rw (h, reclaim)
      (
        lookup-insert_self id points room.session_scores,
        ground (arith, lookup-omit key key room.score_ledger, same_refl key),
        λ k d. ground (arith, lookup-insert id k points room.session_scores),
      )

module _ {S V : Type 0} where
  -- A join under a usable name into a room with a free seat, with no token, gets the seat.
  pub step-join :
      (room : Room S) (nickname : Text) (name : NormalisedNickname) (actor : Viewer)
      (ctx : ReduceContext S V)
      → normalise_nickname ctx.unicode nickname ≡ ok name
      → length room.players < max_players_bound
      → step room (join nickname none) actor ctx ≡ seat_joiner room name.display ctx
  unfolding step room_reduce join_room resumes
  step-join room nickname name actor ctx named free =
      ground (arith, lt→leb-false (length room.players) max_players_bound free)

  reclaimed :
      (room : Room S) (display : Text) (points : ℕ) (ctx : ReduceContext S V)
      → lookup (ledger_key ctx.unicode display) room.score_ledger ≡ some points
      → (lookup ctx.id (seat_joiner room display ctx).session_scores ≡ some points)
        × (lookup (ledger_key ctx.unicode display) (seat_joiner room display ctx).score_ledger
            ≡ none)
        × ((k : Text)
            → same ctx.id k ≡ false
            → lookup k (seat_joiner room display ctx).session_scores ≡ lookup k room.session_scores)
  unfolding seat_joiner
  reclaimed room display points ctx h =
      reclaim_lem (ledger_key ctx.unicode display) ctx.id points _ h

  step-leave :
      (room : Room S) (id : Text) (ctx : ReduceContext S V)
      → step room leave (player id) ctx ≡ drop_player room id ctx
  unfolding step room_reduce leave_room
  step-leave room id ctx = refl

  seat_freed :
      (room : Room S) (id : Text) (p : Player) (ctx : ReduceContext S V)
      → Inv ctx.registry room
      → find (λ q. same q.id id) room.players ≡ some p
      → length (drop_player room id ctx).players < max_players_bound
  unfolding drop_player
  seat_freed room id p ctx v found =
      omega (arith, length-filter-lt id room.players p found, v.bounded)

  no_points :
      (room : Room S) (id : Text) (ctx : ReduceContext S V)
      → lookup id (drop_player room id ctx).session_scores ≡ none
  unfolding drop_player
  no_points room id ctx = ground (arith, lookup-omit id id room.session_scores, same_refl id)

  parked_points :
      (room : Room S) (id : Text) (p : Player) (points : ℕ) (ctx : ReduceContext S V)
      → find (λ q. same q.id id) room.players ≡ some p
      → lookup id room.session_scores ≡ some points
      → lookup (ledger_key ctx.unicode p.nickname) (drop_player room id ctx).score_ledger
        ≡ some points
  unfolding drop_player park
  parked_points room id p points ctx found scored =
      rw (found, scored)
        (lookup-insert_self (ledger_key ctx.unicode p.nickname) points room.score_ledger)

  -- In a room that keeps the invariant, a player with points in the tally who leaves, and joins
  -- again with no token, a new id and a usable name that agrees with the old one up to case, has
  -- those points again; the old id has none, and the ledger no longer holds them, so that nobody
  -- can claim them a second time.
  pub rejoin_reclaims :
      (room : Room S) (id : Text) (p : Player) (points : ℕ) (nickname : Text)
      (name : NormalisedNickname) (ctx later : ReduceContext S V)
      → Inv ctx.registry room
      → find (λ q. same q.id id) room.players ≡ some p
      → lookup id room.session_scores ≡ some points
      → normalise_nickname later.unicode nickname ≡ ok name
      → ledger_key later.unicode name.display ≡ ledger_key ctx.unicode p.nickname
      → same later.id id ≡ false
      → let back = step (step room leave (player id) ctx) (join nickname none) (player id) later in
        (lookup later.id back.session_scores ≡ some points)
        × (lookup id back.session_scores ≡ none)
        × (lookup (ledger_key later.unicode name.display) back.score_ledger ≡ none)
  rejoin_reclaims room id p points nickname name ctx later v found scored named agree other =
      let gone = drop_player room id ctx in
      let back =
        reclaimed gone name.display points later
          (rw agree (parked_points room id p points ctx found scored)) in
      rw
        (
          step-leave room id ctx,
          step-join gone nickname name (player id) later named (seat_freed room id p ctx v found),
        )
        (back.0, back.2 id other ∙ no_points room id ctx, back.1)

  reconfigured :
      (room : Room S) (config : Value) (ctx : ReduceContext S V)
      → is_in_game room.phase ≡ false
      → same_json config room.game_config ≡ false
      → step room (configure_game config) host ctx
        ≡ record room { game_config = config; round = 0; session_scores = [] }
  unfolding step room_reduce configure require_host_before_game require_host is_host
  reconfigured room config ctx idle new = ground arith

  -- With no round running, a config from the host that differs from the room's empties the tally
  -- but not the ledger: a join with no token, into a free seat and under a usable name that has
  -- parked points, starts the new session with the points of the old one.
  pub reclaim_after_configure :
      (room : Room S) (config : Value) (nickname : Text) (name : NormalisedNickname) (points : ℕ)
      (ctx later : ReduceContext S V)
      → is_in_game room.phase ≡ false
      → same_json config room.game_config ≡ false
      → length room.players < max_players_bound
      → normalise_nickname later.unicode nickname ≡ ok name
      → lookup (ledger_key later.unicode name.display) room.score_ledger ≡ some points
      → let new = step room (configure_game config) host ctx in
        (new.session_scores ≡ [])
        × (lookup later.id (step new (join nickname none) host later).session_scores ≡ some points)
  reclaim_after_configure room config nickname name points ctx later idle new free named parked =
      let room' = record room { game_config = config; round = 0; session_scores = [] } in
      rw (reconfigured room config ctx idle new) (
        refl,
        rw (step-join room' nickname name host later named free)
            ((reclaimed room' name.display points later parked).0),
      )
