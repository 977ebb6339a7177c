-- ===== src/Room/Reach.antt =====
-- Every room that a history of events can make from a new one.
use klatchr.Prelude.{
  ◌≡◌, ◌≢◌, refl, subst, sym, Text, Option, none, some, List, [], Bool, true, Result, ok, err, Next,
  kept, fresh, next_of, Bool-cases, Result-cases, inl, inr, arith, if◌then◌else◌, Option-cases,
}
use klatchr.Value.{Value}
use klatchr.Game.{
  Game, Viewer, Player, GameDeps, RosterEvent, player_joined, player_left, roster_value,
}
use klatchr.Registry.{Registry, get_game}
use klatchr.Room.{
  Room, RoomEvent, ReduceContext, Phase, lobby, in_game, scores_shown, join, leave, select_game,
  configure_game, start_game, game_event, end_game, create_room, room_reduce, is_in_game,
  active_game, advance_game, begin_round, seat_joiner, drop_player, forward_roster, reclaim,
  ledger_key, new_player,
}
use klatchr.Room.Step.{
  step, join_cases, leave_cases, choose_cases, configure_cases, start_cases, play_cases,
  finish_cases,
}
use klatchr.Room.Invariant.{Inv, IsFresh}
use klatchr.Room.Invariant.Kept.{step-Inv}

-- A history: events from any actor, each with its own fresh id, over one registry.
pub data Reach {S V : Type 0} (r : Registry S V) (null : S) (code host_id : Text)
    : Room S → Type 0 where
  created : Reach r null code host_id (create_room null code host_id)
  stepped :
      {room : Room S} (event : RoomEvent) (actor : Viewer) (ctx : ReduceContext S V)
      → ctx.registry ≡ r
      → IsFresh room ctx
      → Reach r null code host_id room
      → Reach r null code host_id (step room event actor ctx)

module _ {S V : Type 0} where
  create_room-Inv :
      (r : Registry S V) (null : S) (code host_id : Text) → Inv r (create_room null code host_id)
  unfolding create_room is_in_game klatchr.Prelude.has klatchr.Prelude.includes
  create_room-Inv r null code host_id = record {
    bounded = omega arith;
    distinct = tt;
    tokens_match = refl;
    scores_seated = λ k h. cc;
    playing = λ h. cc;
    within_set = λ id game count s g c. omega arith;
  }

  -- Every room that can be reached has at most 50 players with distinct ids, a token for each of
  -- them and for nobody else, points for seated players only, a registered game while it plays, and
  -- has not started more rounds than the chosen set has questions.
  pub Reach-Inv :
      (r : Registry S V) (null : S) (code host_id : Text) {room : Room S}
      → Reach r null code host_id room
      → Inv r room
  Reach-Inv r null code host_id created = create_room-Inv r null code host_id
  Reach-Inv r null code host_id (stepped {room = before} event actor ctx same_registry free past) =
      subst (λ q. Inv q (step before event actor ctx)) same_registry
        (step-Inv before event actor ctx free
          (subst (λ q. Inv q before) (sym same_registry) (Reach-Inv r null code host_id past)))

-- What a family of games keeps of its states: a game's states under its id. The room holds every
-- state as `unknown`, and this says that no game is handed another game's state.
pub record States {S V : Type 0} (r : Registry S V) : Type 1 where
  pub Owns : Text → S → Type 0
  pub init_owned :
      (id : Text) (g : Game S V) (ps : List Player) (deps : GameDeps) (config : Value)
      → get_game r id ≡ some g
      → Owns id (g.init ps deps config)
  pub reduce_owned :
      (id : Text) (g : Game S V) (s : S) (event : Value) (next : Next S)
      → get_game r id ≡ some g
      → Owns id s
      → g.reduce s event ≡ ok next
      → Owns id (next_of s next)

-- Outside the lobby the room's state belongs to the chosen game.
abbrev pub HoldsOwn : {S V : Type 0} (r : Registry S V) → States r → Room S → Type 0
HoldsOwn r st room =
    room.phase ≢ lobby
    → (id : Text) × (room.selected_game_id ≡ some id) × st.Owns id room.game_state

in_game-ne-lobby : (p : Phase) → is_in_game p ≡ true → p ≢ lobby
unfolding is_in_game
in_game-ne-lobby lobby h = λ e. cc
in_game-ne-lobby in_game h = λ e. cc
in_game-ne-lobby scores_shown h = λ e. cc

module _ {S V : Type 0} where
  active_game-registered :
      (room : Room S) (ctx : ReduceContext S V) (id : Text) (g : Game S V)
      → active_game room ctx ≡ some g
      → room.selected_game_id ≡ some id
      → get_game ctx.registry id ≡ some g
  unfolding active_game
  active_game-registered room ctx id g found chosen = ground arith

  forward_roster-owned :
      (room : Room S) (event : RosterEvent) (ctx : ReduceContext S V) (st : States ctx.registry)
      (id : Text)
      → room.selected_game_id ≡ some id
      → st.Owns id room.game_state
      → st.Owns id (forward_roster room event ctx)
  unfolding forward_roster active_game
  forward_roster-owned room event ctx st id chosen owned =
      elim (Bool-cases (is_in_game room.phase)) [
        | inr off ↦ rw (off, forward_roster) owned
        | inl on ↦
            rw (on, chosen, forward_roster)
              (elim (Option-cases (get_game ctx.registry id)) [
                | inl missing ↦ rw missing owned
                | inr (g, found) ↦
                    rw found (elim (Result-cases (g.reduce room.game_state (roster_value event))) [
                      | inr (e, refused) ↦ rw refused owned
                      | inl (next, reduced) ↦ rw reduced (
                          st.reduce_owned id g room.game_state (roster_value event) next found owned
                            reduced)
                    ])
              ])
      ]

  reclaim-HoldsOwn :
      (key id : Text) (room : Room S) (r : Registry S V) (st : States r)
      → HoldsOwn r st room
      → HoldsOwn r st (reclaim key id room)
  unfolding reclaim
  reclaim-HoldsOwn key id room r st h =
      elim (Option-cases (klatchr.Prelude.lookup key room.score_ledger)) [
        | inl e ↦ rw (e, reclaim) h
        | inr (parked, e) ↦ rw (e, reclaim) h
      ]

  state-HoldsOwn :
      (room : Room S) (event : RosterEvent) (ctx : ReduceContext S V) (st : States ctx.registry)
      → HoldsOwn ctx.registry st room
      → HoldsOwn ctx.registry st (record room { game_state = forward_roster room event ctx })
  state-HoldsOwn room event ctx st h on =
      let (id, chosen, owned) = h on in
      (id, chosen, forward_roster-owned room event ctx st id chosen owned)

  advance_game-HoldsOwn :
      (room : Room S) (g : Game S V) (event : Value) (next : Next S) (ctx : ReduceContext S V)
      (st : States ctx.registry)
      → active_game room ctx ≡ some g
      → is_in_game room.phase ≡ true
      → g.reduce room.game_state event ≡ ok next
      → HoldsOwn ctx.registry st room
      → HoldsOwn ctx.registry st (next_of room (advance_game room g next))
  unfolding advance_game active_game
  advance_game-HoldsOwn room g event kept ctx st found on reduced h =
      elim (Bool-cases (g.is_complete room.game_state)) [
        | inl done ↦ rw (done, next_of) (λ shown. h (in_game-ne-lobby room.phase on))
        | inr more ↦ rw (more, next_of) h
      ]
  advance_game-HoldsOwn room g event (fresh s) ctx st found on reduced h =
      let (id, chosen, owned) = h (in_game-ne-lobby room.phase on) in
      let registered : get_game ctx.registry id ≡ some g =
        active_game-registered room ctx id g found chosen in
      let owned' : st.Owns id s =
        st.reduce_owned id g room.game_state event (fresh s) registered owned reduced in
      elim (Bool-cases (g.is_complete s)) [
        | inl done ↦ rw (done, next_of) (λ shown. (id, chosen, owned'))
        | inr more ↦ rw (more, next_of) (λ shown. (id, chosen, owned'))
      ]

  -- No event of the room hands a game another game's state: outside the lobby the state always is
  -- one of the chosen game's own, for whatever ownership the registered games' own operations keep.
  pub step-HoldsOwn :
      (room : Room S) (event : RoomEvent) (actor : Viewer) (ctx : ReduceContext S V)
      (st : States ctx.registry)
      → HoldsOwn ctx.registry st room
      → HoldsOwn ctx.registry st (step room event actor ctx)
  unfolding step room_reduce seat_joiner drop_player begin_round
  step-HoldsOwn room (join nickname token) actor ctx st h =
      join_cases (HoldsOwn ctx.registry st) room nickname token ctx h λ display small.
        reclaim-HoldsOwn (ledger_key ctx.unicode display) ctx.id _ ctx.registry st
          (state-HoldsOwn room (player_joined (new_player room display ctx)) ctx st h)
  step-HoldsOwn room leave actor ctx st h =
      leave_cases (HoldsOwn ctx.registry st) room actor ctx h
        λ id. state-HoldsOwn room (player_left id) ctx st h
  step-HoldsOwn room (select_game id) actor ctx st h =
      choose_cases (HoldsOwn ctx.registry st) room id actor ctx h λ config on. absurd (on refl)
  step-HoldsOwn room (configure_game config) actor ctx st h =
      configure_cases (HoldsOwn ctx.registry st) room config actor h λ off. h
  step-HoldsOwn room start_game actor ctx st h =
      start_cases (HoldsOwn ctx.registry st) room actor ctx h
        λ id game selected registered unspent on.
          (id, selected, st.init_owned id game _ _ room.game_config registered)
  step-HoldsOwn room (game_event event) actor ctx st h =
      play_cases (HoldsOwn ctx.registry st) room event ctx h λ game next found on reduced.
        advance_game-HoldsOwn room game event next ctx st found on reduced h
  step-HoldsOwn room end_game actor ctx st h =
      finish_cases (HoldsOwn ctx.registry st) room actor ctx h
        λ game found on playing. h (in_game-ne-lobby room.phase on)

  -- Over any registry of such games the same holds of every room that can be reached.
  pub Reach-HoldsOwn :
      (r : Registry S V) (st : States r) (null : S) (code host_id : Text) {room : Room S}
      → Reach r null code host_id room
      → HoldsOwn r st room
  unfolding create_room
  Reach-HoldsOwn r st null code host_id created = λ on. absurd (on refl)
  Reach-HoldsOwn r st null code host_id
        (stepped {room = before} event actor ctx same_registry free past) =
      subst (λ q. (o : States q) → HoldsOwn q o before → HoldsOwn q o (step before event actor ctx))
        same_registry (step-HoldsOwn before event actor ctx) st
        (Reach-HoldsOwn r st null code host_id past)
