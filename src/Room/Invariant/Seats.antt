-- ===== src/Room/Invariant/Seats.antt =====
-- A join, a leave and the closing of the room keep the invariant.
use mathlib.Core.List.{map-append}
use klatchr.Prelude.{
  ◌<◌, ◌≡◌, refl, sym, ap, ◌∙◌, true, false, not, List, [], ◌∷◌, ◌++◌, Text, lookup, insert, has,
  same, same_iff, includes, Distinct-snoc, Distinct-without, includes-append, includes-last,
  includes-without, without, keys-insert, keys-omit, has-insert, has-omit, length, length-append,
  length-filter-le, filter, arith, Option-cases, inl, inr,
}
use klatchr.Game.{Player, player_joined, max_players_bound}
use klatchr.Registry.{Registry}
use klatchr.Room.{
  Room, ReduceContext, reclaim, ledger_key, new_player, seat_joiner, drop_player, forward_roster,
  ids,
}
use klatchr.Room.Invariant.{Inv, IsFresh}

pub ids-without :
    (id : Text) (ps : List Player) → ids (filter (λ p. not (same p.id id)) ps) ≡ without id (ids ps)
ids-without id [] = refl
ids-without id (p ∷ ps) = ground (arith, ids-without id ps)

module _ {S V : Type 0} where
  -- The room once the joiner has a seat, before the reclaim of parked points.
  seated_room : Room S → Text → S → ReduceContext S V → Room S
  seated_room room display state ctx = record room {
    players = room.players ++ new_player room display ctx ∷ [];
    tokens = insert ctx.id ctx.secret room.tokens;
    game_state = state;
  }

  ids-snoc :
      (room : Room S) (display : Text) (ctx : ReduceContext S V)
      → ids (room.players ++ new_player room display ctx ∷ []) ≡ ids room.players ++ ctx.id ∷ []
  unfolding new_player
  ids-snoc room display ctx = map-append _ room.players _

  token_free :
      (room : Room S) (ctx : ReduceContext S V)
      → Inv ctx.registry room
      → IsFresh room ctx
      → has ctx.id room.tokens ≡ false
  unfolding has
  token_free room ctx v free = rw v.tokens_match free

  seated_room-Inv :
      (room : Room S) (display : Text) (state : S) (ctx : ReduceContext S V)
      → IsFresh room ctx
      → length room.players < max_players_bound
      → Inv ctx.registry room
      → Inv ctx.registry (seated_room room display state ctx)
  unfolding seated_room
  seated_room-Inv room display state ctx free small v = record {
    bounded = omega (arith, length-append room.players (new_player room display ctx ∷ []));
    distinct =
        rw (ids-snoc room display ctx) (Distinct-snoc (ids room.players) ctx.id v.distinct free);
    tokens_match =
        keys-insert ctx.id ctx.secret room.tokens
        ∙ rw (token_free room ctx v free, v.tokens_match) (sym (ids-snoc room display ctx));
    scores_seated = λ k h.
        rw (ids-snoc room display ctx)
          (ground (arith, includes-append (ids room.players) (ctx.id ∷ []) k, v.scores_seated k h));
    playing = v.playing;
    within_set = v.within_set;
  }

  reclaim-Inv :
      (key id : Text) (room : Room S) {r : Registry S V}
      → includes (ids room.players) id ≡ true
      → Inv r room
      → Inv r (reclaim key id room)
  unfolding reclaim
  reclaim-Inv key id room seated v = elim (Option-cases (lookup key room.score_ledger)) [
    | inl e ↦ rw (e, reclaim) v
    | inr (parked, e) ↦
        rw (e, reclaim)
          (record {
            bounded = v.bounded;
            distinct = v.distinct;
            tokens_match = v.tokens_match;
            scores_seated = λ k h. ground (
              arith,
              has-insert id k parked room.session_scores,
              same_iff id k,
              v.scores_seated k,
            );
            playing = v.playing;
            within_set = v.within_set;
          })
  ]

  pub seat_joiner-Inv :
      (room : Room S) (display : Text) (ctx : ReduceContext S V)
      → IsFresh room ctx
      → length room.players < max_players_bound
      → Inv ctx.registry room
      → Inv ctx.registry (seat_joiner room display ctx)
  unfolding seat_joiner seated_room
  seat_joiner-Inv room display ctx free small v =
      let p = new_player room display ctx in
      let state = forward_roster room (player_joined p) ctx in
      reclaim-Inv (ledger_key ctx.unicode display) ctx.id (seated_room room display state ctx)
        (rw (ids-snoc room display ctx) (includes-last (ids room.players) ctx.id))
        (seated_room-Inv room display state ctx free small v)

  pub drop_player-Inv :
      (room : Room S) (id : Text) (ctx : ReduceContext S V)
      → Inv ctx.registry room
      → Inv ctx.registry (drop_player room id ctx)
  unfolding drop_player
  drop_player-Inv room id ctx v = record {
    bounded = omega (arith, length-filter-le {0} (λ p. not (same p.id id)) room.players, v.bounded);
    distinct = rw (ids-without id room.players) (Distinct-without id (ids room.players) v.distinct);
    tokens_match =
        keys-omit id room.tokens
        ∙ ap (without id) v.tokens_match
        ∙ sym (ids-without id room.players);
    scores_seated = λ k h. rw (ids-without id room.players) (
        ground (
          arith,
          includes-without id k (ids room.players),
          has-omit id k room.session_scores,
          v.scores_seated k,
        ));
    playing = v.playing;
    within_set = v.within_set;
  }

  pub closed-Inv :
      (room : Room S) {r : Registry S V} → Inv r room → Inv r (record room { closed = true })
  closed-Inv room v = record {
    bounded = v.bounded;
    distinct = v.distinct;
    tokens_match = v.tokens_match;
    scores_seated = v.scores_seated;
    playing = v.playing;
    within_set = v.within_set;
  }
