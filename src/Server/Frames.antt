-- ===== src/Server/Frames.antt =====
-- What the frames of a room show, and to whom.
use klatchr.Prelude.{ℕ, ◌≡◌, ◌≢◌, refl, ap, false, some, Text, Dict, ok, fresh, arith}
use klatchr.Game.{Game, Viewer, player}
use klatchr.Room.{Room, in_game, is_scores}
use klatchr.Games.MostLikely.{MltState, cast_vote}
use klatchr.Games.MostLikely
use klatchr.Games.MostLikely.Secret.{vote_hidden}
use klatchr.Games.Catalogue.{
  AnyState, AnyView, of_most_likely, most_likely_view, most_likely_to, view_most_likely,
}
use klatchr.Server.Session.{Context}
use klatchr.Server.Broadcast.{frame_for, game_for, rounds_total, chosen_game, is_null, is_lobby}

-- While a round is played a viewer's frame depends on the game's state only through the view of it
-- that the game gives to that viewer; on the tokens and the parked points it does not depend.
pub frame_by_view :
    (room : Room AnyState) (ctx : Context) (game : Game AnyState AnyView) (viewer : Viewer)
    (x y : AnyState) (tokens : Dict Text) (ledger : Dict ℕ)
    → room.phase ≡ in_game
    → chosen_game room ctx ≡ some game
    → is_null x ≡ false
    → is_null y ≡ false
    → game.view x viewer ≡ game.view y viewer
    → frame_for (record room { game_state = x }) ctx viewer
      ≡ frame_for
          (record room { game_state = y; tokens = tokens; score_ledger = ledger })
          ctx
          viewer
unfolding frame_for game_for rounds_total chosen_game is_scores is_lobby
frame_by_view room ctx game viewer x y tokens ledger playing chosen nx ny view = ground arith

-- Two votes of one player that a running round of "Most Likely To" accepts lead to the same frames
-- for everybody else in the room, whatever the tokens and the parked points.
pub frame_vote_hidden :
    (room : Room AnyState) (ctx : Context) (s x y : MltState) (id a b : Text) (viewer : Viewer)
    (tokens : Dict Text) (ledger : Dict ℕ)
    → viewer ≢ player id
    → room.phase ≡ in_game
    → chosen_game room ctx ≡ some (most_likely_to ctx.unicode)
    → MostLikely.dispatch s (cast_vote id a) ≡ ok (fresh x)
    → MostLikely.dispatch s (cast_vote id b) ≡ ok (fresh y)
    → frame_for (record room { game_state = of_most_likely x }) ctx viewer
      ≡ frame_for
          (record room { game_state = of_most_likely y; tokens = tokens; score_ledger = ledger })
          ctx
          viewer
unfolding is_null view_most_likely
frame_vote_hidden room ctx s x y id a b viewer tokens ledger other playing chosen hx hy =
    frame_by_view room ctx (most_likely_to ctx.unicode) viewer (of_most_likely x) (of_most_likely y)
      tokens ledger playing chosen refl refl
      (ap most_likely_view (vote_hidden s x y id a b viewer other hx hy))
