-- ===== src/Games/MostLikely/Secret.antt =====
-- What the views keep secret: during the vote, who voted for whom; at the results, too.
use klatchr.Prelude.{
  ◌≡◌, ◌≢◌, refl, sym, ap, ◌∙◌, true, false, List, [], ◌∷◌, Text, Dict, keys, values, lookup,
  insert, has, same_iff, includes, keys-insert, lookup-insert, ok, fresh, arith, filter, not,
  map-filter-congr,
}
use klatchr.Game.{Viewer, player, host}
use klatchr.Games.MostLikely.{
  MltState, results_view, vote, results, dispatch, cast_vote, on_vote, view_for, vote_view,
  progress, candidates, is_vote, tally, live_votes, votes_for,
}

-- What an accepted vote makes of the round.
pub on_vote-ok :
    (s x : MltState) (id target : Text)
    → on_vote s id target ≡ ok (fresh x)
    → (s.phase ≡ vote)
      × (includes s.roster id ≡ true)
      × (includes s.roster target ≡ true)
      × (includes s.left target ≡ false)
      × (x ≡ record s { votes = insert id target s.votes })
unfolding on_vote is_vote
on_vote-ok s x id target h = ground arith

-- While the vote is open a view depends on who has voted and on the viewer's own vote only.
pub vote_blind :
    (s : MltState) (votes : Dict Text) (viewer : Viewer)
    → s.phase ≡ vote
    → keys votes ≡ keys s.votes
    → ((id : Text) → viewer ≡ player id → lookup id votes ≡ lookup id s.votes)
    → view_for (record s { votes = votes }) viewer ≡ view_for s viewer
unfolding view_for is_vote vote_view progress candidates has
vote_blind s votes host p k own = ground arith
vote_blind s votes (player id) p k own = ground (arith, own id refl)

lookup_other :
    (id k a b : Text) (votes : Dict Text)
    → id ≢ k
    → lookup k (insert id a votes) ≡ lookup k (insert id b votes)
lookup_other id k a b votes d =
    ground (arith, lookup-insert id k a votes, lookup-insert id k b votes, same_iff id k)

-- Two accepted votes of one player leave the same views for everybody else.
pub vote_hidden :
    (s x y : MltState) (id a b : Text) (viewer : Viewer)
    → viewer ≢ player id
    → dispatch s (cast_vote id a) ≡ ok (fresh x)
    → dispatch s (cast_vote id b) ≡ ok (fresh y)
    → view_for x viewer ≡ view_for y viewer
unfolding dispatch
vote_hidden s x y id a b viewer other hx hy =
    let (p, _, _, _, ex) = on_vote-ok s x id a hx in
    let (_, _, _, _, ey) = on_vote-ok s y id b hy in
    rw (ex, ey)
      (vote_blind (record s { votes = insert id b s.votes }) (insert id a s.votes) viewer p
        (keys-insert id a s.votes ∙ sym (keys-insert id b s.votes))
        (λ k e. lookup_other id k a b s.votes (λ hit. other (e ∙ ap player (sym hit)))))

votes_for-live :
    (left : List Text) (id : Text) (votes : Dict Text)
    → includes left id ≡ false
    → votes_for id (values (filter (λ e. not (includes left e.1)) votes))
      ≡ votes_for id (values votes)
unfolding votes_for
votes_for-live left id [] h = refl
votes_for-live left id ((voter, target) ∷ votes) h =
    ground (arith, votes_for-live left id votes h, same_iff target id)

-- At the results a view depends on how often each player was named; who named whom, it does not
-- show to anybody.
pub results_blind :
    (s : MltState) (votes : Dict Text) (viewer : Viewer)
    → s.phase ≡ results
    → ((id : Text) → votes_for id (values votes) ≡ votes_for id (values s.votes))
    → view_for (record s { votes = votes }) viewer ≡ view_for s viewer
unfolding view_for is_vote tally candidates live_votes
results_blind s votes viewer p h = rw p (
    ap (results_view s.prompt) (
      map-filter-congr _ _ (λ id. not (includes s.left id)) s.roster
        (λ id stays.
          ap (λ n. record { player_id = id; points = n })
            (votes_for-live s.left id votes (ground arith)
              ∙ h id
              ∙ sym (votes_for-live s.left id s.votes (ground arith))))))
