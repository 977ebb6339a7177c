-- ===== src/Web/Stored/Laws.antt =====
-- What a reload finds of a session.
use klatchr.Prelude.{
  ◌≡◌, Bool, true, false, not, ◌&&◌, Option, some, List, [], ◌∷◌, ◌++◌, Text, lookup,
  lookup-insert_self, includes, arith, refl, Option-cases, inl, inr, ap, ◌∙◌, if_false,
}
use klatchr.Web.Link.{
  player_init, Notice, token_told, host_told, terminal_told, created, sent, closed, status_told,
  frame_told, error_told,
}
use klatchr.Web.Stored.{
  Storage, host_key, gone, reconnect_key, migrate_legacy_host_session, stored_host_session,
  heed_host, create_player_transport, heed_player, forget_player_session, on_leave, PlayerEvent,
  told, leaves, heed_event, heed_events,
}

-- A notice that tells no token and no end of the room.
unfoldable pub keeps_session : Notice → Bool
keeps_session (token_told token) = false
keeps_session (terminal_told message) = not (includes gone message)
keeps_session notice = true

-- Nor does the player leave on a link that is live.
unfoldable pub all_keep : List PlayerEvent → Bool
all_keep [] = true
all_keep (told notice ∷ events) = keeps_session notice && all_keep events
all_keep (leaves live frame_code ∷ events) = not live && all_keep events

heed_player-kept :
    (code : Text) (storage : Storage) (notice : Notice)
    → keeps_session notice ≡ true
    → heed_player code storage notice ≡ storage
unfolding heed_player keeps_session
heed_player-kept code storage (token_told token) h = absurd (cc)
heed_player-kept code storage (terminal_told message) h = ground arith
heed_player-kept code storage (host_told c t) h = refl
heed_player-kept code storage (created s) h = refl
heed_player-kept code storage (sent s m) h = refl
heed_player-kept code storage (closed s) h = refl
heed_player-kept code storage (status_told s) h = refl
heed_player-kept code storage (frame_told s) h = refl
heed_player-kept code storage (error_told c m) h = refl

heed_events-kept :
    (code : Text) (storage : Storage) (events : List PlayerEvent)
    → all_keep events ≡ true
    → heed_events code storage events ≡ storage
unfolding heed_events heed_event on_leave all_keep
heed_events-kept code storage [] h = refl
heed_events-kept code storage (told notice ∷ events) h =
    ap (λ (s : Storage). heed_events code s events)
      (heed_player-kept code storage notice (ground arith))
    ∙ heed_events-kept code storage events (ground arith)
heed_events-kept code storage (leaves live frame_code ∷ events) h =
    ap (λ (s : Storage). heed_events code s events)
      (if_false live (forget_player_session frame_code storage) storage (ground arith))
    ∙ heed_events-kept code storage events (ground arith)

heed_events-append :
    (code : Text) (storage : Storage) (before after : List PlayerEvent)
    → heed_events code storage (before ++ after)
      ≡ heed_events code (heed_events code storage before) after
unfolding heed_events
heed_events-append code storage [] after = refl
heed_events-append code storage (event ∷ before) after =
    heed_events-append code (heed_event code storage event) before after

resumes_with :
    (code nickname token : Text) (storage : Storage)
    → lookup (reconnect_key code) storage.local ≡ some token
    → create_player_transport code nickname storage
      ≡ (storage, player_init code nickname (some token))
unfolding create_player_transport
resumes_with code nickname token storage found = rw (found, create_player_transport) refl

-- After a reload a player's transport starts from the last token that the server has issued,
-- whatever happened before it, if after it the server told neither another token nor the end of
-- the room, and the player did not leave the lobby on a live link; a leave on a link that is not
-- live may have happened. The storage is left as it is, so that the first name is kept.
pub resumes_last_token :
    (code nickname token : Text) (storage : Storage) (before after : List PlayerEvent)
    → all_keep after ≡ true
    → let kept = heed_events code storage (before ++ told (token_told token) ∷ after) in
      create_player_transport code nickname kept ≡ (kept, player_init code nickname (some token))
unfolding heed_events heed_event heed_player
resumes_last_token code nickname token storage before after quiet =
    let had = heed_events code storage before in
    let noted : Storage = heed_player code had (token_told token) in
    let same_store : heed_events code storage (before ++ told (token_told token) ∷ after) ≡ noted =
      heed_events-append code storage before (told (token_told token) ∷ after)
      ∙ heed_events-kept code noted after quiet in
    resumes_with code nickname token _ (
      ap (λ (s : Storage). lookup (reconnect_key code) s.local) same_store
      ∙ lookup-insert_self (reconnect_key code) token had.local)

-- A host session that the server has acknowledged is found again by a reload in the same tab, with
-- its code and its token; the text of it must parse to what was written.
pub stored_host_session-heed_host :
    (parse : Text → Option (Text × Text)) (stringify : Text → Text → Text) (storage : Storage)
    (code host_token : Text)
    → ((c t : Text) → parse (stringify c t) ≡ some (c, t))
    → (stored_host_session parse (heed_host stringify storage (host_told code host_token))).1
      ≡ some (code, host_token)
unfolding stored_host_session heed_host migrate_legacy_host_session
stored_host_session-heed_host parse stringify storage code host_token law =
    elim (Option-cases (lookup host_key storage.local)) [
      | inl clean ↦ ground (
        arith,
        law code host_token,
        lookup-insert_self host_key (stringify code host_token) storage.session,
      )
      | inr (legacy, old) ↦ ground (
        arith,
        law code host_token,
        lookup-insert_self host_key (stringify code host_token) storage.session,
      )
    ]
