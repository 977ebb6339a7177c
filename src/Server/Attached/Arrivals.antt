-- ===== src/Server/Attached/Arrivals.antt =====
-- A join, a resume and the host's return keep connections, seats and timers together.
use klatchr.Prelude.{
  if_keeps, ℕ, ◌≡◌, ◌≢◌, refl, sym, subst, ◌∙◌, ap, Bool, true, false, not, Option, some, none,
  List, [], ◌∷◌, Text, includes, same, same_refl, same_iff, arith, Bool-cases, inl, inr,
  Option-cases, lookup, find, keys, Dict,
}
use klatchr.Game.{Player, player, host}
use klatchr.Registry.{Registry}
use klatchr.Room.{Room, join, ids, is_host, token_owner, player_id_for_token}
use klatchr.Room.Step.{step}
use klatchr.Room.Invariant.{Inv}
use klatchr.Room.Seated.{is_leave}
use klatchr.Games.Catalogue.{AnyState, AnyView}
use klatchr.Server.Session.{
  Session, Context, member, set_member, emit, send_failure, send_error, schedule_broadcast, apply,
  cancel_reap, is_player, evict, evict_host, admit_host, resume_host, token_player, take_seat,
  admit, join_session,
}
use klatchr.Server.Authority.{apply-room}
use klatchr.Server.Attached.{Fits, IsAttached}
use klatchr.Server.Attached.Moves.{Fits-seat, Fits-host, Fits-cancel, Fits-host_back}
use klatchr.Server.Attached.Kept.{
  apply-rest, kept_seats, untimed_after, evict_where-rest, evict_where-IsAttached, nobody_left,
}

pub resume_host-IsAttached :
    (s : Session) (conn : ℕ) (token : Text) → IsAttached s → IsAttached (resume_host s conn token).0
unfolding resume_host send_failure emit admit_host schedule_broadcast evict_host is_host
resume_host-IsAttached s conn token f =
    if_keeps (λ (o : Session × Bool). IsAttached o.0) (not (same token s.host_token)) _ _ f
      (let s' = record s { host_reaping = false } in
        let (q, r, h) = evict_where-rest is_host s'.members s' in
        Fits-host (evict_where-IsAttached is_host s' (Fits-host_back f)) conn h
          (nobody_left is_host s' host refl))

found_player :
    (test : Player → Bool) (ps : List Player) (p : Player)
    → find test ps ≡ some p
    → (test p ≡ true) × (includes (ids ps) p.id ≡ true)
unfolding includes
found_player test [] p h = absurd (cc)
found_player test (q ∷ ps) p h = elim (Bool-cases (test q)) [
  | inl hit ↦
      let this : q ≡ p = ground arith in (ap test (sym this) ∙ hit, ground (arith, same_refl p.id))
  | inr miss ↦ let (t, there) = found_player test ps p (ground arith) in (t, ground arith)
]

token_owner-has :
    (token : Text) (tokens : Dict Text) (id : Text)
    → token_owner token tokens ≡ some id
    → includes (keys tokens) id ≡ true
unfolding token_owner includes
token_owner-has token [] id h = absurd (cc)
token_owner-has token ((k, secret) ∷ rest) id h =
    ground (arith, token_owner-has token rest id, same_refl k, same_iff k id)

token_player-seated :
    (r : Registry AnyState AnyView) (room : Room AnyState) (token : Option Text) (id : Text)
    → Inv r room
    → token_player room token ≡ some id
    → includes (ids room.players) id ≡ true
unfolding token_player player_id_for_token
token_player-seated r room none id v h = absurd (cc)
token_player-seated r room (some token) id v h =
    subst (λ ks. includes ks id ≡ true) v.tokens_match (token_owner-has token room.tokens id h)

unknown_untimed :
    (s : Session) (id : Text)
    → IsAttached s
    → includes (ids s.room.players) id ≡ false
    → includes s.reapers id ≡ false
unknown_untimed s id f unknown = ground (arith, f.timed id)

unknown_absent :
    (s : Session) (id : Text)
    → IsAttached s
    → includes (ids s.room.players) id ≡ false
    → (c : ℕ) → member c s.members ≢ some (player id)
unknown_absent s id f unknown c h = ground (arith, f.seated c id h)

-- The tail of a join, for a new player whom nothing knew before.
admit_new :
    (s : Session) (conn : ℕ) (p : Player) (token : Option Text)
    → includes (ids s.room.players) p.id ≡ true
    → includes s.reapers p.id ≡ false
    → ((c : ℕ) → member c s.members ≢ some (player p.id))
    → IsAttached s
    → IsAttached (admit s conn (some p) token).0
unfolding admit send_failure emit take_seat
admit_new s conn p token here untimed free f = elim (Option-cases (lookup p.id s.room.tokens)) [
  | inl lost ↦ rw (lost, admit) f
  | inr (secret, found) ↦ rw (found, admit) (Fits-seat f conn p.id here untimed free)
]

resumed :
    (s : Session) (conn : ℕ) (id : Text)
    → includes (ids s.room.players) id ≡ true
    → IsAttached s
    → let s' = evict (cancel_reap s id) id in
      Fits (ids s'.room.players) (set_member conn (player id) s'.members) s'.reapers s'.host_reaping
unfolding evict cancel_reap is_player
resumed s conn id here f =
    let s' = cancel_reap s id in
    let (q, r, h) = evict_where-rest (is_player id) s'.members s' in
    Fits-seat (evict_where-IsAttached (is_player id) s' (Fits-cancel f id)) conn id
      (subst (λ room. includes (ids room.players) id ≡ true) (sym q) here)
      (subst (λ rs. includes rs id ≡ false) (sym r) (untimed_after id s.reapers))
      (nobody_left (is_player id) s' (player id) (same_refl id))

-- The tail of a join that resumes a slot.
admit_known :
    (r : Registry AnyState AnyView) (s : Session) (conn : ℕ) (token : Option Text)
    → Inv r s.room
    → IsAttached s
    → IsAttached (admit s conn none token).0
unfolding admit send_failure emit take_seat evict cancel_reap is_player
admit_known r s conn token v f = elim (Option-cases (token_player s.room token)) [
  | inl lost ↦ rw (lost, admit) f
  | inr (id, owned) ↦ elim (Option-cases (lookup id s.room.tokens)) [
    | inl lost ↦ rw (owned, lost, admit) f
    | inr (secret, found) ↦
        rw (owned, found, admit)
          (resumed s conn id (token_player-seated r s.room token id v owned) f)
  ]
]

pub join_session-IsAttached :
    (r : Registry AnyState AnyView) (s : Session) (conn : ℕ) (nickname : Text) (token : Option Text)
    (ctx : Context)
    → Inv r (step s.room (join nickname token) host ctx)
    → IsAttached s
    → IsAttached (join_session s conn nickname token ctx).0
unfolding join_session send_error send_failure emit is_leave
join_session-IsAttached r s conn nickname token ctx v f =
    let event = join nickname token in
    let s' = (apply s event host ctx).0 in
    let f' : IsAttached s' = kept_seats s event host ctx refl f in
    let v' : Inv r s'.room = rw (apply-room s event host ctx) v in
    let (m, timers, _) = apply-rest s event host ctx in
    elim (Option-cases (apply s event host ctx).1) [
      | inr (e, refused) ↦ rw (refused, join_session) f'
      | inl let_in ↦
          elim (Option-cases
            (find (λ p. not (includes (ids s.room.players) p.id)) s'.room.players)) [
              | inl nobody ↦ rw (let_in, nobody, join_session) (admit_known r s' conn token v' f')
              | inr (p, added) ↦
                  let (new, here) = found_player _ s'.room.players p added in
                  let unknown : includes (ids s.room.players) p.id ≡ false = ground arith in
                  rw (let_in, added, join_session)
                    (admit_new s' conn p token here
                      (subst (λ rs. includes rs p.id ≡ false) (sym timers)
                        (unknown_untimed s p.id f unknown))
                      (subst (λ ms. (c : ℕ) → member c ms ≢ some (player p.id)) (sym m)
                        (unknown_absent s p.id f unknown))
                      f')
            ]
    ]
