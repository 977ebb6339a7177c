-- ===== src/Server/Hub/Capped.antt =====
-- The hub's caps hold after every entry, and its counts are those of the rooms that are live.
use klatchr.Prelude.{
  ℕ, ◌≤◌, ◌≡◌, refl, true, not, none, some, List, [], ◌∷◌, Text, Dict, keys, lookup, insert, omit,
  has, includes, same, same_iff, Distinct, Distinct-keys-insert, Distinct-without, keys-omit,
  has-insert, has-omit, has-lookup, length, length-filter-le, arith, Option-cases, inl, inr,
}
use klatchr.Server.Wire.{Effect, send, close, superseded, closed_out, usage}
use klatchr.Server.Session.{Session, Context}
use klatchr.Server.Hub.{
  Limits, Hub, new_hub, count_or, release, refuse, forget_opener, drop_room, settle, store,
  flush_room, room_of, bound, route,
}
use klatchr.Server.Hub.Counts.{live_of, live_of-omit, count-release, length-insert}

pub record Counts (limits : Limits) (rooms : Dict Session) (opened_by : Dict Text)
    (per_address : Dict ℕ) : Type 0 where
  -- The count of an address is the number of live rooms that it has opened.
  pub counted : (a : Text) → count_or 0 (lookup a per_address) ≡ live_of a opened_by
  pub once : Distinct (keys opened_by)
  pub live : (code : Text) → has code opened_by ≡ true → has code rooms ≡ true
  pub different : Distinct (keys rooms)
  pub few : length rooms ≤ limits.max_rooms
  pub capped : (a : Text) → live_of a opened_by ≤ limits.max_rooms_per_address

abbrev pub IsCapped : Limits → Hub → Type 0
IsCapped limits hub = Counts limits hub.rooms hub.opened_by hub.rooms_per_address

pub new_hub-IsCapped : (limits : Limits) → IsCapped limits new_hub
unfolding new_hub live_of count_or lookup has includes
new_hub-IsCapped limits = record {
  counted = λ a. refl;
  once = tt;
  live = λ code h. absurd (cc);
  different = tt;
  few = omega arith;
  capped = λ a. omega arith;
}

pub there :
    (hub : Hub) (code : Text) (s : Session)
    → lookup code hub.rooms ≡ some s
    → has code hub.rooms ≡ true
there hub code s h = ground (arith, has-lookup code hub.rooms)

length-omit : {V : Type 0} (k : Text) (m : Dict V) → length (omit k m) ≤ length m
unfolding omit
length-omit k m = length-filter-le (λ e. not (same e.0 k)) m

omit_different :
    {V : Type 0} (k : Text) (m : Dict V) → Distinct (keys m) → Distinct (keys (omit k m))
omit_different k m d = rw (keys-omit k m) (Distinct-without k (keys m) d)

-- What `room_of` finds is a live room.
pub room_of-live :
    (hub : Hub) (conn : ℕ) (code : Text) (s : Session)
    → room_of hub conn ≡ some (code, s)
    → has code hub.rooms ≡ true
unfolding room_of
room_of-live hub conn code s h = elim (Option-cases (bound conn hub.session_of)) [
  | inl free ↦ absurd (ground arith)
  | inr (own, bound_to) ↦ elim (Option-cases (lookup own hub.rooms)) [
    | inl gone ↦ absurd (ground arith)
    | inr (t, found) ↦ ground (arith, there hub own t found)
  ]
]

module _ {limits : Limits} where
  gone_unknown :
      (code : Text) (rooms : Dict Session) (opened_by : Dict Text) (per_address : Dict ℕ)
      → lookup code opened_by ≡ none
      → Counts limits rooms opened_by per_address
      → Counts limits (omit code rooms) opened_by per_address
  gone_unknown code rooms opened_by per_address unknown v = record {
    counted = v.counted;
    once = v.once;
    live = λ k h.
        ground (arith, has-omit code k rooms, v.live k h, has-lookup k opened_by, same_iff k code);
    different = omit_different code rooms v.different;
    few = omega (arith, length-omit code rooms, v.few);
    capped = v.capped;
  }

  gone_known :
      (code address : Text) (rooms : Dict Session) (opened_by : Dict Text) (per_address : Dict ℕ)
      → lookup code opened_by ≡ some address
      → Counts limits rooms opened_by per_address
      → Counts limits (omit code rooms) (omit code opened_by) (release address per_address)
  gone_known code address rooms opened_by per_address opened v = record {
    counted = λ a. ground (
      arith,
      count-release address a per_address,
      live_of-omit code address a opened_by v.once opened,
      v.counted a,
    );
    once = omit_different code opened_by v.once;
    live = λ k h. ground (arith, has-omit code k rooms, has-omit code k opened_by, v.live k);
    different = omit_different code rooms v.different;
    few = omega (arith, length-omit code rooms, v.few);
    capped = λ a. omega (arith, live_of-omit code address a opened_by v.once opened, v.capped a);
  }

  drop_room-IsCapped :
      (hub : Hub) (code : Text) (conns : List ℕ)
      → IsCapped limits hub
      → IsCapped limits (drop_room hub code conns)
  unfolding drop_room forget_opener
  drop_room-IsCapped hub code conns v = elim (Option-cases (lookup code hub.opened_by)) [
    | inl unknown ↦ rw (unknown, drop_room, forget_opener) (gone_unknown code _ _ _ unknown v)
    | inr (address, opened) ↦
        rw (opened, drop_room, forget_opener) (gone_known code address _ _ _ opened v)
  ]

  stored :
      (hub : Hub) (code : Text) (s : Session)
      → has code hub.rooms ≡ true
      → IsCapped limits hub
      → Counts limits (insert code s hub.rooms) hub.opened_by hub.rooms_per_address
  stored hub code s there v = record {
    counted = v.counted;
    once = v.once;
    live = λ k h. ground (arith, has-insert code k s hub.rooms, v.live k h);
    different = Distinct-keys-insert code s hub.rooms v.different;
    few = ground (arith, length-insert code s hub.rooms, v.few);
    capped = v.capped;
  }

  settle-IsCapped :
      (effects : List Effect) (hub : Hub)
      → IsCapped limits hub
      → IsCapped limits (settle effects hub)
  unfolding settle
  settle-IsCapped [] hub v = v
  settle-IsCapped (superseded conn ∷ effects) hub v = settle-IsCapped effects _ v
  settle-IsCapped (closed_out code conns ∷ effects) hub v =
      settle-IsCapped effects _ (drop_room-IsCapped hub code conns v)
  settle-IsCapped (send conn message ∷ effects) hub v = settle-IsCapped effects _ v
  settle-IsCapped (close conn ∷ effects) hub v = settle-IsCapped effects _ v
  settle-IsCapped (usage line ∷ effects) hub v = settle-IsCapped effects _ v

  pub store-IsCapped :
      (hub : Hub) (code : Text) (s : Session)
      → has code hub.rooms ≡ true
      → IsCapped limits hub
      → IsCapped limits (store hub code s)
  unfolding store
  store-IsCapped hub code s h v =
      settle-IsCapped s.log _ (stored hub code (record s { log = [] }) h v)

  pub flush_room-IsCapped :
      (hub : Hub) (code : Text) (ctx : Context)
      → IsCapped limits hub
      → IsCapped limits (flush_room hub code ctx)
  unfolding flush_room
  flush_room-IsCapped hub code ctx v = elim (Option-cases (lookup code hub.rooms)) [
    | inl gone ↦ rw (gone, flush_room) v
    | inr (s, found) ↦ rw (found, flush_room) (store-IsCapped hub code _ (there hub code s found) v)
  ]

  pub refuse-IsCapped :
      (hub : Hub) (conn : ℕ) (code message : Text)
      → IsCapped limits hub
      → IsCapped limits (refuse hub conn code message)
  unfolding refuse
  refuse-IsCapped hub conn code message v = v

  pub route-IsCapped :
      (hub : Hub) (conn : ℕ) (code : Text) (action : Session → Session) (ctx : Context)
      → IsCapped limits hub
      → IsCapped limits (route hub conn code action ctx)
  unfolding route
  route-IsCapped hub conn code action ctx v = elim (Option-cases (room_of hub conn)) [
    | inl free ↦ rw (free, route) (refuse-IsCapped hub conn code _ v)
    | inr ((own, s), found) ↦
        rw (found, route)
          (flush_room-IsCapped _ own ctx
            (store-IsCapped hub own (action s) (room_of-live hub conn own s found) v))
  ]
