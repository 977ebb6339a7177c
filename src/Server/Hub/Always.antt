-- ===== src/Server/Hub/Always.antt =====
-- apps/server/src/roomHub.ts: the life of a hub, a sequence of the entries that the sockets and the
-- timers make.
use klatchr.Prelude.{
  ℕ, ◌≤◌, ◌≡◌, includes, refl, sym, subst, ◌∙◌, Bool-cases, inl, inr, none, if◌then◌else◌, Option,
  List, [], ◌∷◌, Text, keys, lookup, has, length, true, Distinct,
}
use klatchr.Server.Messages.{Parsed}
use klatchr.Server.Session.{Session, reap, reap_host}
use klatchr.Server.Hub.{Limits, Hub, Sources, new_hub, count_or, receive, disconnect_hub, timer}
use klatchr.Server.Hub.Counts.{live_of}
use klatchr.Server.Hub.Capped.{IsCapped, new_hub-IsCapped}
use klatchr.Server.Hub.Owners.{opened_from, opened_from-agree, opened_from-live_of}
use klatchr.Server.Hub.Tracked.{Tracks, Keeps-Tracks}
use klatchr.Server.Hub.Openings.{answer-Tracks, disconnect_hub-Keeps, timer-Keeps}
use klatchr.Server.Hub.Entries.{answer-IsCapped, disconnect_hub-IsCapped, timer-IsCapped}

pub data Entry : Type 0 where
  arrives : (conn : ℕ) (address : Option Text) (raw : Text) → Entry
  goes : (conn : ℕ) → Entry
  seat_due : (code id : Text) → Entry
  host_due : (code : Text) → Entry

unfoldable pub enter : (Text → Parsed) → Limits → Hub → Entry → Sources → Hub
enter parse limits hub (arrives conn address raw) src =
    receive parse limits hub conn address raw src
enter parse limits hub (goes conn) src = disconnect_hub hub conn src.ctx
enter parse limits hub (seat_due code id) src = timer hub code (λ s. reap s id src.ctx) src.ctx
enter parse limits hub (host_due code) src = timer hub code (λ s. reap_host s src.ctx) src.ctx

unfoldable pub serve : (Text → Parsed) → Limits → Hub → List (Entry × Sources) → Hub
serve parse limits hub [] = hub
serve parse limits hub ((entry, src) ∷ entries) =
    serve parse limits (enter parse limits hub entry src) entries

enter-IsCapped :
    (parse : Text → Parsed) (limits : Limits) (hub : Hub) (entry : Entry) (src : Sources)
    → IsCapped limits hub
    → IsCapped limits (enter parse limits hub entry src)
unfolding enter receive
enter-IsCapped parse limits hub (arrives conn address raw) src v =
    answer-IsCapped hub conn address (parse raw) src v
enter-IsCapped parse limits hub (goes conn) src v = disconnect_hub-IsCapped hub conn src.ctx v
enter-IsCapped parse limits hub (seat_due code id) src v = timer-IsCapped hub code _ src.ctx v
enter-IsCapped parse limits hub (host_due code) src v = timer-IsCapped hub code _ src.ctx v

pub serve-IsCapped :
    (parse : Text → Parsed) (limits : Limits) (hub : Hub) (entries : List (Entry × Sources))
    → IsCapped limits hub
    → IsCapped limits (serve parse limits hub entries)
unfolding serve
serve-IsCapped parse limits hub [] v = v
serve-IsCapped parse limits hub ((entry, src) ∷ entries) v =
    serve-IsCapped parse limits (enter parse limits hub entry src) entries
      (enter-IsCapped parse limits hub entry src v)

-- The address that an entry comes from.
unfoldable pub address_of : Entry → Option Text
address_of (arrives conn address raw) = address
address_of (goes conn) = none
address_of (seat_due code id) = none
address_of (host_due code) = none

-- Which address opened the room of each code, told by the entries and by the codes that are live
-- before each of them: a code that was live keeps its opener, any other has the entry's address.
unfoldable pub owners :
    (Text → Parsed)
    → Limits
    → Hub
    → (Text → Option Text)
    → List (Entry × Sources)
    → Text
    → Option Text
owners parse limits hub owner [] = owner
owners parse limits hub owner ((entry, src) ∷ entries) =
    owners parse limits (enter parse limits hub entry src)
      (λ code. if has code hub.rooms then owner code else address_of entry) entries

enter-Tracks :
    (parse : Text → Parsed) (limits : Limits) (hub : Hub) (entry : Entry) (src : Sources)
    → IsCapped limits hub
    → Tracks (address_of entry) hub (enter parse limits hub entry src)
unfolding enter receive address_of
enter-Tracks parse limits hub (arrives conn address raw) src v =
    answer-Tracks limits hub conn address (parse raw) src v
enter-Tracks parse limits hub (goes conn) src v =
    Keeps-Tracks none hub (disconnect_hub hub conn src.ctx) (disconnect_hub-Keeps hub conn src.ctx)
enter-Tracks parse limits hub (seat_due code id) src v =
    let due : Session → Session = λ s. reap s id src.ctx in
    Keeps-Tracks none hub (timer hub code due src.ctx) (timer-Keeps hub code due src.ctx)
enter-Tracks parse limits hub (host_due code) src v =
    let due : Session → Session = λ s. reap_host s src.ctx in
    Keeps-Tracks none hub (timer hub code due src.ctx) (timer-Keeps hub code due src.ctx)

-- The openers that a hub keeps are the addresses that the entries tell.
serve-owners :
    (parse : Text → Parsed) (limits : Limits) (hub : Hub) (owner : Text → Option Text)
    (entries : List (Entry × Sources))
    → IsCapped limits hub
    → ((code : Text) → has code hub.rooms ≡ true → lookup code hub.opened_by ≡ owner code)
    → (code : Text) → has code (serve parse limits hub entries).rooms ≡ true
    → lookup code (serve parse limits hub entries).opened_by
      ≡ owners parse limits hub owner entries code
unfolding serve owners
serve-owners parse limits hub owner [] v known = known
serve-owners parse limits hub owner ((entry, src) ∷ entries) v known =
    serve-owners parse limits (enter parse limits hub entry src)
      (λ code. if has code hub.rooms then owner code else address_of entry) entries
      (enter-IsCapped parse limits hub entry src v)
      (λ code live. enter-Tracks parse limits hub entry src v code live ∙ told code)
  where
    told :
        (code : Text)
        → (if has code hub.rooms then lookup code hub.opened_by else address_of entry)
          ≡ (if has code hub.rooms then owner code else address_of entry)
    told code = elim (Bool-cases (has code hub.rooms)) [
      | inl live ↦ rw live (known code live)
      | inr new ↦ rw new refl
    ]

-- Nobody has opened a room of a new hub.
abbrev pub nobody : Text → Option Text
nobody code = none

-- After any sequence of messages, disconnections and timers from a new hub on, whatever the
-- messages are and however they are parsed, the number that the hub keeps for an address is the
-- number of the live rooms that came to life in an entry from that address. Which entry that was is
-- told by the entries and by the codes that were live before each, not by what the hub keeps of its
-- openers. The number is at most the limit for one address, and the live rooms are at most the
-- limit for all, with no code twice.
pub serve-new_hub :
    (parse : Text → Parsed) (limits : Limits) (entries : List (Entry × Sources)) (a : Text)
    → let hub = serve parse limits new_hub entries in
      let owner = owners parse limits new_hub nobody entries in
      (count_or 0 (lookup a hub.rooms_per_address) ≡ opened_from a owner (keys hub.rooms))
      × (opened_from a owner (keys hub.rooms) ≤ limits.max_rooms_per_address)
      × (length hub.rooms ≤ limits.max_rooms)
      × ((code : Text) → has code hub.opened_by ≡ true → has code hub.rooms ≡ true)
      × Distinct (keys hub.rooms)
unfolding has includes new_hub
serve-new_hub parse limits entries a =
    let hub = serve parse limits new_hub entries in
    let owner = owners parse limits new_hub nobody entries in
    let v = serve-IsCapped parse limits new_hub entries (new_hub-IsCapped limits) in
    let told : opened_from a owner (keys hub.rooms) ≡ live_of a hub.opened_by =
      sym (
        opened_from-agree a (λ k. lookup k hub.opened_by) owner (keys hub.rooms)
          (serve-owners parse limits new_hub nobody entries (new_hub-IsCapped limits)
            (λ code live. absurd (cc))))
      ∙ opened_from-live_of a hub.opened_by (keys hub.rooms) v.different v.once v.live in
    (
      v.counted a ∙ sym told,
      subst (λ n. n ≤ limits.max_rooms_per_address) (sym told) (v.capped a),
      v.few,
      v.live,
      v.different,
    )
