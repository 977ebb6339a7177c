-- ===== src/Server/Attached/Moves.antt =====
-- What the parts of a session's operations do to the fit of members, seats and timers.
use klatchr.Prelude.{
  ℕ, ◌≡◌, ◌≢◌, sym, Bool, true, false, some, List, [], ◌∷◌, ◌++◌, Text, includes, same, same_iff,
  without, includes-without, includes-append, arith, Bool-cases, inl, inr, subst,
}
use klatchr.Game.{Viewer, player, host}
use klatchr.Server.Session.{member, set_member, drop_member}
use klatchr.Server.Members.{member-set_member, member-drop_member}
use klatchr.Server.Attached.{Fits}

module _ {seats : List Text} {ms : List (ℕ × Viewer)} {reapers : List Text} {hosting : Bool}
    (f : Fits seats ms reapers hosting) where
  pub Fits-grow :
      (seats' : List Text)
      → ((k : Text) → includes seats k ≡ true → includes seats' k ≡ true)
      → Fits seats' ms reapers hosting
  Fits-grow seats' g = record {
    seated = λ c id h. g id (f.seated c id h);
    single = f.single;
    timed = λ id h. g id (f.timed id h);
    away = f.away;
    host_away = f.host_away;
  }

  -- Fewer members fit as well.
  pub Fits-fewer :
      (ms' : List (ℕ × Viewer))
      → ((c : ℕ) (v : Viewer) → member c ms' ≡ some v → member c ms ≡ some v)
      → Fits seats ms' reapers hosting
  Fits-fewer ms' g = record {
    seated = λ c id h. f.seated c id (g c (player id) h);
    single = λ c d v hc hd. f.single c d v (g c v hc) (g d v hd);
    timed = f.timed;
    away = λ id c due h. f.away id c due (g c (player id) h);
    host_away = λ c due h. f.host_away c due (g c host h);
  }

  pub Fits-seat :
      (conn : ℕ) (id : Text)
      → includes seats id ≡ true
      → includes reapers id ≡ false
      → ((c : ℕ) → member c ms ≢ some (player id))
      → Fits seats (set_member conn (player id) ms) reapers hosting
  Fits-seat conn id here untimed free = record {
    seated = λ c k h. ground (arith, member-set_member conn c (player id) ms, f.seated c k);
    single = λ c d v hc hd. ground (
      arith,
      member-set_member conn c (player id) ms,
      member-set_member conn d (player id) ms,
      free c,
      free d,
      f.single c d v,
    );
    timed = f.timed;
    away = λ k c due h. ground (arith, member-set_member conn c (player id) ms, f.away k c due, h);
    host_away =
        λ c due h. ground (arith, member-set_member conn c (player id) ms, f.host_away c due, h);
  }

  pub Fits-host :
      (conn : ℕ)
      → hosting ≡ false
      → ((c : ℕ) → member c ms ≢ some host)
      → Fits seats (set_member conn host ms) reapers hosting
  Fits-host conn off free = record {
    seated = λ c k h. ground (arith, member-set_member conn c host ms, f.seated c k);
    single = λ c d v hc hd. ground (
      arith,
      member-set_member conn c host ms,
      member-set_member conn d host ms,
      free c,
      free d,
      f.single c d v,
    );
    timed = f.timed;
    away = λ k c due h. ground (arith, member-set_member conn c host ms, f.away k c due, h);
    host_away = λ c due h. cc;
  }

  pub Fits-schedule :
      (id : Text)
      → includes seats id ≡ true
      → ((c : ℕ) → member c ms ≢ some (player id))
      → Fits seats ms (without id reapers ++ id ∷ []) hosting
  unfolding includes
  Fits-schedule id here free = record {
    seated = f.seated;
    single = f.single;
    timed = λ k h. ground (
      arith,
      includes-append (without id reapers) (id ∷ []) k,
      includes-without id k reapers,
      same_iff id k,
      f.timed k,
    );
    away = λ k c due h. ground (
      arith,
      includes-append (without id reapers) (id ∷ []) k,
      includes-without id k reapers,
      same_iff id k,
      f.away k c,
      free c,
    );
    host_away = f.host_away;
  }

  pub Fits-cancel : (id : Text) → Fits seats ms (without id reapers) hosting
  Fits-cancel id = record {
    seated = f.seated;
    single = f.single;
    timed = λ k h. ground (arith, includes-without id k reapers, f.timed k);
    away = λ k c due h. f.away k c (ground (arith, includes-without id k reapers)) h;
    host_away = f.host_away;
  }

  -- A seat that nobody is attached to, and for which no timer runs, can go.
  pub Fits-vacate :
      (seats' : List Text) (id : Text)
      → ((k : Text) → same id k ≡ false → includes seats k ≡ true → includes seats' k ≡ true)
      → includes reapers id ≡ false
      → ((c : ℕ) → member c ms ≢ some (player id))
      → Fits seats' ms reapers hosting
  Fits-vacate seats' id keeps untimed free = record {
    seated = λ c k h. elim (Bool-cases (same id k)) [
      | inr other ↦ keeps k other (f.seated c k h)
      | inl this ↦
          absurd
            (free c (subst (λ j. member c ms ≡ some (player j)) (sym ((same_iff id k).0 this)) h))
    ];
    single = f.single;
    timed = λ k h. elim (Bool-cases (same id k)) [
      | inr other ↦ keeps k other (f.timed k h)
      | inl this ↦ ground (arith, same_iff id k)
    ];
    away = f.away;
    host_away = f.host_away;
  }

  pub Fits-host_gone : ((c : ℕ) → member c ms ≢ some host) → Fits seats ms reapers true
  Fits-host_gone free = record {
    seated = f.seated;
    single = f.single;
    timed = f.timed;
    away = f.away;
    host_away = λ c due h. free c h;
  }

  pub Fits-host_back : Fits seats ms reapers false
  Fits-host_back = record {
    seated = f.seated;
    single = f.single;
    timed = f.timed;
    away = f.away;
    host_away = λ c due h. cc;
  }

  pub Fits-drop : (conn : ℕ) → Fits seats (drop_member conn ms) reapers hosting
  Fits-drop conn =
      Fits-fewer (drop_member conn ms) λ c v h. ground (arith, member-drop_member conn c ms)

  -- With its connection dropped nobody is attached under the viewer's name.
  pub dropped :
      (conn : ℕ) (v : Viewer)
      → member conn ms ≡ some v
      → (c : ℕ) → member c (drop_member conn ms) ≢ some v
  dropped conn v here c h = ground (arith, member-drop_member conn c ms, f.single conn c v here)
