-- ===== src/Server/Members.antt =====
-- The map of connections of a room session: what its operations find in it.
use klatchr.Prelude.{
  ℕ, ◌≡◌, ◌≢◌, Bool, true, none, some, List, [], ◌∷◌, ◌==◌, if◌then◌else◌, arith, sym, subst, ap,
  ◌∙◌, Option-cases, Bool-cases, inl, inr,
}
use klatchr.Game.{Viewer}
use klatchr.Server.Session.{Session, member, set_member, drop_member, supersede, evict_where, emit}

pub ==_refl : (c : ℕ) → (c == c) ≡ true
==_refl c = ground arith

pub member-set_member :
    (conn c : ℕ) (viewer : Viewer) (ms : List (ℕ × Viewer))
    → member c (set_member conn viewer ms) ≡ (if conn == c then some viewer else member c ms)
unfolding member set_member
member-set_member conn c viewer [] = ground arith
member-set_member conn c viewer ((d, v) ∷ ms) = ground (arith, member-set_member conn c viewer ms)

pub member-drop_member :
    (conn c : ℕ) (ms : List (ℕ × Viewer))
    → member c (drop_member conn ms) ≡ (if conn == c then none else member c ms)
unfolding member
member-drop_member conn c [] = ground arith
member-drop_member conn c ((d, v) ∷ ms) = ground (arith, member-drop_member conn c ms)

none-ne-some : {A : Type 0} (a : A) → none ≢ some a
none-ne-some a e = cc

-- Who is attached after an eviction was attached before.
pub member-evict_where :
    (test : Viewer → Bool) (ms : List (ℕ × Viewer)) (s : Session) (c : ℕ) (v : Viewer)
    → member c (evict_where test ms s).members ≡ some v
    → member c s.members ≡ some v
unfolding evict_where supersede emit
member-evict_where test [] s c v h = h
member-evict_where test ((d, w) ∷ ms) s c v h = elim (Bool-cases (test w)) [
  | inr stays ↦ member-evict_where test ms s c v (
      subst (λ b. member c (evict_where test ms (if b then supersede s d else s)).members ≡ some v)
        stays h)
  | inl goes ↦
      let left = member-evict_where test ms (supersede s d) c v (
        subst
          (λ b. member c (evict_where test ms (if b then supersede s d else s)).members ≡ some v)
          goes h) in
      ground (arith, left, member-drop_member d c s.members)
]

gone_stays :
    (test : Viewer → Bool) (ms : List (ℕ × Viewer)) (s : Session) (c : ℕ)
    → member c s.members ≡ none
    → member c (evict_where test ms s).members ≡ none
gone_stays test ms s c h = elim (Option-cases (member c (evict_where test ms s).members)) [
  | inl e ↦ e
  | inr (v, e) ↦ absurd (none-ne-some v (sym h ∙ member-evict_where test ms s c v e))
]

-- Whoever the test names is gone after its eviction.
pub evicted :
    (test : Viewer → Bool) (ms : List (ℕ × Viewer)) (s : Session) (c : ℕ) (v : Viewer)
    → member c ms ≡ some v
    → test v ≡ true
    → member c (evict_where test ms s).members ≡ none
unfolding evict_where supersede emit member
evicted test [] s c v h t = absurd (cc)
evicted test ((d, w) ∷ ms) s c v h t = elim (Bool-cases (d == c)) [
  | inl here ↦
      let same_viewer : w ≡ v = ground arith in
      let gone : member c (supersede s d).members ≡ none =
        ground (arith, member-drop_member d c s.members) in
      gone_stays test ms _ c (
        subst (λ b. member c (if b then supersede s d else s).members ≡ none)
          (sym (ap test same_viewer ∙ t)) gone)
  | inr on ↦
      evicted test ms _ c v (subst (λ b. (if b then some w else member c ms) ≡ some v) on h) t
]
