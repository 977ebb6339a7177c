-- ===== src/Server/Hub/Owners.antt =====
-- Which address each live room of a hub was opened from, told by the entries alone.
use klatchr.Prelude.{
  ℕ, ◌+◌, ◌≡◌, refl, ap, ap₂, ◌∙◌, sym, subst, Bool, true, false, Option, none, some, List, [], ◌∷◌,
  Text, Dict, keys, lookup, has, includes, same, same_iff, same_refl, Distinct, has-lookup,
  if◌then◌else◌, arith, Bool-cases, inl, inr,
}
use klatchr.Server.Hub.Counts.{live_of}

unfoldable pub is_from : Text → Option Text → Bool
is_from a none = false
is_from a (some address) = same address a

-- How many of the rooms were opened from an address.
unfoldable pub opened_from : Text → (Text → Option Text) → List Text → ℕ
opened_from a owner [] = 0
opened_from a owner (code ∷ rooms) =
    (if is_from a (owner code) then 1 else 0) + opened_from a owner rooms

pub opened_from-agree :
    (a : Text) (f g : Text → Option Text) (rooms : List Text)
    → ((code : Text) → includes rooms code ≡ true → f code ≡ g code)
    → opened_from a f rooms ≡ opened_from a g rooms
unfolding opened_from includes
opened_from-agree a f g [] h = refl
opened_from-agree a f g (code ∷ rooms) h =
    ap₂ (λ (o : Option Text) (n : ℕ). (if is_from a o then 1 else 0) + n)
      (h code (ground (arith, same_refl code)))
      (opened_from-agree a f g rooms (λ k there. h k (ground arith)))

-- One room more that an address has opened.
opened_from-one :
    (a code address : Text) (rest : Dict Text) (rooms : List Text)
    → Distinct rooms
    → includes rooms code ≡ true
    → lookup code rest ≡ none
    → opened_from a (λ k. lookup k ((code, address) ∷ rest)) rooms
      ≡ (if same address a then 1 else 0) + opened_from a (λ k. lookup k rest) rooms
unfolding opened_from includes lookup is_from
opened_from-one a code address rest [] d there new = absurd (ground arith)
opened_from-one a code address rest (r ∷ rooms) d there new = elim (Bool-cases (same code r)) [
  | inl here ↦
      let this : code ≡ r = (same_iff code r).0 here in
      let same_rest : opened_from a (λ k. lookup k ((code, address) ∷ rest)) rooms
          ≡ opened_from a (λ k. lookup k rest) rooms =
        opened_from-agree a _ _ rooms (λ k listed.
          ground
            (arith, d.0, same_iff code k, subst (λ c. includes rooms c ≡ false) (sym this) d.0)) in
      ground (arith, same_rest, subst (λ c. lookup c rest ≡ none) this new)
  | inr other ↦ ground (
    arith,
    opened_from-one a code address rest rooms d.1 (ground (arith, same_iff r code, same_iff code r))
        new,
  )
]

none_opened : (a : Text) (rooms : List Text) → opened_from a (λ k. lookup k []) rooms ≡ 0
unfolding opened_from lookup is_from
none_opened a [] = refl
none_opened a (r ∷ rooms) = omega (arith, none_opened a rooms)

-- The rooms that a list of openers counts, where every opener's room is there.
pub opened_from-live_of :
    (a : Text) (openers : Dict Text) (rooms : List Text)
    → Distinct rooms
    → Distinct (keys openers)
    → ((code : Text) → has code openers ≡ true → includes rooms code ≡ true)
    → opened_from a (λ k. lookup k openers) rooms ≡ live_of a openers
unfolding live_of has includes
opened_from-live_of a [] rooms d e live = none_opened a rooms
opened_from-live_of a ((code, address) ∷ rest) rooms d e live =
    opened_from-one a code address rest rooms d (live code (ground (arith, same_refl code)))
      (ground (arith, has-lookup code rest, e.0))
    ∙ ap (λ n. (if same address a then 1 else 0) + n)
        (opened_from-live_of a rest rooms d e.1 (λ k there. live k (ground arith)))
