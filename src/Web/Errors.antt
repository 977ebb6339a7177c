-- ===== src/Web/Errors.antt =====
-- apps/web/src/errors.ts: the copy that the screens show for an error that ends a session. The names
-- that every JavaScript object inherits are no messages of the server.
use klatchr.Prelude.{
  ◌≡◌, Bool, true, false, Option, none, some, [], ◌∷◌, Text, codes, Dict, keys, lookup, includes,
  arith, ◌∙◌, refl,
}
use klatchr.Web.Wire.{is_terminal}

pub record ErrorCopy : Type 0 where
  pub title : Text
  pub body : Text

abbrev copy : Text → Text → ErrorCopy
copy title body = record { title = title; body = body }

abbrev pub copies : Dict ErrorCopy
copies =
    (
      codes "NO_SUCH_ROOM",
      copy (codes "No room with that code")
          (codes "Check the four letters on the host's screen and try again."),
    )
    ∷ (
      codes "ROOM_FULL",
      copy (codes "That room is full")
          (codes "This round is at capacity — ask the host to start a new round."),
    )
    ∷ (
      codes "EMPTY_NICKNAME",
      copy (codes "Add your name") (codes "You need a name to join the room."),
    )
    ∷ (codes "ROOM_CLOSED", copy (codes "Room closed") (codes "The host ended the room."))
    ∷ (
      codes "BAD_HOST_TOKEN",
      copy (codes "Couldn't rejoin") (codes "That room has already ended."),
    )
    ∷ (
      codes "JOIN_FAILED",
      copy (codes "Couldn't join") (codes "Something went wrong — please try again."),
    )
    ∷ (
      codes "SUPERSEDED",
      copy (codes "Opened somewhere else")
          (codes "This seat is now on another tab or device. Carry on there, or rejoin here."),
    )
    ∷ (
      codes "SERVER_FULL",
      copy (codes "Klatchr is busy")
          (codes "Too many rooms are open right now — try again in a minute."),
    )
    ∷ (
      codes "TOO_MANY_ROOMS",
      copy (codes "Too many rooms open")
          (codes "This network already has several rooms open. Close one, then try again."),
    )
    ∷ []

unfoldable pub describe_error : Option Text → Option ErrorCopy
describe_error none = none
describe_error (some message) = lookup message copies

unfoldable pub is_shown : Option ErrorCopy → Bool
is_shown none = false
is_shown (some copy) = true

is_shown-lookup :
    (m : Text) (entries : Dict ErrorCopy) → is_shown (lookup m entries) ≡ includes (keys entries) m
unfolding is_shown lookup includes
is_shown-lookup m [] = refl
is_shown-lookup m ((k, v) ∷ entries) = ground (arith, is_shown-lookup m entries)

-- One list of nine in the order of the other.
reordered :
    (n f e c b j s v t m : Text)
    → includes (n ∷ f ∷ e ∷ c ∷ b ∷ j ∷ s ∷ v ∷ t ∷ []) m
      ≡ includes (s ∷ c ∷ n ∷ b ∷ v ∷ t ∷ f ∷ e ∷ j ∷ []) m
unfolding includes
reordered n f e c b j s v t m = ground arith

-- A screen shows an error's recover card exactly where the transport has stopped for good: the
-- errors with copy are the terminal ones.
pub describe_error-is_terminal :
    (message : Option Text) → is_shown (describe_error message) ≡ is_terminal message
unfolding describe_error is_terminal is_shown
describe_error-is_terminal none = refl
describe_error-is_terminal (some m) =
    is_shown-lookup m copies
    ∙ reordered (codes "NO_SUCH_ROOM") (codes "ROOM_FULL") (codes "EMPTY_NICKNAME")
        (codes "ROOM_CLOSED") (codes "BAD_HOST_TOKEN") (codes "JOIN_FAILED") (codes "SUPERSEDED")
        (codes "SERVER_FULL") (codes "TOO_MANY_ROOMS") m
