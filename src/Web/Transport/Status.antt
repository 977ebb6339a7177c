-- ===== src/Web/Transport/Status.antt =====
-- What a change of the transport's status does.
use mathlib.Core.List.{append-nil}
use klatchr.Prelude.{
  if_true, if_false, ◌≡◌, ◌++◌, true, List, [], ◌∷◌, if◌then◌else◌, refl, sym, ap, ap₂, ◌∙◌,
  Bool-cases, inl, inr,
}
use klatchr.Web.Wire.{ConnStatus, connecting, live, reconnecting}
use klatchr.Web.Link.{Link, Notice, tell, is_status, status_told}
use klatchr.Web.Transport.{set_status}

-- What a change of the status tells.
unfoldable pub status_notice : ConnStatus → ConnStatus → List Notice
status_notice before status = if is_status before status then [] else status_told status ∷ []

is_status_same : (a b : ConnStatus) → is_status a b ≡ true → a ≡ b
unfolding is_status
is_status_same connecting connecting h = refl
is_status_same live live h = refl
is_status_same reconnecting reconnecting h = refl
is_status_same connecting live h = absurd (cc)
is_status_same connecting reconnecting h = absurd (cc)
is_status_same live connecting h = absurd (cc)
is_status_same live reconnecting h = absurd (cc)
is_status_same reconnecting connecting h = absurd (cc)
is_status_same reconnecting live h = absurd (cc)

restated :
    (l : Link) (status : ConnStatus)
    → l.status ≡ status
    → l ≡ record l { status = status; log = l.log ++ [] }
restated l status h =
    ap₂ (λ (s : ConnStatus) (log : List Notice). record l { status = s; log = log }) h
      (sym (append-nil l.log))

pub set_status_lem :
    (l : Link) (status : ConnStatus)
    → set_status l status
      ≡ record l { status = status; log = l.log ++ status_notice l.status status }
unfolding set_status status_notice tell
set_status_lem l status = elim (Bool-cases (is_status l.status status)) [
  | inl kept ↦
      if_true _ _ _ kept
      ∙ restated l status (is_status_same l.status status kept)
      ∙ ap (λ (xs : List Notice). record l { status = status; log = l.log ++ xs })
          (sym (if_true (is_status l.status status) [] (status_told status ∷ []) kept))
  | inr changed ↦
      if_false _ _ _ changed
      ∙ ap (λ (xs : List Notice). record l { status = status; log = l.log ++ xs })
          (sym (if_false (is_status l.status status) [] (status_told status ∷ []) changed))
]
