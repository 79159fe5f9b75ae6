-- ===== src/Errors/Statuses.antt =====
-- The status codes that the error handlers send.
use bonerepo.Prelude.{
  ℕ, ◌≤◌, ◌≡◌, ◌≢◌, ◌↔◌, refl, ap, ◌∙◌, List, [], ◌∷◌, Among, here, there, arith,
}
use bonerepo.Prelude.Texts.{Text}
use bonerepo.Contracts.Errors.{ErrorCode, internal, validation_failed, http_status_for_code}
use bonerepo.Errors.{
  Raised, plimsoll, http_exception, request_validation, unhandled, status_to_code, handle_raised,
}

-- No registered code is a success or a redirect, and exactly INTERNAL is a server error.
code_range :
    (c : ErrorCode)
    → (400 ≤ http_status_for_code c)
      × (http_status_for_code c ≤ 500)
      × ((http_status_for_code c ≡ 500) ↔ (c ≡ internal))
unfolding http_status_for_code
code_range c = ground arith

-- Whatever is raised, the response carries a status from 400 to 500, which is 500 exactly when the
-- code in the body is INTERNAL.
pub handle_raised_range :
    (rid : Text) (r : Raised)
    → (400 ≤ (handle_raised rid r).status_code)
      × ((handle_raised rid r).status_code ≤ 500)
      × (((handle_raised rid r).status_code ≡ 500)
          ↔ ((handle_raised rid r).content.error.code ≡ internal))
unfolding handle_raised
handle_raised_range rid (plimsoll e) = code_range e.code
handle_raised_range rid (http_exception status) = code_range (status_to_code status)
handle_raised_range rid (request_validation problems) = code_range validation_failed
handle_raised_range rid unhandled = code_range internal

-- The client errors that keep their status.
abbrev pub kept_statuses : List ℕ
kept_statuses = 401 ∷ 403 ∷ 404 ∷ 405 ∷ 409 ∷ 422 ∷ 429 ∷ []

internal_is_500 : http_status_for_code internal ≡ 500
unfolding http_status_for_code
internal_is_500 = refl

kept :
    (status : ℕ)
    → Among status kept_statuses
    → http_status_for_code (status_to_code status) ≡ status
unfolding status_to_code http_status_for_code
kept status (here e) = rw e refl
kept status (there (here e)) = rw e refl
kept status (there (there (here e))) = rw e refl
kept status (there (there (there (here e)))) = rw e refl
kept status (there (there (there (there (here e))))) = rw e refl
kept status (there (there (there (there (there (here e)))))) = rw e refl
kept status (there (there (there (there (there (there (here e))))))) = rw e refl
kept status (there (there (there (there (there (there (there m))))))) = elim m [ ]

lost :
    (status : ℕ)
    → status ≢ 401
    → status ≢ 403
    → status ≢ 404
    → status ≢ 405
    → status ≢ 409
    → status ≢ 422
    → status ≢ 429
    → status_to_code status ≡ internal
unfolding status_to_code
lost status a b c d e f g = ground arith

-- An HTTPException whose status is 401, 403, 404, 405, 409, 422 or 429 is sent with its own status.
-- One of any other status is sent as 500, with the code INTERNAL.
pub http_exception_status :
    (rid : Text) (status : ℕ)
    → (Among status kept_statuses
        → (handle_raised rid (http_exception status)).status_code ≡ status)
      × (¬ Among status kept_statuses
          → ((handle_raised rid (http_exception status)).status_code ≡ 500)
            × ((handle_raised rid (http_exception status)).content.error.code ≡ internal))
unfolding handle_raised
http_exception_status rid status = (
  kept status,
  λ h.
      let code =
        lost status (λ e. h (here e)) (λ e. h (there (here e))) (λ e. h (there (there (here e))))
          (λ e. h (there (there (there (here e)))))
          (λ e. h (there (there (there (there (here e))))))
          (λ e. h (there (there (there (there (there (here e)))))))
          (λ e. h (there (there (there (there (there (there (here e)))))))) in
      (ap http_status_for_code code ∙ internal_is_500, code),
)
