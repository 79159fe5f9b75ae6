-- ===== src/Errors/Tests.antt =====
-- The handlers at concrete exceptions.
use bonerepo.Prelude.{◌≤◌, ◌≡◌, ◌↔◌, Among, none, refl, []}
use bonerepo.Prelude.Texts.{codes}
use bonerepo.Contracts.Errors.{conflict, internal}
use bonerepo.Errors.{plimsoll, http_exception, handle_raised}
use bonerepo.Errors.Statuses.{kept_statuses, handle_raised_range, http_exception_status}

handle_raised_range_example :
    (400 ≤ (handle_raised (codes "req-1") (http_exception 418)).status_code)
    × ((handle_raised (codes "req-1") (http_exception 418)).status_code ≤ 500)
    × (((handle_raised (codes "req-1") (http_exception 418)).status_code ≡ 500)
        ↔ ((handle_raised (codes "req-1") (http_exception 418)).content.error.code ≡ internal))
handle_raised_range_example = handle_raised_range (codes "req-1") (http_exception 418)

conflict_is_409 :
    (handle_raised [] (plimsoll (record { code = conflict; details = none }))).status_code ≡ 409
unfolding handle_raised
conflict_is_409 = refl

http_exception_status_example :
    (Among 405 kept_statuses
      → (handle_raised (codes "req-1") (http_exception 405)).status_code ≡ 405)
    × (¬ Among 405 kept_statuses
        → ((handle_raised (codes "req-1") (http_exception 405)).status_code ≡ 500)
          × ((handle_raised (codes "req-1") (http_exception 405)).content.error.code ≡ internal))
http_exception_status_example = http_exception_status (codes "req-1") 405
