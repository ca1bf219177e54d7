-- ===== src/Examples/Errors.antt =====
-- Errors of backend/src/utils/error.rs at concrete inputs.
use project_hermes.Base.{◌≡◌, refl, some}
use project_hermes.Base.AppError.{literal}
use project_hermes.Errors.{into_response, database, from_sqlx}

email_test :
    (into_response
      (from_sqlx (database (some "23505") (some "users_email_key") (literal "detail")))).message
    ≡ literal "This email address is already registered."
unfolding into_response from_sqlx
email_test = refl
