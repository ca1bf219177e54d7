-- ===== src/Errors.antt =====
-- backend/src/utils/error.rs: what a client sees of an error, and which error a failed query is. Logs
-- and the request's id are left out.
use project_hermes.Base.{
  ℕ, String, ◌≡◌, refl, inl, inr, Bool, false, Option, none, some, List, [], ◌∷◌, str_eq,
  if◌then◌else◌, Bool-cases,
}
use project_hermes.Base.AppError.{
  Message, literal, AppError, validation, auth, permission, not_found, conflict, rate_limited,
  infrastructure, fatal,
}

-- The status code, the `code` and the `message` of the body.
pub record Response : Type 0 where
  pub status : ℕ
  pub code : String
  pub message : Message

abbrev pub response : ℕ → String → Message → Response
response status code message = record { status = status; code = code; message = message }

unfoldable pub into_response : AppError → Response
into_response (validation msg) = response 400 "VALIDATION_ERROR" msg
into_response (auth msg) = response 401 "AUTH_ERROR" msg
into_response (permission msg) = response 403 "PERMISSION_DENIED" msg
into_response (not_found msg) = response 404 "NOT_FOUND" msg
into_response (conflict msg) = response 409 "CONFLICT" msg
into_response (rate_limited msg) = response 429 "RATE_LIMITED" msg
into_response (infrastructure msg) =
    response 503 "INFRASTRUCTURE_ERROR"
      (literal "Cluster is temporarily busy. Try again in a minute.")
into_response (fatal error) =
    response 500 "INTERNAL_ERROR" (literal "A technical error occurred. Our team is notified.")

-- An error of sqlx: the one for a missing row, one of the database with its code and constraint, and
-- all others. `detail` is the text of the error.
pub data SqlxError : Type 0 where
  row_not_found : SqlxError
  database : Option String → Option String → Message → SqlxError
  other_error : Message → SqlxError

-- The constraint's name, and the message for it.
abbrev pub constraint_msgs : List (String × String)
constraint_msgs =
    (
      "unique_workspace_app_slug",
      "An application with this name (slug) already exists in this workspace.",
    )
    ∷ ("users_username_key", "This username is already taken.")
    ∷ ("users_email_key", "This email address is already registered.")
    ∷ ("workspaces_slug_key", "A workspace with this name (slug) already exists.")
    ∷ (
      "unique_workspace_bucket_slug",
      "A storage bucket with this name already exists in this workspace.",
    )
    ∷ ("unique_route_path_per_project", "This serverless route already exists in the project.")
    ∷ (
      "unique_env_per_instance",
      "An environment variable with this key already exists on the instance.",
    )
    ∷ []

abbrev pub message_for : String → List (String × String) → String
message_for name [] = "The duplicate resource violates a uniqueness constraint."
message_for name ((constraint, msg) ∷ rest) =
    if str_eq name constraint then msg else message_for name rest

abbrev pub constraint_msg : Option String → String
constraint_msg none = "The duplicate resource violates a uniqueness constraint."
constraint_msg (some name) = message_for name constraint_msgs

abbrev pub is_unique_violation : Option String → Bool
is_unique_violation none = false
is_unique_violation (some code) = str_eq code "23505"

-- `From<sqlx::Error>`
unfoldable pub from_sqlx : SqlxError → AppError
from_sqlx row_not_found = not_found (literal "The requested resource was not found.")
from_sqlx (database code constraint detail) =
    if is_unique_violation code
    then conflict (literal (constraint_msg constraint))
    else fatal detail
from_sqlx (other_error detail) = fatal detail

-- The response to a failed query does not depend on the text of the database's error: it is a
-- conflict (409) for a unique violation, and an internal error (500) with a fixed message for any
-- other error of the database; errors of other kinds answer like every fatal error.
pub from_sqlx-into_response :
    (code constraint : Option String) (detail detail' : Message)
    → (into_response (from_sqlx (database code constraint detail))
        ≡ into_response (from_sqlx (database code constraint detail')))
      × (into_response (from_sqlx (other_error detail)) ≡ into_response (fatal detail'))
      × ((into_response (from_sqlx (database code constraint detail))).status
          ≡ (if is_unique_violation code then 409 else 500))
unfolding into_response from_sqlx
from_sqlx-into_response code constraint detail detail' =
    elim (Bool-cases (is_unique_violation code)) [
      | inl unique ↦ rw unique (refl, refl, refl)
      | inr different ↦ rw different (refl, refl, refl)
    ]
