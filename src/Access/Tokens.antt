-- ===== src/Access/Tokens.antt =====
-- What the extraction of the claims in backend/src/middlewares/auth_middleware.rs admits.
use project_hermes.Base.{
  String, ◌≡◌, refl, ap, subst, inl, inr, true, false, Option, none, some, arith, str_eq,
  Bool-cases,
}
use project_hermes.Base.AppError.{AppError, Result, ok, err, ok_or, ◌>>=◌}
use project_hermes.Access.{
  Claims, Parts, from_request_parts, token_of, is_suspended, is_pending, admit,
}

-- The claims that pass the tests of the status, and what they passed.
pub record IsAdmitted (path : String) (claims : Claims) : Type 0 where
  pub not_suspended : is_suspended claims.status ≡ false
  pub activated : is_pending claims.status ≡ true → str_eq path "/api/v1/auth/activate" ≡ true

admit_status :
    (path : String) (c claims : Claims)
    → admit path c ≡ ok claims
    → (c ≡ claims) × IsAdmitted path c
admit_status path c claims e = elim (Bool-cases (is_suspended c.status)) [
  | inl out ↦ absurd (ground arith)
  | inr fine ↦ elim (Bool-cases (is_pending c.status)) [
    | inl pending ↦ elim (Bool-cases (str_eq path "/api/v1/auth/activate")) [
      | inl here ↦
          let e' : ok c ≡ ok claims = rw (fine, pending, here) at e in
          (cc, record { not_suspended = fine; activated = λ _. here })
      | inr elsewhere ↦ absurd (ground arith)
    ]
    | inr settled ↦
        let e' : ok c ≡ ok claims = rw (fine, settled) at e in
        (cc, record { not_suspended = fine; activated = λ p. absurd (cc) })
  ]
]

admit_decoded :
    (error : AppError) (path : String) (o : Option Claims) (claims : Claims)
    → (ok_or error o >>= admit path) ≡ ok claims
    → (o ≡ some claims) × IsAdmitted path claims
admit_decoded error path none claims e = absurd (cc)
admit_decoded error path (some c) claims e =
    let (same, admitted) = admit_status path c claims e in
    (ap some same, subst (IsAdmitted path) same admitted)

admit_token :
    (error : AppError) (decode : String → Option Claims) (path : String) (r : Result String)
    (claims : Claims)
    → (r >>= λ token. ok_or error (decode token) >>= admit path) ≡ ok claims
    → (token : String) × (r ≡ ok token) × (decode token ≡ some claims) × IsAdmitted path claims
admit_token error decode path (ok token) claims e =
    let (decoded, admitted) = admit_decoded error path (decode token) claims e in
    (token, refl, decoded, admitted)
admit_token error decode path (err other) claims e = absurd (cc)

-- Claims that the extraction yields were decoded from the token of the header, or of the query
-- where there is no header, and are not of a suspended account; those of a pending account pass
-- only on the path of the activation.
pub from_request_parts-ok :
    (decode : String → Option Claims) (parts : Parts) {claims : Claims}
    → from_request_parts decode parts ≡ ok claims
    → (token : String) × (token_of parts.authorization parts.query ≡ ok token)
      × (decode token ≡ some claims)
      × IsAdmitted parts.path claims
unfolding from_request_parts
from_request_parts-ok decode parts {claims} e =
    admit_token _ decode parts.path (token_of parts.authorization parts.query) claims e
