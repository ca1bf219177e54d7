-- ===== src/Workspaces/Owners.antt =====
-- Whatever members do through backend/src/controllers/workspace_controller.rs, the creator of a
-- workspace stays its member with the role of an owner, and nobody is a member twice.
use project_hermes.Base.{String, ◌≡◌, refl, Option, List, [], ◌∷◌, Uuid}
use project_hermes.Base.Int.{ℤ}
use project_hermes.Base.AppError.{AppError, Result, ok, err}
use project_hermes.Access.{Claims, Named}
use project_hermes.Accounts.{Db}
use project_hermes.Workspaces.{
  slug_of, create_workspace, add_workspace_member, update_workspace_member_role,
  remove_workspace_member, delete_workspace, update_workspace_settings,
}
use project_hermes.Workspaces.Rows.{IsOwned}
use project_hermes.Workspaces.Added.{create-IsOwned, add-IsOwned}
use project_hermes.Workspaces.Kept.{
  change_role-IsOwned, remove-IsOwned, delete-IsOwned, settings-IsOwned,
}

pub data Request : Type 0 where
  create : Claims → Uuid → String → Result (Unit {0}) → Request
  add : Claims → String → String → Request
  change_role : Claims → Uuid → String → Request
  remove : Claims → Uuid → Request
  delete : Claims → Uuid → Result (Unit {0}) → Request
  change_settings : Claims → Option String → Option ℤ → Option ℤ → Option ℤ → Request

module _ (to_lowercase trim : String → String) (refusal : AppError) where
  abbrev pub answer : Db → Request → Result Db
  answer d (create claims id name namespace) =
      create_workspace to_lowercase trim refusal claims id name namespace d
  answer d (add claims email role_name) =
      add_workspace_member to_lowercase trim refusal claims email role_name d
  answer d (change_role claims user role_name) =
      update_workspace_member_role to_lowercase trim refusal claims user role_name d
  answer d (remove claims user) = remove_workspace_member claims user d
  answer d (delete claims ws client) = delete_workspace claims ws client d
  answer d (change_settings claims name mem storage cpu) =
      update_workspace_settings (slug_of to_lowercase trim refusal) claims name mem storage cpu d

  -- A request that fails leaves the tables as they are.
  abbrev pub after : Db → Result Db → Db
  after d (ok d') = d'
  after d (err e) = d

  abbrev pub run : Db → List Request → Db
  run d [] = d
  run d (r ∷ rs) = run (after d (answer d r)) rs

  answer-IsOwned :
      (owner : Named) (d d' : Db) (r : Request)
      → answer d r ≡ ok d'
      → IsOwned owner d
      → IsOwned owner d'
  answer-IsOwned owner d d' (create claims id name namespace) =
      create-IsOwned to_lowercase trim refusal owner claims id name namespace d d'
  answer-IsOwned owner d d' (add claims email role_name) =
      add-IsOwned to_lowercase trim refusal owner claims email role_name d d'
  answer-IsOwned owner d d' (change_role claims user role_name) =
      change_role-IsOwned to_lowercase trim refusal owner claims user role_name d d'
  answer-IsOwned owner d d' (remove claims user) =
      remove-IsOwned to_lowercase trim refusal owner claims user d d'
  answer-IsOwned owner d d' (delete claims ws client) =
      delete-IsOwned to_lowercase trim refusal owner claims ws client d d'
  answer-IsOwned owner d d' (change_settings claims name mem storage cpu) =
      settings-IsOwned to_lowercase trim refusal (slug_of to_lowercase trim refusal) owner claims
        name mem storage cpu d d'

  after-IsOwned :
      (owner : Named) (d : Db) (r : Request) (result : Result Db)
      → answer d r ≡ result
      → IsOwned owner d
      → IsOwned owner (after d result)
  after-IsOwned owner d r (ok d') e v = answer-IsOwned owner d d' r e v
  after-IsOwned owner d r (err error) e v = v

  -- Whatever requests about workspaces and members are served, for any callers: every workspace's
  -- creator stays its member with the role of an owner, and nobody is a member twice, if it was so
  -- at the start.
  pub run-IsOwned :
      (owner : Named) (d : Db) (rs : List Request) → IsOwned owner d → IsOwned owner (run d rs)
  run-IsOwned owner d [] v = v
  run-IsOwned owner d (r ∷ rs) v =
      run-IsOwned owner (after d (answer d r)) rs (after-IsOwned owner d r (answer d r) refl v)
