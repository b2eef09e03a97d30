-- ===== src/Links.antt =====
-- services/links.go: the lifecycle of links and requests, and the claim of a view.
-- `now` is the clock; `saves` says whether `app.Save` succeeds.
pub mod Lifecycle
pub mod Claims
mod Tests
use revoked.Prelude.{
  ℕ, zero, suc, ◌+◌, String, Bool, true, false, not, ◌&&◌, ◌||◌, Option, none, some, List, [], ◌∷◌,
  ◌++◌, ◌==◌, ltb, leb, eqb, if◌then◌else◌,
}

abbrev pub status_active : String
status_active = "active"

abbrev pub status_paused : String
status_paused = "paused"

abbrev pub status_revoked : String
status_revoked = "revoked"

abbrev pub status_expired : String
status_expired = "expired"

abbrev pub status_completed : String
status_completed = "completed"

-- A link as a handler holds it; `expires_at` is `none` for the zero time, and a cap of 0 is none.
pub record Link : Type 0 where
  pub status : String
  pub expires_at : Option ℕ
  pub max_views : ℕ
  pub view_count : ℕ
  pub request : String
  pub remote_domain : String

-- `IsRequestGrant` of services/grants.go
unfoldable pub is_request_grant : Link → Bool
is_request_grant link = not (link.request == "") || not (link.remote_domain == "")

pub data LinkError : Type 0 where
  link_revoked link_expired link_max_views_reached link_paused : LinkError

-- What a refresh writes and tells.
pub data Effect {ℓ} (A : Type ℓ) : Type ℓ where
  save : A → Effect A
  notify_expired : Effect A

-- The answer, the record as it is left in memory, and the effects.
pub record Refreshed {ℓ} (E : Type ℓ) (A : Type ℓ) : Type ℓ where
  pub error : Option E
  pub left : A
  pub effects : List (Effect A)

abbrev pub is_before : Option ℕ → ℕ → Bool
is_before none now = false
is_before (some t) now = ltb t now

-- The tail of `RefreshLinkStatus`, on the status that was read at its start.
pub settle_link : String → Link → Refreshed LinkError Link
settle_link status link =
    if status == status_paused
    then record { error = some link_paused; left = link; effects = [] }
    else if not (status == status_active)
    then record { error = some link_revoked; left = link; effects = [] }
    else record { error = none; left = link; effects = [] }

-- `RefreshLinkStatus`
unfoldable pub refresh_link_status : ℕ → Bool → Link → Refreshed LinkError Link
unfolding settle_link
refresh_link_status now saves link =
    if link.status == status_revoked
    then record { error = some link_revoked; left = link; effects = [] }
    else if link.status == status_expired
    then record { error = some link_expired; left = link; effects = [] }
    else if is_before link.expires_at now
    then (let expired = record link { status = status_expired } in
        record {
          error = some link_expired;
          left = expired;
          effects = save expired ∷ (if saves then notify_expired ∷ [] else []);
        })
    else if ltb 0 link.max_views && leb link.max_views link.view_count
    then (let revoked = record link { status = status_revoked } in
        record { error = some link_max_views_reached; left = revoked; effects = save revoked ∷ [] })
    else settle_link link.status link

pub record Request : Type 0 where
  pub status : String
  pub expires_at : Option ℕ
  pub max_responses : ℕ
  pub response_count : ℕ

pub data RequestError : Type 0 where
  request_revoked request_expired request_completed request_paused : RequestError

-- The tail of `RefreshRequestStatus`.
pub settle_request : String → Request → Refreshed RequestError Request
settle_request status req =
    if status == status_paused
    then record { error = some request_paused; left = req; effects = [] }
    else if not (status == status_active)
    then record { error = some request_revoked; left = req; effects = [] }
    else record { error = none; left = req; effects = [] }

-- `RefreshRequestStatus`
unfoldable pub refresh_request_status : ℕ → Bool → Request → Refreshed RequestError Request
unfolding settle_request
refresh_request_status now saves req =
    if req.status == status_revoked
    then record { error = some request_revoked; left = req; effects = [] }
    else if req.status == status_expired
    then record { error = some request_expired; left = req; effects = [] }
    else if req.status == status_completed
    then record { error = some request_completed; left = req; effects = [] }
    else if is_before req.expires_at now
    then (let expired = record req { status = status_expired } in
        record {
          error = some request_expired;
          left = expired;
          effects = save expired ∷ (if saves then notify_expired ∷ [] else []);
        })
    else if ltb 0 req.max_responses && leb req.max_responses req.response_count
    then (let completed = record req { status = status_completed } in
        record { error = some request_completed; left = completed; effects = save completed ∷ [] })
    else settle_request req.status req

-- The columns of a link's row that the statements of `ClaimLinkView` touch; NULL is `none`.
pub record LinkRow : Type 0 where
  pub view_count : Option ℕ
  pub max_views : Option ℕ
  pub status : String

abbrev pub coalesce : Option ℕ → ℕ
coalesce none = 0
coalesce (some n) = n

-- The two statements, on the row with the link's id, with the number of rows affected.
pub data Statement : Type 0 where
  claim set_revoked : Statement

unfoldable pub execute : Statement → Option LinkRow → Option LinkRow × ℕ
execute s none = (none, 0)
execute claim (some row) =
    if eqb (coalesce row.max_views) 0 || ltb (coalesce row.view_count) (coalesce row.max_views)
    then (some (record row { view_count = some (coalesce row.view_count + 1) }), 1)
    else (some row, 0)
execute set_revoked (some row) = (some (record row { status = status_revoked }), 1)

-- Where the database fails: on the claim (before it runs), on reading how many rows it affected,
-- and on the second statement (before it runs).
pub record Failures : Type 0 where
  pub update_fails : Bool
  pub affected_fails : Bool
  pub status_fails : Bool

pub data Claim : Type 0 where
  failed : Claim
  cap_reached : Claim
  claimed : (views : ℕ) (revoked_by_limit : Bool) → Claim

pub data ClaimEffect : Type 0 where
  sync_grant_index dispatch_expired viewed expired_by_views response_expired_by_views : ClaimEffect

-- The answer, the link as it is left in memory, the row, and what is told.
pub record Claimed : Type 0 where
  pub answer : Claim
  pub left : Link
  pub row : Option LinkRow
  pub told : List ClaimEffect

-- What follows a claim that went through; `views` is the copy's count plus one.
pub after_claim : Bool → Option LinkRow → Link → ℕ → Claimed
unfolding execute is_request_grant
after_claim status_fails row link views =
    if ltb 0 link.max_views && leb link.max_views views
    then (let grant =
          if not status_fails && is_request_grant link
          then sync_grant_index ∷ dispatch_expired ∷ []
          else [] in
        record {
          answer = claimed views true;
          left = record link { view_count = views; status = status_revoked };
          row = if status_fails then row else (execute set_revoked row).0;
          told = grant ++ viewed ∷ expired_by_views ∷ response_expired_by_views ∷ [];
        })
    else record {
      answer = claimed views false;
      left = record link { view_count = views };
      row = row;
      told = viewed ∷ [];
    }

-- `ClaimLinkView`
unfoldable pub claim_link_view : Failures → Option LinkRow → Link → Claimed
unfolding after_claim
claim_link_view f row link =
    if f.update_fails
    then record { answer = failed; left = link; row = row; told = [] }
    else (let (row', affected) = execute claim row in
        if f.affected_fails || eqb affected 0
        then record { answer = cap_reached; left = link; row = row'; told = [] }
        else after_claim f.status_fails row' link (link.view_count + 1))
