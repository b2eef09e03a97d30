-- ===== src/Links/Lifecycle.antt =====
-- What a refresh of a link or a request lets through, and that a refusal lasts.
use revoked.Prelude.{
  subst, ◌≢◌, ℕ, ◌≤◌, ◌<◌, String, ◌≡◌, refl, ◌↔◌, ◌⊎◌, Bool, true, false, Option, none, some, [],
  ◌==◌, eq_iff, arith,
}
use revoked.Links.{
  Link, is_before, refresh_link_status, Request, refresh_request_status, status_active,
  status_paused, status_revoked, status_expired, status_completed,
}

-- A link that can be opened: active, not past its date, and with a view left under its cap.
abbrev pub IsOpen : ℕ → Link → Type 0
IsOpen now link =
    (link.status ≡ status_active)
    × (is_before link.expires_at now ≡ false)
    × ((link.max_views ≡ 0) ⊎ (link.view_count < link.max_views))

pub active_others :
    (s : String)
    → s ≡ status_active
    → ((s == status_revoked) ≡ false)
      × ((s == status_expired) ≡ false)
      × ((s == status_paused) ≡ false)
      × ((s == status_completed) ≡ false)
      × ((s == status_active) ≡ true)
active_others s h = rw h (refl, refl, refl, refl, refl)

-- A refresh lets a link through exactly if it is open: active, not past its date, and with a view
-- left under its cap.
pub refresh_link_iff :
    (now : ℕ) (saves : Bool) (link : Link)
    → ((refresh_link_status now saves link).error ≡ none) ↔ IsOpen now link
unfolding refresh_link_status
refresh_link_iff now saves link = (
  λ e. ground (arith, eq_iff link.status status_active),
  λ o. ground (arith, active_others link.status o.0),
)

-- Letting a link through writes and tells nothing.
pub refresh_link_open :
    (now : ℕ) (saves : Bool) (link : Link)
    → IsOpen now link
    → refresh_link_status now saves link ≡ record { error = none; left = link; effects = [] }
unfolding refresh_link_status
refresh_link_open now saves link o = ground (arith, active_others link.status o.0)

is_before-anti :
    (o : Option ℕ) (now later : ℕ)
    → now ≤ later
    → is_before o later ≡ false
    → is_before o now ≡ false
is_before-anti none now later h b = refl
is_before-anti (some t) now later h b = ground arith

settled_not_active : (status_expired ≢ status_active) × (status_revoked ≢ status_active)
settled_not_active = (
  λ e. cc ((eq_iff status_expired status_active).1 e),
  λ e. cc ((eq_iff status_revoked status_active).1 e),
)

-- A refresh changes no link that it leaves active.
left_active :
    (now : ℕ) (saves : Bool) (link : Link)
    → (refresh_link_status now saves link).left.status ≡ status_active
    → (refresh_link_status now saves link).left ≡ link
unfolding refresh_link_status
left_active now saves link h = ground (arith, settled_not_active.0, settled_not_active.1)

-- A refused link stays refused: the record that the refusal leaves is refused again at any later
-- time, whether or not it could be saved.
pub refused_link_stays :
    (now later : ℕ) (saves saves' : Bool) (link : Link)
    → now ≤ later
    → (refresh_link_status now saves link).error ≢ none
    → (refresh_link_status later saves' (refresh_link_status now saves link).left).error ≢ none
refused_link_stays now later saves saves' link h r e =
    let left = (refresh_link_status now saves link).left in
    let (active, in_time, room) = (refresh_link_iff later saves' left).0 e in
    let unchanged = left_active now saves link active in
    let in_time' = subst (λ (l : Link). is_before l.expires_at later ≡ false) unchanged in_time in
    let room' =
      subst (λ (l : Link). (l.max_views ≡ 0) ⊎ (l.view_count < l.max_views)) unchanged room in
    let active' = subst (λ (l : Link). l.status ≡ status_active) unchanged active in
    r (
      (refresh_link_iff now saves link).1
        (active', is_before-anti link.expires_at now later h in_time', room'))

-- A request that can be answered: active, not past its date, and with an answer left under its cap.
abbrev pub IsOpenRequest : ℕ → Request → Type 0
IsOpenRequest now req =
    (req.status ≡ status_active)
    × (is_before req.expires_at now ≡ false)
    × ((req.max_responses ≡ 0) ⊎ (req.response_count < req.max_responses))

-- A refresh lets a request through exactly if it can be answered: active, not past its date, and
-- with an answer left under its cap.
pub refresh_request_iff :
    (now : ℕ) (saves : Bool) (req : Request)
    → ((refresh_request_status now saves req).error ≡ none) ↔ IsOpenRequest now req
unfolding refresh_request_status
refresh_request_iff now saves req = (
  λ e. ground (arith, eq_iff req.status status_active),
  λ o. ground (arith, active_others req.status o.0),
)
