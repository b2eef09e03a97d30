-- ===== src/Links/Tests.antt =====
-- Examples of links and readers (services/links.go).
use revoked.Prelude.{◌≡◌, ◌≢◌, refl, ◌≤◌, ◌+◌, none, some, [], ◌∷◌, true, false, arith}
use revoked.Links.{
  viewed, Link, LinkRow, Request, refresh_link_status, Failures, claim_link_view, claimed,
  status_active,
}
use revoked.Links.Claims.{
  served, served-le, claim_exact, no_failures, last_view_unnoticed, view_taken,
}

abbrev link : Link
link = record {
  status = status_active;
  expires_at = some 100;
  max_views = 2;
  view_count = 1;
  request = "r1";
  remote_domain = "";
}

abbrev stale : Link
stale = record link { view_count = 0 }

abbrev row : LinkRow
row = record { view_count = some 1; max_views = some 2; status = status_active }

abbrev req : Request
req = record { status = status_active; expires_at = none; max_responses = 1; response_count = 1 }

refused : (refresh_link_status 101 false link).error ≢ none
unfolding refresh_link_status
refused e = cc

abbrev lossy : Failures
lossy = record { update_fails = false; affected_fails = true; status_fails = true }

served-le_example : 1 + served ((no_failures, stale) ∷ (lossy, link) ∷ []) (some row) ≤ 2
served-le_example =
    served-le ((no_failures, stale) ∷ (lossy, link) ∷ []) row (omega arith) (omega arith)

claim_exact_example :
    ((claim_link_view no_failures (some row) link).answer ≡ claimed 2 true)
    × ((claim_link_view no_failures (some row) link).row ≡ some (view_taken row))
claim_exact_example = claim_exact link row (refl, refl)

last_view_unnoticed_example :
    ((claim_link_view no_failures (some row) stale).answer ≡ claimed 1 false)
    × ((claim_link_view no_failures (some row) stale).row
        ≡ some (record row { view_count = some 2 }))
    × ((claim_link_view no_failures (some row) stale).told ≡ viewed ∷ [])
last_view_unnoticed_example = last_view_unnoticed stale row (omega arith) refl
