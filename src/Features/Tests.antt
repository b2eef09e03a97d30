-- ===== src/Features/Tests.antt =====
-- A choice of features with one that is unknown.
use revoked.Prelude.{◌≡◌, refl, String, List, [], ◌∷◌}
use revoked.Features.{features, normalize_features, feature_sharing, feature_tools}

abbrev chosen : List String
chosen = "tools" ∷ "games" ∷ "sharing" ∷ "games" ∷ []

normalized : normalize_features chosen ≡ (feature_sharing ∷ feature_tools ∷ [], "games" ∷ [])
unfolding normalize_features features
normalized = refl
