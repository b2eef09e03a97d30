-- ===== src/Features.antt =====
-- The catalogue of features and what a stored choice of them means: util/features.go.
pub mod Chosen
mod Tests
use revoked.Prelude.{
  String, Bool, true, false, not, ◌&&◌, ◌||◌, Option, none, some, List, [], ◌∷◌, ◌++◌, ◌==◌,
  contains, keep, map, if◌then◌else◌,
}
use revoked.Permissions.Catalogue.{
  perm_attestations_read, perm_contacts_manage, perm_contacts_read, perm_identities_read,
  perm_members_read, perm_requests_manage, perm_requests_read, perm_responses_manage,
  perm_responses_read, perm_shares_manage, perm_shares_read, perm_templates_manage,
  perm_templates_read, perm_vault_read, perm_vault_write,
}

-- `Feature`; a feature without a permission has the empty one.
pub record Feature : Type 0 where
  pub key : String
  pub label : String
  pub description : String
  pub permission : String
  pub default_on : Bool

abbrev pub feature_sharing : String
feature_sharing = "sharing"

abbrev pub feature_requests : String
feature_requests = "requests"

abbrev pub feature_attestations : String
feature_attestations = "attestations"

abbrev pub feature_contacts : String
feature_contacts = "contacts"

abbrev pub feature_tools : String
feature_tools = "tools"

abbrev pub feature_developer : String
feature_developer = "developer"

-- `Features`
unfoldable pub features : List Feature
features =
    record {
      key = feature_sharing;
      label = "Sharing";
      description = "Share links to your records, and see who can read what.";
      permission = perm_shares_read;
      default_on = true;
    }
    ∷ record {
      key = feature_requests;
      label = "Requests";
      description = "Ask people for information and read their answers.";
      permission = perm_requests_read;
      default_on = true;
    }
    ∷ record {
      key = feature_attestations;
      label = "Identities and attestations";
      description = "Prove it’s really you, and keep what others confirm about you.";
      permission = perm_attestations_read;
      default_on = true;
    }
    ∷ record {
      key = feature_contacts;
      label = "Contacts";
      description = "Keep the people you send to and ask from.";
      permission = perm_contacts_read;
      default_on = true;
    }
    ∷ record {
      key = feature_tools;
      label = "Connected tools";
      description = "Let other apps and services use your records, and sign in with Revoked.";
      permission = "";
      default_on = true;
    }
    ∷ record {
      key = feature_developer;
      label = "Developer";
      description = "API keys, and the request behind every form.";
      permission = "";
      default_on = true;
    }
    ∷ []

-- `FeaturePreset`
pub record FeaturePreset : Type 0 where
  pub key : String
  pub label : String
  pub description : String
  pub permissions : List String
  pub features : List String

-- `FeaturePresets`
unfoldable pub feature_presets : List FeaturePreset
feature_presets =
    record {
      key = "vault";
      label = "Vault only";
      description = "Keep and edit records. Nothing is shared or asked.";
      permissions = perm_vault_read ∷ perm_vault_write ∷ [];
      features = [];
    }
    ∷ record {
      key = "vault-sharing";
      label = "Vault and sharing";
      description = "Keep records and share them with links.";
      permissions = perm_vault_read ∷ perm_vault_write ∷ perm_shares_read ∷ perm_shares_manage ∷ [];
      features = feature_sharing ∷ [];
    }
    ∷ record {
      key = "everything";
      label = "Everything";
      description = "Every part of the workspace, without the sensitive permissions.";
      permissions =
          perm_vault_read ∷ perm_vault_write ∷ perm_responses_read ∷ perm_responses_manage
          ∷ perm_shares_read ∷ perm_shares_manage ∷ perm_requests_read ∷ perm_requests_manage
          ∷ perm_templates_read ∷ perm_templates_manage ∷ perm_identities_read
          ∷ perm_attestations_read ∷ perm_contacts_read ∷ perm_contacts_manage ∷ perm_members_read
          ∷ [];
      features =
          feature_sharing ∷ feature_requests ∷ feature_attestations ∷ feature_contacts
          ∷ feature_tools ∷ feature_developer ∷ [];
    }
    ∷ []

abbrev pub feature_among : List Feature → String → Option Feature
feature_among [] key = none
feature_among (f ∷ fs) key = if f.key == key then some f else feature_among fs key

-- `FeatureByKey`
unfoldable pub feature_by_key : String → Option Feature
unfolding features
feature_by_key = feature_among features

-- `AllFeatureKeys`
unfoldable pub all_feature_keys : List String
unfolding features
all_feature_keys = map (λ f. f.key) features

-- `DefaultFeatureKeys`
unfoldable pub default_feature_keys : List String
unfolding features
default_feature_keys = map (λ f. f.key) (keep (λ f. f.default_on) features)

-- The first loop of `NormalizeFeatures`.
abbrev pub chosen_among : List Feature → List String → List String
chosen_among [] keys = []
chosen_among (f ∷ fs) keys =
    let rest = chosen_among fs keys in if contains keys f.key then f.key ∷ rest else rest

abbrev pub is_known : List Feature → String → Bool
is_known fs key = elim (feature_among fs key) [ none ↦ false | some _ ↦ true ]

-- The second loop.
abbrev pub unknown_among : List Feature → List String → List String → List String
unknown_among fs out [] = out
unknown_among fs out (k ∷ ks) =
    let longer = unknown_among fs (out ++ k ∷ []) ks in
    if not (is_known fs k) && not (contains out k) then longer else unknown_among fs out ks

-- `NormalizeFeatures`: the known keys in the order of the catalogue, and the unknown ones.
unfoldable pub normalize_features : List String → List String × List String
normalize_features keys = (chosen_among features keys, unknown_among features [] keys)

-- `StoredFeatures` of what a field holds, once it is parsed: nothing where it is empty, null or no
-- list of texts.
unfoldable pub stored_features : Option (List String) → Option (List String)
unfolding normalize_features
stored_features none = none
stored_features (some keys) = some (normalize_features keys).0
