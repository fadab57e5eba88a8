-- ===== src/Config/Settings.antt =====
-- `Settings` of src/config/settings.py: the fields that the run reads and its three properties.
-- Its two counts are modelled from 0 on; a negative `max_concurrency`, which `Semaphore` refuses, and a
-- negative `batch_size` are not.
use claude_azure_o11y.Prelude.{
  ℕ, Bool, not, String, List, [], ◌∷◌, map, filter, any, Result, ok, err, value_error, ◌==◌,
  string_eq, is_empty, if◌then◌else◌,
}
use claude_azure_o11y.Prelude.Text.{strip, split, is_text, join, ◌<>◌}
use claude_azure_o11y.Models.{Scope, management_group, subscriptions}

pub record Settings : Type 0 where
  pub mg_id : String
  pub subscription_ids : String
  pub resource_types : String
  pub dry_run : Bool
  pub max_concurrency : ℕ
  pub pricing_currency : String
  pub batch_size : ℕ

-- `[s.strip() for s in text.split(",") if s.strip()]`
unfoldable pub comma_list : String → List String
comma_list s = filter is_text (map strip (split b',' s))

-- `Settings.subscription_id_list`
unfoldable pub subscription_id_list : Settings → List String
subscription_id_list s = comma_list s.subscription_ids

-- `x in xs`
abbrev pub elem : String → List String → Bool
elem x xs = any (λ y. x == y) xs

-- `Settings.resource_type_list`
unfoldable pub resource_type_list : Settings → List String → Result (List String)
resource_type_list s configured =
    let wanted = comma_list s.resource_types in
    let unknown = filter (λ w. not (elem w configured)) wanted in
    if is_empty wanted
    then ok configured
    else if is_empty unknown
    then ok (filter (λ c. elem c wanted) configured)
    else err (value_error ("RESOURCE_TYPES names unconfigured types: " <> join ", " unknown))

-- `Settings.scope`
unfoldable pub scope : Settings → Scope
scope s =
    let subs = subscription_id_list s in
    if is_empty subs then management_group (s.mg_id ∷ []) else subscriptions subs
