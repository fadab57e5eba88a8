-- ===== src/Types/Data.antt =====
-- src/resource_types/cosmos.py, redis.py and storage.py.
use claude_azure_o11y.Prelude.{
  ℕ, Bool, not, ◌&&◌, ◌||◌, Option, none, some, String, [], ◌∷◌, Result, ◌>>=◌, ◌==◌, string_eq,
  if◌then◌else◌,
}
use claude_azure_o11y.Prelude.Text.{◌<>◌, lower, strip, is_text, show_nat}
use claude_azure_o11y.Float.{Float}
use claude_azure_o11y.Models.{Resource, Skip, text, nat, flag, null}
use claude_azure_o11y.Models.Props.{prop, str_of, truth}
use claude_azure_o11y.Types.Row.{
  Row, flag_column, text_column, count_column, base_resource, require_state,
}

abbrev redis_size : String → ℕ → String
redis_size family capacity = if is_text family then family <> show_nat capacity else ""

module _ {F : Type 0} ⦃fl : Float F⦄ where
  -- `cosmos.parse`
  unfoldable pub parse_cosmos : Row F → Result (Resource F)
  parse_cosmos row =
      let capacity_mode = if flag_column row "serverless" then "serverless" else "provisioned" in
      base_resource row "cosmos" "microsoft.documentdb/databaseaccounts" capacity_mode (
        ("api_kind", text (text_column row "apiKind"))
        ∷ ("capacity_mode", text capacity_mode)
        ∷ ("enable_free_tier", flag (flag_column row "freeTier"))
        ∷ [])

  -- `cosmos.finops_skip`
  unfoldable pub cosmos_finops_skip : Resource F → Option Skip
  cosmos_finops_skip r =
      if str_of (prop r "capacity_mode" (text "")) == "serverless"
      then some (record { resource_id = r.id; reason = "no_capacity_model"; detail = "serverless" })
      else none

  -- `redis.parse`
  unfoldable pub parse_redis : Row F → Result (Resource F)
  parse_redis row =
      let tier = text_column row "tier" in
      let family = text_column row "family" in
      count_column row "capacity" >>= λ capacity. count_column row "shards" >>= λ shards.
      base_resource row "redis" "microsoft.cache/redis"
        (strip (tier <> " " <> redis_size family capacity))
        (("tier", text tier)
          ∷ ("family", text family)
          ∷ ("capacity", nat capacity)
          ∷ ("size", text (redis_size family capacity))
          ∷ ("state", text (text_column row "state"))
          ∷ ("shards", nat shards)
          ∷ ("redis_version", text (text_column row "redisVersion"))
          ∷ [])

  -- `redis.active`
  unfoldable pub redis_active : Resource F → Option Skip
  redis_active = require_state "state" "Succeeded" "not_ready"

-- A Standard account of a kind with access tiers, in the Hot tier.
unfoldable pub is_tierable : (tier account_kind access_tier : String) → Bool
is_tierable tier account_kind access_tier =
    lower tier == "standard"
    && ((lower account_kind == "storagev2" || lower account_kind == "blobstorage")
        && lower access_tier == "hot")

-- Why an account has no colder tier to go to.
unfoldable pub untiered_detail : (tier account_kind access_tier : String) → String
untiered_detail tier account_kind access_tier =
    if is_text access_tier && not (lower access_tier == "hot")
    then access_tier
    else if lower tier == "premium"
    then tier
    else account_kind

module _ {F : Type 0} ⦃fl : Float F⦄ where
  -- `storage.parse`
  unfoldable pub parse_storage : Row F → Result (Resource F)
  unfolding is_tierable
  parse_storage row =
      let sku_name = text_column row "skuName" in
      let tier = text_column row "tier" in
      let account_kind = text_column row "kind" in
      let access_tier = text_column row "accessTier" in
      base_resource row "storage" "microsoft.storage/storageaccounts"
        (strip (sku_name <> " " <> access_tier))
        (("sku_name", text sku_name)
          ∷ ("tier", text tier)
          ∷ ("account_kind", text account_kind)
          ∷ ("access_tier", text access_tier)
          ∷ ("state", text (text_column row "state"))
          ∷ ("hns", flag (flag_column row "hns"))
          ∷ ("tierable", flag (is_tierable tier account_kind access_tier))
          ∷ [])

  -- `storage.active`
  unfoldable pub storage_active : Resource F → Option Skip
  storage_active = require_state "state" "Succeeded" "not_ready"

  -- `storage.finops_skip`
  unfoldable pub storage_finops_skip : Resource F → Option Skip
  unfolding untiered_detail
  storage_finops_skip r =
      let detail =
        untiered_detail (str_of (prop r "tier" (text "")))
          (str_of (prop r "account_kind" (text ""))) (str_of (prop r "access_tier" (text ""))) in
      if truth (prop r "tierable" null)
      then none
      else some (record { resource_id = r.id; reason = "not_tierable"; detail = detail })
