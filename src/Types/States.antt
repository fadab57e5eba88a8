-- ===== src/Types/States.antt =====
-- Which resources the parsers and the `active` checks of src/resource_types leave to a run.
pub mod Checks
use claude_azure_o11y.Prelude.{
  ◌≡◌, refl, ◌∙◌, ap, Option, none, some, String, List, [], ◌∷◌, Result, ok, >>=-eq-ok, All,
  All-Among, Among, map_result, ◌==◌, string_eq, if◌then◌else◌,
}
use claude_azure_o11y.Prelude.Text.{lower, or_text}
use claude_azure_o11y.Prelude.Dict
use claude_azure_o11y.Prelude.Dict.{Dict}
use claude_azure_o11y.Float.{Float}
use claude_azure_o11y.Models.{Resource, Skip, Value, text}
use claude_azure_o11y.Models.Props.{prop, str_of}
use claude_azure_o11y.Types.Row.{Row, cell, base_resource, count_column, text_column, require_state}
use claude_azure_o11y.Types.Row.Base.{base_resource-props}
use claude_azure_o11y.Types.Compute.{
  parse_vm, parse_postgres, parse_aks, parse_plan, profiles_of, parse_pool, vm_active,
  postgres_active, aks_active, plan_active,
}
use claude_azure_o11y.Types.Sql.{
  parse_sqldb, parse_sqlpool, parse_sqlmi, sqldb_active, sqlpool_active, sqlmi_active,
}
use claude_azure_o11y.Types.Data.{parse_redis, parse_storage, redis_active, storage_active}
use claude_azure_o11y.Types.Capacity.{
  parse_servicebus, parse_appgateway, servicebus_active, appgateway_active,
}

-- A type that drops resources by their state: the column of the state, the state of an active
-- resource, and the reason of the skip.
pub record StateCheck (F : Type 0) : Type 0 where
  pub parse : Row F → Result (Resource F)
  pub active : Resource F → Option Skip
  pub column : String
  pub expected : String
  pub reason : String

-- The answer for a state.
abbrev pub state_skip : (id state expected reason : String) → Option Skip
state_skip id state expected reason =
    if lower state == lower expected
    then none
    else some (record { resource_id = id; reason = reason; detail = or_text state "unknown" })

module _ {F : Type 0} ⦃fl : Float F⦄ where
  pub require_state-base :
      (row : Row F) (kind arm_type sku : String) (props : Dict String (Value F)) (r : Resource F)
      (name state expected reason : String)
      → Dict.lookup name props ≡ some (text state)
      → base_resource row kind arm_type sku props ≡ ok r
      → require_state name expected reason r ≡ state_skip r.id state expected reason
  unfolding require_state prop str_of
  require_state-base row kind arm_type sku props r name state expected reason held h =
      let same = base_resource-props row kind arm_type sku props r h in
      ap (λ o. state_skip r.id (str_of (elim o [ none ↦ text "" | some v ↦ v ])) expected reason)
        (ap (Dict.lookup name) same ∙ held)

  -- The check of a parsed resource goes by the state column of the row.
  abbrev pub ByState : StateCheck F → Type 0
  ByState t =
      (row : Row F) (r : Resource F)
      → t.parse row ≡ ok r
      → t.active r ≡ state_skip r.id (text_column row t.column) t.expected t.reason
