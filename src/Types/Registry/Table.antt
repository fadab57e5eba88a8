-- ===== src/Types/Registry/Table.antt =====
-- `TYPES` of src/resource_types/__init__.py.
use claude_azure_o11y.Prelude.{List, [], ◌∷◌, string_eq}
use claude_azure_o11y.Float.{Float}
use claude_azure_o11y.Types.Registry.{TypeModule}
use claude_azure_o11y.Types.Registry.Machines.{
  vm_spec, aks_spec, plan_spec, postgres_spec, sqldb_spec, sqlpool_spec, sqlmi_spec,
}
use claude_azure_o11y.Types.Registry.Services.{
  cosmos_spec, eventhub_spec, vnet_spec, redis_spec, servicebus_spec, appgateway_spec, storage_spec,
}

module _ {F : Type 0} ⦃fl : Float F⦄ where
  -- `TYPES`
  abbrev pub type_modules : List (TypeModule F)
  type_modules =
      vm_spec ∷ sqldb_spec ∷ sqlpool_spec ∷ sqlmi_spec ∷ postgres_spec ∷ cosmos_spec ∷ eventhub_spec
      ∷ vnet_spec ∷ plan_spec ∷ aks_spec ∷ redis_spec ∷ servicebus_spec ∷ appgateway_spec
      ∷ storage_spec ∷ []
