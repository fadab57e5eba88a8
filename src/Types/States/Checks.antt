-- ===== src/Types/States/Checks.antt =====
-- The `active` checks of src/resource_types on the resources that the parsers make.
use claude_azure_o11y.Prelude.{
  ◌≡◌, refl, List, [], ◌∷◌, ok, >>=-eq-ok, All, All-Among, Among, map_result, string_eq,
}
use claude_azure_o11y.Prelude.Dict
use claude_azure_o11y.Prelude.Dict.{Dict}
use claude_azure_o11y.Float.{Float}
use claude_azure_o11y.Models.{Resource}
use claude_azure_o11y.Types.Row.{Row, cell, count_column, text_column}
use claude_azure_o11y.Types.Compute.{
  parse_vm, parse_postgres, parse_aks, parse_plan, profiles_of, parse_pool, vm_active,
  postgres_active, aks_active, plan_active,
}
use claude_azure_o11y.Types.Sql.{
  parse_sqldb, parse_sqlpool, parse_sqlmi, sqldb_active, sqlpool_active, sqlmi_active,
}
use claude_azure_o11y.Types.Data.{parse_redis, parse_storage, redis_active, storage_active}
use claude_azure_o11y.Types.Capacity.{
  parse_servicebus, parse_appgateway, servicebus_active, appgateway_active,
}
use claude_azure_o11y.Types.States.{StateCheck, state_skip, require_state-base, ByState}

module _ {F : Type 0} ⦃fl : Float F⦄ where
  abbrev pub vm_state : StateCheck F
  vm_state = record {
    parse = parse_vm;
    active = vm_active;
    column = "powerState";
    expected = "powerstate/running";
    reason = "not_running";
  }

  vm-ByState : ByState vm_state
  unfolding parse_vm vm_active Dict.lookup
  vm-ByState row r h =
      require_state-base row _ _ _ _ r "power_state" (text_column row "powerState")
        "powerstate/running" "not_running" refl h

  abbrev sqldb_state : StateCheck F
  sqldb_state = record {
    parse = parse_sqldb;
    active = sqldb_active;
    column = "status";
    expected = "online";
    reason = "not_online";
  }

  sqldb-ByState : ByState sqldb_state
  unfolding parse_sqldb sqldb_active Dict.lookup
  sqldb-ByState row r h =
      let (a0, e0, h1) = >>=-eq-ok (count_column row "capacity") _ h in
      require_state-base row _ _ _ _ r "status" (text_column row "status") "online" "not_online"
        refl h1

  abbrev sqlpool_state : StateCheck F
  sqlpool_state = record {
    parse = parse_sqlpool;
    active = sqlpool_active;
    column = "state";
    expected = "ready";
    reason = "not_ready";
  }

  sqlpool-ByState : ByState sqlpool_state
  unfolding parse_sqlpool sqlpool_active Dict.lookup
  sqlpool-ByState row r h =
      let (a0, e0, h1) = >>=-eq-ok (count_column row "capacity") _ h in
      require_state-base row _ _ _ _ r "state" (text_column row "state") "ready" "not_ready" refl h1

  abbrev sqlmi_state : StateCheck F
  sqlmi_state = record {
    parse = parse_sqlmi;
    active = sqlmi_active;
    column = "state";
    expected = "ready";
    reason = "not_ready";
  }

  sqlmi-ByState : ByState sqlmi_state
  unfolding parse_sqlmi sqlmi_active Dict.lookup
  sqlmi-ByState row r h =
      let (a0, e0, h1) = >>=-eq-ok (count_column row "vcores") _ h in
      let (a1, e1, h2) = >>=-eq-ok (count_column row "storageGb") _ h1 in
      require_state-base row _ _ _ _ r "state" (text_column row "state") "ready" "not_ready" refl h2

  abbrev postgres_state : StateCheck F
  postgres_state = record {
    parse = parse_postgres;
    active = postgres_active;
    column = "state";
    expected = "ready";
    reason = "not_ready";
  }

  postgres-ByState : ByState postgres_state
  unfolding parse_postgres postgres_active Dict.lookup
  postgres-ByState row r h =
      require_state-base row _ _ _ _ r "state" (text_column row "state") "ready" "not_ready" refl h

  abbrev plan_state : StateCheck F
  plan_state = record {
    parse = parse_plan;
    active = plan_active;
    column = "status";
    expected = "Ready";
    reason = "not_ready";
  }

  plan-ByState : ByState plan_state
  unfolding parse_plan plan_active Dict.lookup
  plan-ByState row r h =
      let (a0, e0, h1) = >>=-eq-ok (count_column row "capacity") _ h in
      let (a1, e1, h2) = >>=-eq-ok (count_column row "sites") _ h1 in
      require_state-base row _ _ _ _ r "status" (text_column row "status") "Ready" "not_ready" refl
        h2

  abbrev aks_state : StateCheck F
  aks_state = record {
    parse = parse_aks;
    active = aks_active;
    column = "powerState";
    expected = "Running";
    reason = "not_running";
  }

  aks-ByState : ByState aks_state
  unfolding parse_aks aks_active Dict.lookup
  aks-ByState row r h =
      let (profiles, e0, h1) = >>=-eq-ok (profiles_of (cell row "pools")) _ h in
      let (a1, e1, h2) = >>=-eq-ok (map_result parse_pool profiles) _ h1 in
      require_state-base row _ _ _ _ r "power_state" (text_column row "powerState") "Running"
        "not_running" refl h2

  abbrev redis_state : StateCheck F
  redis_state = record {
    parse = parse_redis;
    active = redis_active;
    column = "state";
    expected = "Succeeded";
    reason = "not_ready";
  }

  redis-ByState : ByState redis_state
  unfolding parse_redis redis_active Dict.lookup
  redis-ByState row r h =
      let (a0, e0, h1) = >>=-eq-ok (count_column row "capacity") _ h in
      let (a1, e1, h2) = >>=-eq-ok (count_column row "shards") _ h1 in
      require_state-base row _ _ _ _ r "state" (text_column row "state") "Succeeded" "not_ready"
        refl h2

  abbrev servicebus_state : StateCheck F
  servicebus_state = record {
    parse = parse_servicebus;
    active = servicebus_active;
    column = "status";
    expected = "active";
    reason = "not_active";
  }

  servicebus-ByState : ByState servicebus_state
  unfolding parse_servicebus servicebus_active Dict.lookup
  servicebus-ByState row r h =
      let (a0, e0, h1) = >>=-eq-ok (count_column row "capacity") _ h in
      let (a1, e1, h2) = >>=-eq-ok (count_column row "partitions") _ h1 in
      require_state-base row _ _ _ _ r "status" (text_column row "status") "active" "not_active"
        refl h2

  abbrev appgateway_state : StateCheck F
  appgateway_state = record {
    parse = parse_appgateway;
    active = appgateway_active;
    column = "state";
    expected = "Running";
    reason = "not_running";
  }

  appgateway-ByState : ByState appgateway_state
  unfolding parse_appgateway appgateway_active Dict.lookup
  appgateway-ByState row r h =
      let (a0, e0, h1) = >>=-eq-ok (count_column row "capacity") _ h in
      let (a1, e1, h2) = >>=-eq-ok (count_column row "minCapacity") _ h1 in
      let (a2, e2, h3) = >>=-eq-ok (count_column row "maxCapacity") _ h2 in
      require_state-base row _ _ _ _ r "state" (text_column row "state") "Running" "not_running"
        refl h3

  abbrev storage_state : StateCheck F
  storage_state = record {
    parse = parse_storage;
    active = storage_active;
    column = "state";
    expected = "Succeeded";
    reason = "not_ready";
  }

  storage-ByState : ByState storage_state
  unfolding parse_storage storage_active Dict.lookup
  storage-ByState row r h =
      require_state-base row _ _ _ _ r "state" (text_column row "state") "Succeeded" "not_ready"
        refl h

  -- The types with an `active` check.
  abbrev pub state_checks : List (StateCheck F)
  state_checks =
      vm_state ∷ sqldb_state ∷ sqlpool_state ∷ sqlmi_state ∷ postgres_state ∷ plan_state ∷ aks_state
      ∷ redis_state ∷ servicebus_state ∷ appgateway_state ∷ storage_state ∷ []

  state_checks-ByState : All ByState state_checks
  state_checks-ByState = (
    vm-ByState,
    (
      sqldb-ByState,
      (
        sqlpool-ByState,
        (
          sqlmi-ByState,
          (
            postgres-ByState,
            (
              plan-ByState,
              (
                aks-ByState,
                (redis-ByState, (servicebus-ByState, (appgateway-ByState, (storage-ByState, tt)))),
              ),
            ),
          ),
        ),
      ),
    ),
  )

  -- A resource that was parsed from a row, of any type with an `active` check, is active exactly when
  -- the state column of its row is the expected state, without case; otherwise it is skipped for the
  -- type's reason, with the state as the row has it, or `unknown` when the row has none.
  pub active-state_skip :
      (t : StateCheck F) (row : Row F) (r : Resource F)
      → Among t state_checks
      → t.parse row ≡ ok r
      → t.active r ≡ state_skip r.id (text_column row t.column) t.expected t.reason
  active-state_skip t row r among =
      All-Among ByState state_checks t state_checks-ByState among row r
