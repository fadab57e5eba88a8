-- ===== src/Types/Registry/Identity.antt =====
-- What every parser of src/resource_types keeps of a row.
use claude_azure_o11y.Prelude.{◌≡◌, ok, >>=-eq-ok, All, All-Among, Among, map_result}
use claude_azure_o11y.Float.{Float}
use claude_azure_o11y.Models.{Resource}
use claude_azure_o11y.Types.Row.{Row, cell, required, count_column}
use claude_azure_o11y.Types.Compute.{
  parse_vm, parse_postgres, parse_aks, parse_plan, profiles_of, parse_pool,
}
use claude_azure_o11y.Types.Sql.{parse_sqldb, parse_sqlpool, parse_sqlmi}
use claude_azure_o11y.Types.Data.{parse_cosmos, parse_redis, parse_storage}
use claude_azure_o11y.Types.Capacity.{parse_eventhub, parse_servicebus, parse_appgateway}
use claude_azure_o11y.Types.Subnets.{parse_vnet, prefixes_of, usable_ips}
use claude_azure_o11y.Types.Row.Base.{IsIdentity, base_resource-IsIdentity}
use claude_azure_o11y.Types.Registry.{TypeModule}
use claude_azure_o11y.Types.Registry.Table.{type_modules}

module _ {F : Type 0} ⦃fl : Float F⦄ where
  vm-IsIdentity : (row : Row F) (r : Resource F) → parse_vm row ≡ ok r → IsIdentity row "vm" r
  unfolding parse_vm
  vm-IsIdentity row r h = base_resource-IsIdentity row _ _ _ _ r h

  sqldb-IsIdentity :
      (row : Row F) (r : Resource F) → parse_sqldb row ≡ ok r → IsIdentity row "sqldb" r
  unfolding parse_sqldb
  sqldb-IsIdentity row r h =
      let (a0, e0, h1) = >>=-eq-ok (count_column row "capacity") _ h in
      base_resource-IsIdentity row _ _ _ _ r h1

  sqlpool-IsIdentity :
      (row : Row F) (r : Resource F) → parse_sqlpool row ≡ ok r → IsIdentity row "sqlpool" r
  unfolding parse_sqlpool
  sqlpool-IsIdentity row r h =
      let (a0, e0, h1) = >>=-eq-ok (count_column row "capacity") _ h in
      base_resource-IsIdentity row _ _ _ _ r h1

  sqlmi-IsIdentity :
      (row : Row F) (r : Resource F) → parse_sqlmi row ≡ ok r → IsIdentity row "sqlmi" r
  unfolding parse_sqlmi
  sqlmi-IsIdentity row r h =
      let (a0, e0, h1) = >>=-eq-ok (count_column row "vcores") _ h in
      let (a1, e1, h2) = >>=-eq-ok (count_column row "storageGb") _ h1 in
      base_resource-IsIdentity row _ _ _ _ r h2

  postgres-IsIdentity :
      (row : Row F) (r : Resource F) → parse_postgres row ≡ ok r → IsIdentity row "postgres" r
  unfolding parse_postgres
  postgres-IsIdentity row r h = base_resource-IsIdentity row _ _ _ _ r h

  cosmos-IsIdentity :
      (row : Row F) (r : Resource F) → parse_cosmos row ≡ ok r → IsIdentity row "cosmos" r
  unfolding parse_cosmos
  cosmos-IsIdentity row r h = base_resource-IsIdentity row _ _ _ _ r h

  eventhub-IsIdentity :
      (row : Row F) (r : Resource F) → parse_eventhub row ≡ ok r → IsIdentity row "eventhub" r
  unfolding parse_eventhub
  eventhub-IsIdentity row r h =
      let (a0, e0, h1) = >>=-eq-ok (count_column row "capacity") _ h in
      let (a1, e1, h2) = >>=-eq-ok (count_column row "maxTu") _ h1 in
      base_resource-IsIdentity row _ _ _ _ r h2

  vnet-IsIdentity : (row : Row F) (r : Resource F) → parse_vnet row ≡ ok r → IsIdentity row "vnet" r
  unfolding parse_vnet
  vnet-IsIdentity row r h =
      let (a0, e0, h0) = >>=-eq-ok (prefixes_of row) _ h in
      let (u, e, h1) = >>=-eq-ok (usable_ips fl.digits a0) _ h0 in
      let (a1, e1, h2) = >>=-eq-ok (count_column row "ipUsed") _ h1 in
      let (a2, e2, h3) = >>=-eq-ok (required row "vnetId") _ h2 in
      base_resource-IsIdentity row _ _ _ _ r h3

  plan-IsIdentity :
      (row : Row F) (r : Resource F) → parse_plan row ≡ ok r → IsIdentity row "appserviceplan" r
  unfolding parse_plan
  plan-IsIdentity row r h =
      let (a0, e0, h1) = >>=-eq-ok (count_column row "capacity") _ h in
      let (a1, e1, h2) = >>=-eq-ok (count_column row "sites") _ h1 in
      base_resource-IsIdentity row _ _ _ _ r h2

  aks-IsIdentity : (row : Row F) (r : Resource F) → parse_aks row ≡ ok r → IsIdentity row "aks" r
  unfolding parse_aks
  aks-IsIdentity row r h =
      let (profiles, e0, h1) = >>=-eq-ok (profiles_of (cell row "pools")) _ h in
      let (a1, e1, h2) = >>=-eq-ok (map_result parse_pool profiles) _ h1 in
      base_resource-IsIdentity row _ _ _ _ r h2

  redis-IsIdentity :
      (row : Row F) (r : Resource F) → parse_redis row ≡ ok r → IsIdentity row "redis" r
  unfolding parse_redis
  redis-IsIdentity row r h =
      let (a0, e0, h1) = >>=-eq-ok (count_column row "capacity") _ h in
      let (a1, e1, h2) = >>=-eq-ok (count_column row "shards") _ h1 in
      base_resource-IsIdentity row _ _ _ _ r h2

  servicebus-IsIdentity :
      (row : Row F) (r : Resource F) → parse_servicebus row ≡ ok r → IsIdentity row "servicebus" r
  unfolding parse_servicebus
  servicebus-IsIdentity row r h =
      let (a0, e0, h1) = >>=-eq-ok (count_column row "capacity") _ h in
      let (a1, e1, h2) = >>=-eq-ok (count_column row "partitions") _ h1 in
      base_resource-IsIdentity row _ _ _ _ r h2

  appgateway-IsIdentity :
      (row : Row F) (r : Resource F) → parse_appgateway row ≡ ok r → IsIdentity row "appgateway" r
  unfolding parse_appgateway
  appgateway-IsIdentity row r h =
      let (a0, e0, h1) = >>=-eq-ok (count_column row "capacity") _ h in
      let (a1, e1, h2) = >>=-eq-ok (count_column row "minCapacity") _ h1 in
      let (a2, e2, h3) = >>=-eq-ok (count_column row "maxCapacity") _ h2 in
      base_resource-IsIdentity row _ _ _ _ r h3

  storage-IsIdentity :
      (row : Row F) (r : Resource F) → parse_storage row ≡ ok r → IsIdentity row "storage" r
  unfolding parse_storage
  storage-IsIdentity row r h = base_resource-IsIdentity row _ _ _ _ r h

  -- A parser whose results keep the identity of their row.
  abbrev Keeps : TypeModule F → Type 0
  Keeps t = (row : Row F) (r : Resource F) → t.parse row ≡ ok r → IsIdentity row t.spec.kind r

  type_modules-Keeps : All Keeps type_modules
  type_modules-Keeps = (
    vm-IsIdentity,
    (
      sqldb-IsIdentity,
      (
        sqlpool-IsIdentity,
        (
          sqlmi-IsIdentity,
          (
            postgres-IsIdentity,
            (
              cosmos-IsIdentity,
              (
                eventhub-IsIdentity,
                (
                  vnet-IsIdentity,
                  (
                    plan-IsIdentity,
                    (
                      aks-IsIdentity,
                      (
                        redis-IsIdentity,
                        (servicebus-IsIdentity, (appgateway-IsIdentity, (storage-IsIdentity, tt))),
                      ),
                    ),
                  ),
                ),
              ),
            ),
          ),
        ),
      ),
    ),
  )

  -- A resource that the parser of any registered type makes of a row has the kind of the type, and
  -- the identifier, name, subscription, group and location of the row, so that a row without one of
  -- these five columns is refused. Its tags are those that `parse_tags` reads from the row, which may
  -- have none.
  pub parse-IsIdentity :
      (t : TypeModule F) (row : Row F) (r : Resource F)
      → Among t type_modules
      → t.parse row ≡ ok r
      → IsIdentity row t.spec.kind r
  parse-IsIdentity t row r among = All-Among Keeps type_modules t type_modules-Keeps among row r
