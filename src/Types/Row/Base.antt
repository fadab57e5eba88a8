-- ===== src/Types/Row/Base.antt =====
-- What `base_resource` of src/resource_types/registry.py makes of a row.
use claude_azure_o11y.Prelude.{◌≡◌, refl, subst, String, ok, >>=-eq-ok, arith}
use claude_azure_o11y.Prelude.Dict.{Dict}
use claude_azure_o11y.Float.{Float}
use claude_azure_o11y.Models.{Resource, Value}
use claude_azure_o11y.Types.Row.{Row, base_resource, required, parse_tags}

module _ {F : Type 0} ⦃fl : Float F⦄ where
  -- The resource has the kind, and the identity and the tags of the row.
  abbrev pub IsIdentity : Row F → String → Resource F → Type 0
  IsIdentity row kind r =
      (r.kind ≡ kind)
      × (required row "id" ≡ ok r.id)
      × (required row "name" ≡ ok r.name)
      × (required row "subscriptionId" ≡ ok r.subscription_id)
      × (required row "resourceGroup" ≡ ok r.resource_group)
      × (required row "location" ≡ ok r.location)
      × (parse_tags row ≡ ok r.tags)

  -- What the type gave the resource, and its identity.
  base_resource-cases :
      (row : Row F) (kind arm_type sku : String) (props : Dict String (Value F)) (r : Resource F)
      → base_resource row kind arm_type sku props ≡ ok r
      → (r.props ≡ props) × IsIdentity row kind r
  unfolding base_resource
  base_resource-cases row kind arm_type sku props r h =
      let (id, e1, h1) = >>=-eq-ok (required row "id") _ h in
      let (name, e2, h2) = >>=-eq-ok (required row "name") _ h1 in
      let (sub, e3, h3) = >>=-eq-ok (required row "subscriptionId") _ h2 in
      let (group, e4, h4) = >>=-eq-ok (required row "resourceGroup") _ h3 in
      let (location, e5, h5) = >>=-eq-ok (required row "location") _ h4 in
      let (tags, e6, h6) = >>=-eq-ok (parse_tags row) _ h5 in
      let same : record {
        kind = kind;
        id = id;
        name = name;
        arm_type = arm_type;
        subscription_id = sub;
        resource_group = group;
        location = location;
        sku = sku;
        tags = tags;
        props = props;
      }
          ≡ r =
        ground arith in
      subst (λ s. (s.props ≡ props) × IsIdentity row kind s) same
        (refl, (refl, e1, e2, e3, e4, e5, e6))

  pub base_resource-IsIdentity :
      (row : Row F) (kind arm_type sku : String) (props : Dict String (Value F)) (r : Resource F)
      → base_resource row kind arm_type sku props ≡ ok r
      → IsIdentity row kind r
  base_resource-IsIdentity row kind arm_type sku props r h =
      (base_resource-cases row kind arm_type sku props r h).1

  pub base_resource-props :
      (row : Row F) (kind arm_type sku : String) (props : Dict String (Value F)) (r : Resource F)
      → base_resource row kind arm_type sku props ≡ ok r
      → r.props ≡ props
  base_resource-props row kind arm_type sku props r h =
      (base_resource-cases row kind arm_type sku props r h).0
