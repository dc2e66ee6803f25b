-- ===== src/Deploy/Names.antt =====
-- The names of the deployed resources.
use core_provider.Base.{String, str_append}
use core_provider.Schema.{NamespacedName}

-- resourceNamer(resourceName, chartVersion)
unfoldable pub resource_namer : String → String → String
resource_namer resource version = str_append resource (str_append "-" version)

abbrev with_suffix : String → NamespacedName → NamespacedName
with_suffix suffix nn = record nn { name = str_append nn.name suffix }

unfoldable pub cdc_configmap_nn : NamespacedName → NamespacedName
cdc_configmap_nn = with_suffix "-configmap"

unfoldable pub cdc_deployment_nn : NamespacedName → NamespacedName
cdc_deployment_nn = with_suffix "-controller"

unfoldable pub cdc_rbac_nn : NamespacedName → NamespacedName
cdc_rbac_nn = with_suffix "-controller"

-- nn.Name + "-jsonschema" + configmapResourceSuffix
unfoldable pub json_schema_configmap_nn : NamespacedName → NamespacedName
json_schema_configmap_nn nn = record nn {
  name = str_append (str_append nn.name "-jsonschema") "-configmap";
}

unfoldable pub service_nn : NamespacedName → NamespacedName
service_nn = with_suffix "-service"
