-- ===== src/Cluster/Paths/Build.antt =====
-- The builder methods of `ResourceRef` (src/cluster/paths.rs).
use kubevirt_webgui.Base.{none, some, Str}
use kubevirt_webgui.Cluster.Paths.{ResourceRef}

unfoldable pub new : Str → Str → ResourceRef
new api_version resource = record {
  api_version = api_version;
  resource = resource;
  namespace = none;
  name = none;
  subresource = none;
}

unfoldable pub ns : ResourceRef → Str → ResourceRef
ns r namespace = record r { namespace = some namespace }

unfoldable pub named : ResourceRef → Str → ResourceRef
named r name = record r { name = some name }

unfoldable pub subresource : ResourceRef → Str → ResourceRef
subresource r s = record r { subresource = some s }
