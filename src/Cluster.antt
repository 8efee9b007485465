-- ===== src/Cluster.antt =====
-- The Kubernetes side of the server (src/cluster): its errors, and the modules below.
pub mod Paths
pub mod Discovery
pub mod Watch
pub mod Clients
use kubevirt_webgui.Base.{Str, codes, Message, ℕ}

-- A failed call against the API server. The message is kept as its format and arguments.
pub record ApiError : Type 0 where
  pub status : ℕ
  pub reason : Str
  pub message : Message

abbrev pub bad_request : Message → ApiError
bad_request m = record { status = 400; reason = codes "BadRequest"; message = m }
