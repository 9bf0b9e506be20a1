-- ===== src/Common.antt =====
-- pkg/common: the slice helpers, and the constants of common.go that the other parts use.
pub mod Slice
use anck.Prelude.{String}

abbrev pub anck_namespace : String
anck_namespace = "anck"

-- `NatsDeniedExportTopics`
abbrev pub nats_denied_export_topics : String
nats_denied_export_topics = "local.>"
