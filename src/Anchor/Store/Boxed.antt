-- ===== src/Anchor/Store/Boxed.antt =====
-- packages/anchor-receiver/src/store.ts: what an array in the place of an identifier does to the log.
use managed_tool_call_schema.Base.{text_eq}
use managed_tool_call_schema.Json.Host.{Host}
