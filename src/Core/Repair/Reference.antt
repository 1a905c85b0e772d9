-- ===== src/Core/Repair/Reference.antt =====
-- packages/core/src/repair.ts: `localReference`.
use managed_tool_call_schema.Base.{
  Text, ◌==◌, nat_eq, text_eq, Option, none, some, List, [], ◌∷◌, map, if◌then◌else◌,
}
use managed_tool_call_schema.Json.{Json, obj, bool, get}
use managed_tool_call_schema.Core.Pointer.{unescape}
use managed_tool_call_schema.Core.Policy.HasPath.{split_slash}

-- The walk along the parts. A part that only a prototype has leads to a function, which is refused,
-- or to `Object.prototype`, which is a schema that repairs nothing: both are `none` here.
unfoldable pub descend : Json → List Text → Option Json
descend current [] = some current
descend (obj fs) (part ∷ parts) = elim (get part fs) [ none ↦ none | some v ↦ descend v parts ]
descend current (part ∷ parts) = none

schema_only : Option Json → Option Json
schema_only (some (bool b)) = some (bool b)
schema_only (some (obj fs)) = some (obj fs)
schema_only other = none

reference_from : Json → Text → Option Json
unfolding descend schema_only
reference_from root [] = some root
reference_from root (c ∷ pointer) =
    if c == 47 then schema_only (descend root (map unescape (split_slash pointer))) else none

unfoldable pub local_reference : Json → Text → Option Json
unfolding reference_from
local_reference root [] = none
local_reference root (c ∷ reference) = if c == 35 then reference_from root reference else none
