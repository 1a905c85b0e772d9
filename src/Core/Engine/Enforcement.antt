-- ===== src/Core/Engine/Enforcement.antt =====
-- packages/core/src/engine.ts: what an accepted call has been through.
use managed_tool_call_schema.Base.{
  Text, length, ◌≤◌, ◌≡◌, ◌≢◌, refl, nat_eq, text_eq, ◌⊎◌, inl, inr, true, Bool-cases, Option, none,
  some, get_or, ◌==◌, text_beq_iff, [], ◌∷◌, arith,
}
use managed_tool_call_schema.Json.{Json, null, bool, num, str, arr, obj, end}
use managed_tool_call_schema.Json.Host.{Host}
use managed_tool_call_schema.Core.Result.{Result, ok, throw}
use managed_tool_call_schema.Core.Types.{protocol_version, GuardDecision, accept, AcceptedDecision}
use managed_tool_call_schema.Core.Policy.Check.{policy_validation_error, read_policy}
use managed_tool_call_schema.Core.Engine.Input.{
  Call, Ajv, Validator, Request, CheckedRequest, parse_arguments, prepare_schema,
}
use managed_tool_call_schema.Core.Engine.Reject.{reject}
use managed_tool_call_schema.Core.Engine.{
  fail_closed, with_schema, with_arguments, with_version, with_policy, with_values, with_request,
  incomplete, name_of, name_fits, validate_tool_call,
}
use managed_tool_call_schema.Core.Engine.Enforced.{reject_refuses, IsEnforced, enforce_enforced}

no_text : (t : Text) → (length t == 0) ≡ true → t ≡ []
no_text [] e = refl
no_text (c ∷ t) e = ground arith

module _ (h : Host) where
  -- The checks that an accepted call has passed: its name, its policy, its protocol version, its
  -- arguments and its schema, and what the compiled schema and the policy enforced.
  pub record IsChecked (ajv : Ajv) (c : Call) (q : Request) (d : AcceptedDecision) : Type 0 where
    pub checked : CheckedRequest
    pub name : q.tool_name ≡ some (str checked.tool_name)
    pub name_size : (1 ≤ length checked.tool_name) × (length checked.tool_name ≤ 256)
    pub schema : q.tool_schema ≡ some checked.tool_schema
    pub raw : Json
    pub given : q.raw_arguments ≡ some raw
    pub policy_fits : policy_validation_error q.policy ≡ none
    pub policy : checked.policy ≡ read_policy q.policy
    pub version_fits :
        (get_or q.protocol_version [] ≡ []) ⊎ (get_or q.protocol_version [] ≡ protocol_version)
    pub parsed : parse_arguments h raw ≡ ok checked.args
    pub validate : Validator
    pub compiled : prepare_schema h ajv checked.tool_schema ≡ ok validate
    pub enforced : IsEnforced h c checked validate d

  module _ (ajv : Ajv) (c : Call) (d : AcceptedDecision) where
    fail_closed_accepts :
        (r : CheckedRequest) (o : Result GuardDecision)
        → fail_closed h ajv c r o ≡ accept d
        → o ≡ ok (accept d)
    unfolding fail_closed
    fail_closed_accepts r (ok x) e = cc e
    fail_closed_accepts r (throw x) e = absurd (reject_refuses h c _ d e)

    schema_accepts :
        (r : CheckedRequest) (o : Result Validator)
        → with_schema h ajv c r o ≡ accept d
        → (v : Validator) × (o ≡ ok v) × IsEnforced h c r v d
    unfolding with_schema
    schema_accepts r (ok v) e = (v, refl, enforce_enforced h c r v d (fail_closed_accepts r _ e))
    schema_accepts r (throw x) e = absurd (reject_refuses h c _ d e)

    arguments_accepts :
        (r : CheckedRequest) (raw : Json) (o : Result Json)
        → with_arguments h ajv c r raw o ≡ accept d
        → (args : Json) × (o ≡ ok args)
          × (with_schema h ajv c (record r { args = args }) (prepare_schema h ajv r.tool_schema)
              ≡ accept d)
    unfolding with_arguments
    arguments_accepts r raw (ok args) e = (args, refl, e)
    arguments_accepts r raw (throw x) e = absurd (reject_refuses h c _ d e)

    version_accepts :
        (r : CheckedRequest) (raw : Json) (v : Option Text)
        → with_version h ajv c r raw v ≡ accept d
        → ((get_or v [] ≡ []) ⊎ (get_or v [] ≡ protocol_version))
          × (with_arguments h ajv c r raw (parse_arguments h raw) ≡ accept d)
    unfolding with_version reject
    version_accepts r raw v e = elim (Bool-cases (length (get_or v []) == 0)) [
      | inl missing ↦ (inl (no_text (get_or v []) missing), rw missing at e)
      | inr given ↦ elim (Bool-cases (get_or v [] == protocol_version)) [
        | inl known ↦
            (inr ((text_beq_iff (get_or v []) protocol_version).0 known), rw (given, known) at e)
        | inr other ↦ cc (rw (given, other) at e)
      ]
    ]

    policy_accepts :
        (r : CheckedRequest) (raw : Json) (q : Request) (o : Option Text)
        → with_policy h ajv c r raw q o ≡ accept d
        → (o ≡ none)
          × (with_version h ajv c
                (record r { policy = read_policy q.policy })
                raw
                q.protocol_version
              ≡ accept d)
    unfolding with_policy
    policy_accepts r raw q none e = (refl, e)
    policy_accepts r raw q (some x) e = absurd (reject_refuses h c _ d e)

    incomplete_refuses : (q : Request) → incomplete h ajv c q ≢ accept d
    unfolding incomplete
    incomplete_refuses q = reject_refuses h c _ d

    values-IsChecked :
        (q : Request) (name : Text) (schema raw : Json)
        → q.tool_name ≡ some (str name)
        → (1 ≤ length name) × (length name ≤ 256)
        → q.tool_schema ≡ some schema
        → q.raw_arguments ≡ some raw
        → with_values h ajv c name schema raw q ≡ accept d
        → IsChecked ajv c q d
    unfolding with_values
    values-IsChecked q name schema raw named size given_schema given e =
        let r0 : CheckedRequest = record {
          tool_name = name;
          tool_schema = schema;
          args = obj end;
          policy = none;
        } in
        let (fits, e1) = policy_accepts r0 raw q (policy_validation_error q.policy) e in
        let r1 : CheckedRequest = record r0 { policy = read_policy q.policy } in
        let (version, e1') = version_accepts r1 raw q.protocol_version e1 in
        let (args, parsed, e2) = arguments_accepts r1 raw (parse_arguments h raw) e1' in
        let r2 : CheckedRequest = record r1 { args = args } in
        let (validate, compiled, enforced) = schema_accepts r2 (prepare_schema h ajv schema) e2 in
        record {
          checked = r2;
          name = named;
          name_size = size;
          schema = given_schema;
          raw = raw;
          given = given;
          policy_fits = fits;
          version_fits = version;
          policy = refl;
          parsed = parsed;
          validate = validate;
          compiled = compiled;
          enforced = enforced;
        }

    named : (o : Option Json) (name : Text) → name_of h ajv c o ≡ some name → o ≡ some (str name)
    unfolding name_of
    named none name e = cc
    named (some null) name e = cc
    named (some (bool b)) name e = cc
    named (some (num n)) name e = cc
    named (some (str s)) name e = ground arith
    named (some (arr vs)) name e = cc
    named (some (obj fs)) name e = cc

    request-IsChecked :
        (q : Request) (name : Option Text) (schema raw : Option Json)
        → name_of h ajv c q.tool_name ≡ name
        → q.tool_schema ≡ schema
        → q.raw_arguments ≡ raw
        → with_request h ajv c q name schema raw ≡ accept d
        → IsChecked ajv c q d
    unfolding with_request
    request-IsChecked q (some name) (some schema) (some raw) n s g e =
        elim (Bool-cases (name_fits h ajv c name)) [
          | inl fits ↦
              values-IsChecked q name schema raw (named q.tool_name name n)
                (unfold name_fits in (ground arith, ground arith)) s g (rw fits at e)
          | inr unfit ↦ absurd (incomplete_refuses q (rw unfit at e))
        ]
    request-IsChecked q none schema raw n s g e = absurd (incomplete_refuses q e)
    request-IsChecked q (some name) none raw n s g e = absurd (incomplete_refuses q e)
    request-IsChecked q (some name) (some schema) none n s g e = absurd (incomplete_refuses q e)

    -- An accepted call had a name within bounds, a policy that fits, no protocol version or the
    -- one that is supported, arguments that parsed, a schema that compiled, and arguments, repaired
    -- or not, that its validator and its policy accept.
    pub accepted-IsChecked :
        (q : Request) → validate_tool_call h ajv c (some q) ≡ accept d → IsChecked ajv c q d
    unfolding validate_tool_call
    accepted-IsChecked q e = request-IsChecked q _ q.tool_schema q.raw_arguments refl refl refl e
