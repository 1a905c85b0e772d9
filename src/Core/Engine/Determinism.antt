-- ===== src/Core/Engine/Determinism.antt =====
-- packages/core/src/engine.ts: what the fresh identifier, the time and the
-- instances of AJV leave untouched.
use managed_tool_call_schema.Base.{
  Text, lit, ◌≡◌, refl, ap, ◌∙◌, Bool, true, false, Option, some, none, List, [], ◌∷◌,
  if◌then◌else◌,
}
use managed_tool_call_schema.Json.{Json, null, bool, num, str, arr, obj}
use managed_tool_call_schema.Json.Host.{Host}
use managed_tool_call_schema.Core.Result.{Result, ok, throw, ◌>>=◌, ◌>>◌}
use managed_tool_call_schema.Core.Types.{
  GuardDecision, status_of, PolicyResult, PolicyOutcome, RepairRecord,
}
use managed_tool_call_schema.Core.Audit.{create_audit_envelope}
use managed_tool_call_schema.Core.Policy.Check.{read_policy}
use managed_tool_call_schema.Core.Limits.{assert_json_safety, assert_safe_schema_patterns}
use managed_tool_call_schema.Core.Replay.{ReplayExpectation, expectation}
use managed_tool_call_schema.Core.Engine.Input.{
  Call, Ajv, AjvError, Validator, Request, CheckedRequest, compile_schema, prepare_schema,
}
use managed_tool_call_schema.Core.Engine.Reject.{Refusal, reject}
use managed_tool_call_schema.Core.Engine.{
  accepted, on_valid, on_repaired, after_repair, no_repair, try_repaired, on_errors, enforce,
  fail_closed, with_schema, with_arguments, with_version, with_policy, with_values, incomplete,
  with_request, validate_tool_call, name_of, name_fits,
}

-- Two states of the instances of AJV compile a schema to the same validator, or refuse it alike.
abbrev pub CompilesAlike : Ajv → Ajv → Option Json → Type 0
CompilesAlike ajv ajv' none = Unit
CompilesAlike ajv ajv' (some schema) = compile_schema ajv schema ≡ compile_schema ajv' schema

-- The schema of a request that is an object.
abbrev pub schema_of : Option Request → Option Json
schema_of none = none
schema_of (some q) = q.tool_schema

module _ (h : Host) (c c' : Call) where
  abbrev Same : GuardDecision → GuardDecision → Type 0
  Same d d' = expectation h d ≡ expectation h d'

  decided : Result GuardDecision → Result ReplayExpectation
  decided d = d >>= λ x. ok (expectation h x)

  Same-if :
      (b : Bool) (w x y z : GuardDecision)
      → Same w x
      → Same y z
      → Same (if b then w else y) (if b then x else z)
  Same-if true w x y z p q = p
  Same-if false w x y z p q = q

  reject-Same : (i : Refusal) → Same (reject h c i) (reject h c' i)
  unfolding reject expectation
  reject-Same i = refl

  module _ (r : CheckedRequest) where
    on_valid-Same : (p : PolicyResult) → Same (on_valid h c r p) (on_valid h c' r p)
    unfolding on_valid reject expectation accepted create_audit_envelope status_of
    on_valid-Same p = go p.outcome refl
      where
        go : (o : PolicyOutcome) → p.outcome ≡ o → Same (on_valid h c r p) (on_valid h c' r p)
        go PolicyOutcome.allowed e = rw e refl
        go PolicyOutcome.denied e = rw e refl

    on_repaired-Same :
        (v : Json) (rs : List RepairRecord) (p : PolicyResult)
        → Same (on_repaired h c r v rs p) (on_repaired h c' r v rs p)
    unfolding on_repaired reject expectation accepted create_audit_envelope status_of
    on_repaired-Same v rs p = go p.outcome refl
      where
        go :
            (o : PolicyOutcome)
            → p.outcome ≡ o
            → Same (on_repaired h c r v rs p) (on_repaired h c' r v rs p)
        go PolicyOutcome.allowed e = rw e refl
        go PolicyOutcome.denied e = rw e refl

    after_repair-Same :
        (v : Json) (rs : List RepairRecord) (es : List AjvError)
        → Same (after_repair h c r v rs es) (after_repair h c' r v rs es)
    unfolding after_repair
    after_repair-Same v rs [] = on_repaired-Same v rs _
    after_repair-Same v rs (e ∷ es) = reject-Same _

    after-decided :
        (v : Json) (rs : List RepairRecord) (o : Result (List AjvError))
        → decided (o >>= λ es. ok (after_repair h c r v rs es))
          ≡ decided (o >>= λ es. ok (after_repair h c' r v rs es))
    unfolding decided
    after-decided v rs (ok es) = ap ok (after_repair-Same v rs es)
    after-decided v rs (throw e) = refl

    no_repair-decided :
        (es : List AjvError)
        → decided (ok (no_repair h c r es)) ≡ decided (ok (no_repair h c' r es))
    unfolding decided no_repair
    no_repair-decided es = ap ok (reject-Same _)

    try_repaired-decided :
        (validate : Validator) (es : List AjvError) (v : Json) (rs : List RepairRecord)
        → decided (try_repaired h c r validate es v rs)
          ≡ decided (try_repaired h c' r validate es v rs)
    unfolding try_repaired
    try_repaired-decided validate es (obj fs) (x ∷ xs) =
        after-decided (obj fs) (x ∷ xs) (validate (obj fs))
    try_repaired-decided validate es (obj fs) [] = no_repair-decided es
    try_repaired-decided validate es null rs = no_repair-decided es
    try_repaired-decided validate es (bool b) rs = no_repair-decided es
    try_repaired-decided validate es (num n) rs = no_repair-decided es
    try_repaired-decided validate es (str s) rs = no_repair-decided es
    try_repaired-decided validate es (arr vs) rs = no_repair-decided es

    on_errors-decided :
        (validate : Validator) (es : List AjvError)
        → decided (on_errors h c r validate es) ≡ decided (on_errors h c' r validate es)
    unfolding on_errors decided
    on_errors-decided validate [] = ap ok (on_valid-Same _)
    on_errors-decided validate (e ∷ es) = try_repaired-decided validate (e ∷ es) _ _

    enforce-decided :
        (validate : Validator)
        → decided (enforce h c r validate) ≡ decided (enforce h c' r validate)
    unfolding enforce decided
    enforce-decided validate = go (validate r.args)
      where
        go :
            (o : Result (List AjvError))
            → decided (o >>= on_errors h c r validate) ≡ decided (o >>= on_errors h c' r validate)
        go (ok es) = on_errors-decided validate es
        go (throw e) = refl

  module _ (ajv ajv' : Ajv) where
    fail_closed-Same :
        (r : CheckedRequest) (o o' : Result GuardDecision)
        → decided o ≡ decided o'
        → Same (fail_closed h ajv c r o) (fail_closed h ajv' c' r o')
    unfolding fail_closed decided
    fail_closed-Same r (ok d) (ok d') e = cc e
    fail_closed-Same r (ok d) (throw x) e = cc e
    fail_closed-Same r (throw x) (ok d) e = cc e
    fail_closed-Same r (throw x) (throw y) e = let same : x ≡ y = cc e in rw same (reject-Same _)

    with_schema-Same :
        (r : CheckedRequest) (o : Result Validator)
        → Same (with_schema h ajv c r o) (with_schema h ajv' c' r o)
    unfolding with_schema
    with_schema-Same r (ok validate) = fail_closed-Same r _ _ (enforce-decided r validate)
    with_schema-Same r (throw e) = reject-Same _

    prepare-alike :
        (schema : Json)
        → compile_schema ajv schema ≡ compile_schema ajv' schema
        → prepare_schema h ajv schema ≡ prepare_schema h ajv' schema
    unfolding prepare_schema
    prepare-alike schema alike =
        ap
          (λ o.
            assert_json_safety h schema (lit "tool schema")
            >> (assert_safe_schema_patterns h schema >> o))
          alike

    with_arguments-Same :
        (r : CheckedRequest) (raw : Json) (o : Result Json)
        → compile_schema ajv r.tool_schema ≡ compile_schema ajv' r.tool_schema
        → Same (with_arguments h ajv c r raw o) (with_arguments h ajv' c' r raw o)
    unfolding with_arguments
    with_arguments-Same r raw (ok args) alike =
        with_schema-Same (record r { args = args }) _ ∙ same_schema
      where
        read : CheckedRequest
        read = record r { args = args }

        same_schema :
            expectation h (with_schema h ajv' c' read (prepare_schema h ajv r.tool_schema))
            ≡ expectation h (with_schema h ajv' c' read (prepare_schema h ajv' r.tool_schema))
        same_schema =
            ap (λ o. expectation h (with_schema h ajv' c' read o))
              (prepare-alike r.tool_schema alike)
    with_arguments-Same r raw (throw e) alike = reject-Same _

    with_version-Same :
        (r : CheckedRequest) (raw : Json) (v : Option Text)
        → compile_schema ajv r.tool_schema ≡ compile_schema ajv' r.tool_schema
        → Same (with_version h ajv c r raw v) (with_version h ajv' c' r raw v)
    unfolding with_version
    with_version-Same r raw v alike =
        Same-if _ _ _ _ _ (with_arguments-Same r raw _ alike) (reject-Same _)

    with_policy-Same :
        (r : CheckedRequest) (raw : Json) (q : Request) (e : Option Text)
        → compile_schema ajv r.tool_schema ≡ compile_schema ajv' r.tool_schema
        → Same (with_policy h ajv c r raw q e) (with_policy h ajv' c' r raw q e)
    unfolding with_policy
    with_policy-Same r raw q none alike =
        with_version-Same (record r { policy = read_policy q.policy }) raw q.protocol_version alike
    with_policy-Same r raw q (some e) alike = reject-Same _

    incomplete-Same : (q : Request) → Same (incomplete h ajv c q) (incomplete h ajv' c' q)
    unfolding incomplete name_of
    incomplete-Same q = reject-Same _

    with_request-Same :
        (q : Request) (name : Option Text) (schema raw : Option Json)
        → CompilesAlike ajv ajv' schema
        → Same (with_request h ajv c q name schema raw) (with_request h ajv' c' q name schema raw)
    unfolding with_request with_values name_fits
    with_request-Same q (some name) (some schema) (some raw) alike =
        Same-if _ _ _ _ _ (with_policy-Same _ raw q _ alike) (incomplete-Same q)
    with_request-Same q none schema raw alike = incomplete-Same q
    with_request-Same q (some name) none raw alike = incomplete-Same q
    with_request-Same q (some name) (some schema) none alike = incomplete-Same q

    -- Two runs of the guard on one request agree on all that a replay compares, whatever identifier
    -- and time each of them has, where the instances of AJV that they meet compile the schema alike.
    pub validate_tool_call-determined :
        (q : Option Request)
        → CompilesAlike ajv ajv' (schema_of q)
        → expectation h (validate_tool_call h ajv c q)
          ≡ expectation h (validate_tool_call h ajv' c' q)
    unfolding validate_tool_call name_of
    validate_tool_call-determined none alike = reject-Same _
    validate_tool_call-determined (some q) alike =
        with_request-Same q (name_of h ajv c q.tool_name) q.tool_schema q.raw_arguments alike
