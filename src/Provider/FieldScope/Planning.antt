-- ===== src/Provider/FieldScope/Planning.antt =====
-- What modifyPlan plans, where the framework answers without diagnostics.
use terraform_provider_uapi.Base.{
  ◌≡◌, refl, String, Bool, true, false, not, ◌&&◌, ◌||◌, ap, ◌∙◌, List, [], ◌∷◌, arith, Bool-cases,
  inl, inr, if◌then◌else◌, contains, ◌==◌, eq_iff, eq_refl,
}
use terraform_provider_uapi.Framework.{Attr, known, null, unknown, value_string, has_error, is_null}
use terraform_provider_uapi.Platform.{ok}
use terraform_provider_uapi.Provider.FieldScope.{
  FieldScope, AttrValue, string, boolean, number, list, Mark, to_null, to_unknown, PlanRequest,
  PlanResponse, plan_fields, plan_known, no_string, modify_plan, excluded, scoped, without, set_at,
  is_null_value, attr_eq,
}
use terraform_provider_uapi.Provider.FieldScope.Validation.{IsQuiet}

abbrev pub mark {ℓ} : {A : Type ℓ} → Mark → Attr A
mark to_null = null
mark to_unknown = unknown

-- Null or unknown at the type of a value.
abbrev pub marked : Mark → AttrValue → AttrValue
marked m (string v) = string (mark m)
marked m (boolean v) = boolean (mark m)
marked m (number v) = number (mark m)
marked m (list v) = list (mark m)

pub record IsClean (req : PlanRequest) : Type 0 where
  pub config : IsQuiet req.config
  pub plan : IsQuiet req.plan
  pub prior : IsQuiet req.prior
  pub no_schema_diags : (f : String) → (req.computed f).1 ≡ []
  pub converts : (m : Mark) (v : AttrValue) → req.convert m v ≡ ok (marked m v)
  pub no_set_diags : (f : String) (v : AttrValue) → req.set_diags f v ≡ []

-- A field that the plan may set: computed, and not in the configuration.
abbrev pub is_free : PlanRequest → String → Bool
is_free req f = (req.computed f).0 && is_null_value (req.config.value_at f).0

abbrev clean : (String → AttrValue) → PlanResponse
clean g = record { planned = g; diags = [] }

module _ (req : PlanRequest) (q : IsClean req) where
  abbrev outcome : List String → Mark → (String → AttrValue) → String → AttrValue
  outcome fs raw g j =
      if contains fs j && is_free req j then marked raw (req.plan.value_at j).0 else g j

  outcome-set :
      (f j : String) (fs : List String) (raw : Mark) (g : String → AttrValue)
      → is_free req f ≡ true
      → outcome fs raw (set_at f (marked raw (req.plan.value_at f).0) g) j
        ≡ outcome (f ∷ fs) raw g j
  outcome-set f j fs raw g h = elim (Bool-cases (f == j)) [
    | inl e ↦ let same = (eq_iff f j).0 e in rw (← same) (ground (arith, eq_refl f))
    | inr e ↦ rw e
  ]

  outcome-skip :
      (f j : String) (fs : List String) (raw : Mark) (g : String → AttrValue)
      → is_free req f ≡ false
      → outcome fs raw g j ≡ outcome (f ∷ fs) raw g j
  outcome-skip f j fs raw g h = elim (Bool-cases (f == j)) [
    | inl e ↦ let same = (eq_iff f j).0 e in rw (← same) (ground (arith, eq_refl f))
    | inr e ↦ rw e
  ]

  plan_fields_lem :
      (fs : List String) (raw : Mark) (g : String → AttrValue) (j : String)
      → ((plan_fields req fs raw (clean g)).planned j ≡ outcome fs raw g j)
        × ((plan_fields req fs raw (clean g)).diags ≡ [])
  unfolding plan_fields has_error
  plan_fields_lem [] raw g j = (refl, refl)
  plan_fields_lem (f ∷ fs) raw g j = elim (Bool-cases (req.computed f).0) [
    | inr e ↦
        rw
          (
            q.no_schema_diags f,
            q.config.no_value_diags f,
            q.plan.no_value_diags f,
            q.converts raw _,
          )
          (rw (e, ← outcome-skip f j fs raw g (rw e)) (plan_fields_lem fs raw g j))
    | inl e ↦ elim (Bool-cases (is_null_value (req.config.value_at f).0)) [
      | inr n ↦
          rw
            (
              q.no_schema_diags f,
              q.config.no_value_diags f,
              q.plan.no_value_diags f,
              q.converts raw _,
            )
            (rw (e, n, ← outcome-skip f j fs raw g (rw (e, n))) (plan_fields_lem fs raw g j))
      | inl n ↦
          rw
            (
              q.no_schema_diags f,
              q.config.no_value_diags f,
              q.plan.no_value_diags f,
              q.converts raw _,
              q.no_set_diags f _,
            )
            (rw (e, n, ← outcome-set f j fs raw g (rw (e, n))) (plan_fields_lem fs raw _ j))
    ]
  ]

contains-without :
    (xs ys : List String) (j : String)
    → contains (without xs ys) j ≡ (contains xs j && not (contains ys j))
unfolding without
contains-without [] ys j = refl
contains-without (x ∷ xs) ys j = elim (Bool-cases (contains ys x)) [
  | inl e ↦ rw (e, contains-without xs ys j) (dropped x e)
  | inr e ↦ rw (e, contains-without xs ys j) (held x e)
]
  where
    dropped :
        (x : String)
        → contains ys x ≡ true
        → (contains xs j && not (contains ys j))
          ≡ ((x == j) || contains xs j) && not (contains ys j)
    dropped x e = elim (Bool-cases (x == j)) [
      | inl h ↦ let same = (eq_iff x j).0 h in ground (arith, ap (contains ys) same)
      | inr h ↦ rw h
    ]

    held :
        (x : String)
        → contains ys x ≡ false
        → ((x == j) || (contains xs j && not (contains ys j)))
          ≡ ((x == j) || contains xs j) && not (contains ys j)
    held x e = elim (Bool-cases (x == j)) [
      | inl h ↦ let same = (eq_iff x j).0 h in ground (arith, ap (contains ys) same)
      | inr h ↦ rw h
    ]

clean_lem : (resp : PlanResponse) → resp.diags ≡ [] → resp ≡ clean resp.planned
clean_lem resp e = λ i. record { planned = resp.planned; diags = e i }

-- The prior value of the discriminator: null where the resource is created.
abbrev pub prior_value : FieldScope → PlanRequest → Attr String
prior_value s req = if req.creates then null else (req.prior.string_at s.field).0

-- The fields that the prior value excluded, if the value changes.
abbrev pub entering : FieldScope → Attr String → String → List String
entering s null v = []
entering s prior v = if attr_eq prior (known v) then [] else excluded s (value_string prior)

abbrev pub switched :
    FieldScope → PlanRequest → (String → AttrValue) → String → Attr String → String → AttrValue
switched s req g v prior j =
    if not (is_free req j)
    then g j
    else if contains (excluded s v) j
    then marked to_null (req.plan.value_at j).0
    else if contains (entering s prior v) j
    then marked to_unknown (req.plan.value_at j).0
    else g j

module _ (s : FieldScope) (req : PlanRequest) (q : IsClean req) (g : String → AttrValue)
    (v j : String) where
  nulled_lem : outcome req q (excluded s v) to_null g j ≡ switched s req g v null j
  nulled_lem = ground arith

  entered_cases :
      (prior : Attr String)
      → attr_eq prior (known v) ≡ false
      → is_null prior ≡ false
      → (if (contains (excluded s (value_string prior)) j && not (contains (excluded s v) j))
            && is_free req j
          then marked to_unknown (req.plan.value_at j).0
          else outcome req q (excluded s v) to_null g j)
        ≡ switched s req g v prior j
  entered_cases null differs here = cc here
  entered_cases unknown differs here = ground arith
  entered_cases (known u) differs here = rw differs (ground arith)

  entered_lem :
      (prior : Attr String)
      → attr_eq prior (known v) ≡ false
      → is_null prior ≡ false
      → (plan_fields req
            (without (excluded s (value_string prior)) (excluded s v))
            to_unknown
            (plan_fields req (excluded s v) to_null (clean g))).planned
          j
        ≡ switched s req g v prior j
  entered_lem prior differs here =
      let nulled = plan_fields req (excluded s v) to_null (clean g) in
      let (at_j, none_shown) = plan_fields_lem req q (excluded s v) to_null g j in
      rw (clean_lem nulled none_shown) (
        rw (plan_fields_lem req q _ to_unknown nulled.planned j).0
          (rw (at_j, contains-without) (entered_cases prior differs here)))

  plan_known_lem :
      (prior : Attr String)
      → (plan_known s req (known v) prior (clean g)).planned j ≡ switched s req g v prior j
  unfolding plan_known
  plan_known_lem null = (plan_fields_lem req q (excluded s v) to_null g j).0 ∙ nulled_lem
  plan_known_lem unknown = entered_lem unknown refl refl
  plan_known_lem (known u) = elim (Bool-cases (u == v)) [
    | inl e ↦ rw e ((plan_fields_lem req q (excluded s v) to_null g j).0 ∙ nulled_lem)
    | inr e ↦ rw e (rw e at (entered_lem (known u) e refl))
  ]

prior_diags :
    (s : FieldScope) (req : PlanRequest)
    → IsClean req
    → (if req.creates then no_string else req.prior.string_at s.field).1 ≡ []
prior_diags s req q = elim (Bool-cases req.creates) [
  | inl e ↦ rw e
  | inr e ↦ rw e (q.prior.no_string_diags s.field)
]

prior_value_lem :
    (s : FieldScope) (req : PlanRequest)
    → (if req.creates then no_string else req.prior.string_at s.field).0 ≡ prior_value s req
prior_value_lem s req = elim (Bool-cases req.creates) [ inl e ↦ rw e | inr e ↦ rw e ]

module _ (s : FieldScope) (req : PlanRequest) (q : IsClean req) (g : String → AttrValue) where
  -- While the discriminator is unknown, in a plan that destroys nothing and of which the framework
  -- answers without diagnostics, each scoped field that is computed and not configured is planned
  -- unknown, and no other field changes.
  pub modify_plan-unknown :
      (j : String)
      → req.destroys ≡ false
      → (req.plan.string_at s.field).0 ≡ unknown
      → (modify_plan s req (clean g)).planned j ≡ (
          if contains (scoped s) j && is_free req j
          then marked to_unknown (req.plan.value_at j).0
          else g j)
  unfolding modify_plan has_error
  modify_plan-unknown j live h =
      simp (live, q.plan.no_string_diags s.field, prior_diags s req q, h)
        (plan_fields_lem req q (scoped s) to_unknown g j).0

  -- With a known discriminator, in a plan that destroys nothing and of which the framework answers
  -- without diagnostics, each excluded field that is computed and not configured is planned null;
  -- each such field that only the prior value excluded is planned unknown; no other field changes.
  pub modify_plan-known :
      (v j : String)
      → req.destroys ≡ false
      → (req.plan.string_at s.field).0 ≡ known v
      → (modify_plan s req (clean g)).planned j ≡ switched s req g v (prior_value s req) j
  unfolding modify_plan has_error
  modify_plan-known v j live h =
      simp (live, q.plan.no_string_diags s.field, prior_diags s req q, h, prior_value_lem s req)
        (plan_known_lem s req q g v j (prior_value s req))
