-- ===== src/Routines/Valid.antt =====
-- engine/routines/store.py: what `validate_routine` lets through.
use argus_agent.Base.{
  ℕ, suc, ◌≤◌, String, ◌≡◌, refl, sym, ap, ◌∙◌, Bool, true, false, not, ◌&&◌, ◌||◌, Option, none,
  some, List, [], ◌∷◌, map, arith, ◌==◌, nat_eq, string_eq, elem, each_of, length, if◌then◌else◌,
  Bool-cases, inl, inr, ltb, All,
}
use argus_agent.Base.Result.{ok, bind_ok, ok_eq, refuse_ok}
use argus_agent.Routines.Named.{IsName, is_name-IsName, each_of-IsName}
use argus_agent.Routines.{
  Step, Routine, max_steps, max_model_steps, is_name, shown, is_type, is_valid_id, step_id,
  check_tool, check_model, check_kind, with_id, check_id, check_steps, ids_of, is_bad_channel,
  finish, validate_routine,
}

-- No id comes up again, and none is one of those before.
abbrev pub Fresh : List String → List String → Type 0
Fresh taken [] = Unit
Fresh taken (k ∷ ks) = (elem k taken ≡ false) × Fresh (k ∷ taken) ks

-- The number of the steps that are for the model.
abbrev pub models : List Step → ℕ
models [] = 0
models (s ∷ ss) = if is_type "model" s.type then suc (models ss) else models ss

-- What one step that was checked has.
pub record Checked (kt ks : Option (List String)) (i : ℕ) (ids : List String) (s : Step)
    (steps : List (Option Step)) (p : List Step × ℕ) : Type 0 where
  pub sid : String
  pub by_model : Bool
  pub rest : List Step × ℕ
  pub id_is : check_id ids (step_id i s) ≡ ok sid
  pub kind_is : check_kind kt ks sid s ≡ ok by_model
  pub rest_is : check_steps kt ks (suc i) (sid ∷ ids) steps ≡ ok rest
  pub all_is : p ≡ (with_id sid s ∷ rest.0, if by_model then suc rest.1 else rest.1)

not_both : (o : Option String) → is_type "tool" o ≡ true → is_type "model" o ≡ false
unfolding is_type
not_both none h = refl
not_both (some t) h = ap (λ u. u == "model") ((string_eq.same_iff t "tool").0 h)

module _ (kt ks : Option (List String)) where
  pub checked :
      (i : ℕ) (ids : List String) (s : Step) (steps : List (Option Step)) (p : List Step × ℕ)
      → check_steps kt ks i ids (some s ∷ steps) ≡ ok p
      → Checked kt ks i ids s steps p
  unfolding check_steps
  checked i ids s steps p h =
      let (sid, (a, k)) = bind_ok (check_id ids (step_id i s)) _ p h in
      let (by_model, (b, l)) = bind_ok (check_kind kt ks sid s) _ p k in
      let (rest, (c, e)) = bind_ok (check_steps kt ks (suc i) (sid ∷ ids) steps) _ p l in
      record {
        sid = sid;
        by_model = by_model;
        rest = rest;
        id_is = a;
        kind_is = b;
        rest_is = c;
        all_is = sym (ok_eq e);
      }

  -- An id that was checked is one, and it is new.
  pub check_id_named :
      (ids : List String) (o : Option String) (sid : String)
      → check_id ids o ≡ ok sid
      → (o ≡ some sid) × ((is_name sid ≡ true) × (elem sid ids ≡ false))
  unfolding check_id is_valid_id shown
  check_id_named ids none sid h = ground (arith, (refuse_ok true _ _ sid h).0)
  check_id_named ids (some k) sid h =
      let (named, g) = refuse_ok (not (is_name k)) _ _ sid h in
      let (new, f) = refuse_ok (elem k ids) _ _ sid g in
      (
        ap some (ok_eq f),
        (
          ground (arith, ap is_name (ok_eq f), named),
          ground (arith, ap (λ j. elem j ids) (ok_eq f), new),
        ),
      )

  -- The ids are snake_case and none comes up twice, every step is kept, and the steps for the model are
  -- counted.
  pub record Facts (ids : List String) (steps : List (Option Step)) (p : List Step × ℕ)
      : Type 0 where
    pub named : each_of is_name (ids_of p.0) ≡ true
    pub fresh : Fresh ids (ids_of p.0)
    pub kept : length p.0 ≡ length steps
    pub counted : p.1 ≡ models p.0

  check_kind-models :
      (sid : String) (s : Step) (by_model : Bool)
      → check_kind kt ks sid s ≡ ok by_model
      → is_type "model" s.type ≡ by_model
  unfolding check_kind
  check_kind-models sid s by_model h = elim (Bool-cases (is_type "tool" s.type)) [
    | inl tool ↦
        let (_, (_, e)) = bind_ok (check_tool kt ks sid s) _ by_model (rw tool at h) in
        ground (arith, not_both s.type, tool, ok_eq e)
    | inr other ↦ elim (Bool-cases (is_type "model" s.type)) [
      | inl model ↦
          let (_, (_, e)) = bind_ok (check_model kt ks sid s) _ by_model (rw (other, model) at h) in
          model ∙ ok_eq e
      | inr none_of ↦ let g = rw (other, none_of) at h in cc
    ]
  ]

  pub check_steps-Facts :
      (i : ℕ) (ids : List String) (steps : List (Option Step)) (p : List Step × ℕ)
      → check_steps kt ks i ids steps ≡ ok p
      → Facts ids steps p
  unfolding check_steps ids_of shown
  check_steps-Facts i ids [] p h =
      rw (← ok_eq h) (record { named = refl; fresh = tt; kept = refl; counted = refl })
  check_steps-Facts i ids (none ∷ steps) p h = cc
  check_steps-Facts i ids (some s ∷ steps) p h =
      let c = checked i ids s steps p h in
      let (_, (named, new)) = check_id_named ids (step_id i s) c.sid c.id_is in
      let later = check_steps-Facts (suc i) (c.sid ∷ ids) steps c.rest c.rest_is in
      rw c.all_is (record {
        named = ground (arith, named, later.named);
        fresh = (new, later.fresh);
        kept = ap suc later.kept;
        counted = ground (arith, later.counted, check_kind-models c.sid s c.by_model c.kind_is);
      })

  -- What a routine that was let through is like.
  pub record IsValid (r : Routine) : Type 0 where
    pub steps : List Step
    pub are : r.steps ≡ map some steps
    pub name_is : IsName r.name
    pub some_steps : 1 ≤ length steps
    pub few_steps : length steps ≤ max_steps
    pub few_models : models steps ≤ max_model_steps
    pub ids_named : All IsName (ids_of steps)
    pub ids_fresh : Fresh [] (ids_of steps)
    pub output_is : (r.output == "" || elem r.output (ids_of steps)) ≡ true

  pub finish-IsValid :
      (r v : Routine) (p : List Step × ℕ)
      → is_name r.name ≡ true
      → (length r.steps == 0) ≡ false
      → ltb max_steps (length r.steps) ≡ false
      → Facts [] r.steps p
      → finish r p ≡ ok v
      → IsValid v
  unfolding finish
  finish-IsValid r v (steps, by_model) named filled few facts h =
      let (a, g) = refuse_ok (ltb max_model_steps by_model) _ _ v h in
      let (b, f) = refuse_ok (not (r.output == "") && not (elem r.output (ids_of steps))) _ _ v g in
      let (c, e) = refuse_ok (is_bad_channel r.deliver.channel) _ _ v f in
      rw (← ok_eq e) (record {
        steps = steps;
        are = refl;
        name_is = is_name-IsName r.name named;
        some_steps = ground (arith, filled, facts.kept);
        few_steps = ground (arith, few, facts.kept);
        few_models = ground (arith, a, facts.counted);
        ids_named = each_of-IsName (ids_of steps) facts.named;
        ids_fresh = facts.fresh;
        output_is = ground (arith, b);
      })

  -- A routine that is let through has a name and 1 to 20 steps with ids of which no two are the same,
  -- each in snake_case, or in snake_case with one line break behind it; it has at most 6 steps for the
  -- model, and no output or the id of a step.
  pub validate_routine-IsValid : (r v : Routine) → validate_routine kt ks r ≡ ok v → IsValid v
  unfolding validate_routine
  validate_routine-IsValid r v h =
      let (a, g) = refuse_ok (not (is_name r.name)) _ _ v h in
      let (b, f) = refuse_ok (length r.steps == 0) _ _ v g in
      let (c, e) = refuse_ok (ltb max_steps (length r.steps)) _ _ v f in
      let (p, (d, z)) = bind_ok (check_steps kt ks 0 [] r.steps) (finish r) v e in
      finish-IsValid r v p (ground (arith, a)) b c (check_steps-Facts 0 [] r.steps p d) z
