-- ===== src/Routines/Saved.antt =====
-- engine/routines/store.py: what was saved is loaded again.
use argus_agent.Base.{
  ℕ, suc, String, ◌≡◌, refl, sym, ap, ◌∙◌, Bool, true, false, not, ◌&&◌, Option, none, some, List,
  [], ◌∷◌, map, arith, ◌==◌, nat_eq, string_eq, elem, length, Bool-cases, inl, inr, ltb,
}
use argus_agent.Base.Result.{
  ok, ◌>>=◌, ◌>>◌, refuse, bind_ok, ok_eq, refuse_ok, refuse_over, bind_over,
}
use argus_agent.Routines.{
  Step, Routine, max_steps, max_model_steps, is_name, or_else, is_type, has_text, is_unknown,
  is_blank_text, step_id, check_tool, check_model, check_kind, with_id, check_id, check_steps,
  ids_of, is_bad_channel, finish, validate_routine,
}
use argus_agent.Routines.Valid.{checked, check_id_named, check_steps-Facts}

length-map : (steps : List Step) → length (map (λ (s : Step). some s) steps) ≡ length steps
length-map [] = refl
length-map (s ∷ steps) = ap suc (length-map steps)

is_name-full : (sid : String) → is_name sid ≡ true → (sid == "") ≡ false
unfolding is_name
is_name-full sid h = elim (Bool-cases (sid == "")) [
  | inl empty ↦ let no = sym (ap is_name ((string_eq.same_iff sid "").0 empty)) ∙ h in cc
  | inr other ↦ other
]

step_id-with_id :
    (i : ℕ) (sid : String) (s : Step) → is_name sid ≡ true → step_id i (with_id sid s) ≡ some sid
unfolding step_id or_else
step_id-with_id i sid s h = rw (is_name-full sid h)

refuse-less :
    (b c : Bool) (e : String) (u : Unit {0})
    → refuse (b && c) e ≡ ok u
    → refuse (b && false) e ≡ ok u
unfolding refuse
refuse-less true true e u h = cc
refuse-less true false e u h = h
refuse-less false c e u h = h

module _ (kt ks : Option (List String)) where
  check_tool-known :
      (sid : String) (s : Step) (u : Unit {0})
      → check_tool kt ks sid s ≡ ok u
      → check_tool none none sid s ≡ ok u
  unfolding check_tool is_unknown ◌>>◌ ◌>>=◌ refuse
  check_tool-known sid s u h =
      let (a, g) = refuse_ok (not (has_text s.tool)) _ _ u h in
      let (b, f) = refuse_ok (is_unknown kt s.tool) _ _ u g in refuse_over _ _ _ u a f

  check_model-known :
      (sid : String) (s : Step) (u : Unit {0})
      → check_model kt ks sid s ≡ ok u
      → check_model none none sid s ≡ ok u
  unfolding check_model is_unknown
  check_model-known sid s u h =
      let (a, g) = refuse_ok (is_blank_text s.prompt) _ _ u h in
      refuse_over _ _ _ u a (refuse-less (has_text s.skill) (is_unknown ks s.skill) _ u g)

  -- What is valid among known tools and skills is valid.
  check_kind-known :
      (sid : String) (s : Step) (by_model : Bool)
      → check_kind kt ks sid s ≡ ok by_model
      → check_kind none none sid s ≡ ok by_model
  unfolding check_kind
  check_kind-known sid s by_model h = elim (Bool-cases (is_type "tool" s.type)) [
    | inl tool ↦
        let (u, (d, e)) = bind_ok (check_tool kt ks sid s) _ by_model (rw tool at h) in
        rw tool (bind_over _ _ u (ok by_model) (check_tool-known sid s u d) e)
    | inr other ↦ elim (Bool-cases (is_type "model" s.type)) [
      | inl model ↦
          let (u, (d, e)) = bind_ok (check_model kt ks sid s) _ by_model (rw (other, model) at h) in
          rw (other, model) (bind_over _ _ u (ok by_model) (check_model-known sid s u d) e)
      | inr none_of ↦ let g = rw (other, none_of) at h in cc
    ]
  ]

  check_steps-again :
      (i : ℕ) (ids : List String) (steps : List (Option Step)) (p : List Step × ℕ)
      → check_steps kt ks i ids steps ≡ ok p
      → check_steps none none i ids (map some p.0) ≡ ok p
  unfolding check_steps
  check_steps-again i ids [] p h = rw (← ok_eq h) refl
  check_steps-again i ids (none ∷ steps) p h = cc
  check_steps-again i ids (some s ∷ steps) p h =
      let c = checked kt ks i ids s steps p h in
      let (was, (named, new)) = check_id_named kt ks ids (step_id i s) c.sid c.id_is in
      let id_is = ap (check_id ids) (step_id-with_id i c.sid s named ∙ sym was) ∙ c.id_is in
      let later = check_steps-again (suc i) (c.sid ∷ ids) steps c.rest c.rest_is in
      rw c.all_is (
        bind_over _ _ c.sid _ id_is (
          bind_over _ _ c.by_model _ (check_kind-known c.sid s c.by_model c.kind_is)
            (bind_over _ _ c.rest _ later refl)))

  finish-again :
      (r v : Routine) (p : List Step × ℕ)
      → check_steps none none 0 [] (map some p.0) ≡ ok p
      → is_name r.name ≡ true
      → (length (map (λ (s : Step). some s) p.0) == 0) ≡ false
      → ltb max_steps (length (map (λ (s : Step). some s) p.0)) ≡ false
      → finish r p ≡ ok v
      → (validate_routine none none v ≡ ok v) × (v.name ≡ r.name)
  unfolding finish validate_routine
  finish-again r v (steps, by_model) again named filled few h =
      let (a, g) = refuse_ok (ltb max_model_steps by_model) _ _ v h in
      let (b, f) = refuse_ok (not (r.output == "") && not (elem r.output (ids_of steps))) _ _ v g in
      let (c, e) = refuse_ok (is_bad_channel r.deliver.channel) _ _ v f in
      rw (← ok_eq e) (
        refuse_over _ _ _ _ (ground (arith, named)) (
            refuse_over _ _ _ _ filled (
              refuse_over _ _ _ _ few (
                bind_over _ _ (steps, by_model) _ again
                  (refuse_over _ _ _ _ a (refuse_over _ _ _ _ b (refuse_over _ _ _ _ c refl)))))),
        refl,
      )

  -- A routine that was let through is let through again, as it is.
  pub validate_routine-again :
      (r v : Routine)
      → validate_routine kt ks r ≡ ok v
      → (validate_routine none none v ≡ ok v) × (v.name ≡ r.name)
  unfolding validate_routine
  validate_routine-again r v h =
      let (a, g) = refuse_ok (not (is_name r.name)) _ _ v h in
      let (b, f) = refuse_ok (length r.steps == 0) _ _ v g in
      let (c, e) = refuse_ok (ltb max_steps (length r.steps)) _ _ v f in
      let (p, (d, z)) = bind_ok (check_steps kt ks 0 [] r.steps) (finish r) v e in
      let kept = length-map p.0 ∙ (check_steps-Facts kt ks 0 [] r.steps p d).kept in
      finish-again r v p (check_steps-again 0 [] r.steps p d) (ground (arith, a))
        (ap (λ n. n == 0) kept ∙ b) (ap (ltb max_steps) kept ∙ c) z
