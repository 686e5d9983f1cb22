-- ===== src/Constants/Plan/Declared.antt =====
-- What a section that is accepted declares, whatever the orders of its commands are.
use quality_flow.Base.{
  ℕ, ◌≡◌, subst, true, String, Option, List, [], ◌∷◌, ◌++◌, one_of, All, All-append, arith, Result,
  ok, bind, bind-eq-ok, ok_injective,
}
use quality_flow.Base.Int.{ℤ, suc_ℤ}
use quality_flow.Constants.Tables.{writable_scopes}
use quality_flow.Constants.Config.{
  ConstantConfig, ConfigClass, delete_constant, init_constant, run_suite, read_api, write_api,
  other_command,
}
use quality_flow.Constants.Plan.{
  CommandInput, RawCommand, PlannedDefinition, Definitions, scopes_of, active_definitions,
  carry_over_visible_map, check_declarations, all_scopes, declare, Plan, validate_declarations,
  planned_declarations, delete_definition, plan_class, plan_command, sort_commands, command_inputs,
  plan_commands, plan_definitions_for_commands, validate_ref_visibility,
}
use quality_flow.Constants.Plan.Invariant.{
  IsDeclared, check_declarations-writable, IsNew, planned-IsNew,
}

new-IsDeclared :
    (section : String) (order : ℤ) (new : List PlannedDefinition)
    → All (IsNew order section) new
    → All (λ d. one_of d.context_scope (scopes_of section writable_scopes) ≡ true) new
    → All (IsDeclared section) new
new-IsDeclared section order [] h w = tt
new-IsDeclared section order (d ∷ new) (h, hs) (w, ws) = (
  record { of_section = h.section_is; writable = w; live = h.live },
  new-IsDeclared section order new hs ws,
)

module _ (section : String) (order : ℤ) (ds : Definitions) (cfg : ConstantConfig) (id : String)
    (plan : Plan) where
  validate-IsDeclared :
      bind (validate_declarations cfg section order ds id) (λ new. ok (new, declare new ds))
        ≡ ok plan
      → All (IsDeclared section) plan.0
  unfolding validate_declarations
  validate-IsDeclared h =
      let new = planned_declarations cfg id order section in
      let (made, e, f) = bind-eq-ok (validate_declarations cfg section order ds id) _ h in
      let (_, g, k) =
        bind-eq-ok (check_declarations section new (active_definitions all_scopes (suc_ℤ order) ds))
          _ e in
      subst (All (IsDeclared section)) {x = new} (ground arith) (
        new-IsDeclared section order new (planned-IsNew cfg id order section)
          (check_declarations-writable section new _ g))

  delete-IsDeclared :
      (target : String) (found : Option PlannedDefinition)
      → bind (delete_definition target order found ds) (λ after. ok ([], after)) ≡ ok plan
      → All (IsDeclared section) plan.0
  delete-IsDeclared target found h =
      let (after, e, f) = bind-eq-ok (delete_definition target order found ds) _ h in
      subst (λ p. All (IsDeclared section) p.0) (ok_injective f) tt

  plan_class-IsDeclared :
      (c : ConfigClass)
      → plan_class cfg c section order id ds ≡ ok plan
      → All (IsDeclared section) plan.0
  unfolding plan_class
  plan_class-IsDeclared (delete_constant t) h = delete-IsDeclared t _ h
  plan_class-IsDeclared (init_constant i n k v) h = validate-IsDeclared h
  plan_class-IsDeclared (run_suite ids) h = validate-IsDeclared h
  plan_class-IsDeclared (read_api r) h = validate-IsDeclared h
  plan_class-IsDeclared (write_api r t b) h = validate-IsDeclared h
  plan_class-IsDeclared other_command h = validate-IsDeclared h

  plan_command-IsDeclared :
      plan_command section cfg id order ds ≡ ok plan → All (IsDeclared section) plan.0
  unfolding plan_command
  plan_command-IsDeclared h =
      let (_, e, f) = bind-eq-ok (validate_ref_visibility cfg section order ds) _ h in
      plan_class-IsDeclared cfg.config_class f

module _ {Raw : Type 0} (convert : Raw → Result ConstantConfig) (new_id : ℕ → String)
    (section : String) where
  plan_commands-IsDeclared :
      (cs : List (CommandInput Raw)) (planned : List PlannedDefinition) (ds : Definitions)
      (plan : Plan)
      → plan_commands convert new_id section cs planned ds ≡ ok plan
      → All (IsDeclared section) planned
      → All (IsDeclared section) plan.0
  unfolding plan_commands
  plan_commands-IsDeclared [] planned ds plan h a =
      subst (λ p. All (IsDeclared section) p.0) (ok_injective h) a
  plan_commands-IsDeclared (c ∷ cs) planned ds plan h a =
      let (cfg, e, f) = bind-eq-ok (convert c.cfg) _ h in
      let (after, g, k) =
        bind-eq-ok (plan_command section cfg c.command_id c.command_order ds) _ f in
      plan_commands-IsDeclared cs (planned ++ after.0) after.1 plan k (
        All-append (IsDeclared section) planned after.0 a
          (plan_command-IsDeclared section c.command_order ds cfg c.command_id after g))

  -- Each definition that a section declares belongs to it, is live, and is in a scope that the section
  -- writes to.
  pub plan_definitions-IsDeclared :
      (raws : List (RawCommand Raw)) (initial : Definitions) (plan : Plan)
      → plan_definitions_for_commands convert new_id raws section initial ≡ ok plan
      → All (IsDeclared section) plan.0
  unfolding plan_definitions_for_commands
  plan_definitions-IsDeclared raws initial plan h =
      plan_commands-IsDeclared (sort_commands (command_inputs new_id raws 1)) []
        (carry_over_visible_map initial) plan h tt
