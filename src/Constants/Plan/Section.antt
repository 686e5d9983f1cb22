-- ===== src/Constants/Plan/Section.antt =====
-- What a section that is accepted declares, and what it leaves.
use quality_flow.Base.{
  ℕ, suc, ◌≡◌, refl, sym, subst, Bool, true, zero, ok_injective, inl, inr, Bool-cases, String,
  Option, none, some, List, [], ◌∷◌, ◌++◌, ◌==◌, one_of, All, arith, Result, ok, bind, bind-eq-ok,
}
use quality_flow.Base.Int.{ℤ, pos, negsuc, leb_ℤ, suc_ℤ, ◌≤ℤ◌, ≤ℤ_refl, ≤ℤ_trans}
use quality_flow.Base.Dict.{lookup, insert, lookup-insert, insert-IsDict}
use quality_flow.Constants.Tables.{writable_scopes}
use quality_flow.Constants.Config.{
  ConstantConfig, ConfigClass, delete_constant, init_constant, run_suite, read_api, write_api,
  other_command,
}
use quality_flow.Constants.Plan.{
  CommandInput, RawCommand, PlannedDefinition, Definitions, scopes_of, active_definitions,
  carry_over_visible_map, check_declarations, all_scopes, declare, Plan, validate_declarations,
  planned_declarations, delete_definition, plan_class, plan_command, precedes, insert_sorted,
  sort_commands, command_inputs, order_or, plan_commands, plan_definitions_for_commands,
  validate_ref_visibility,
}
use quality_flow.Constants.Plan.Unique.{IsLive, declare-HasUniqueNames}
use quality_flow.Constants.Plan.Invariant.{
  IsNamed, IsPlanned, IsDeclared, live_are_active, writable_known, check_declarations-writable,
  declare-lookup, declare-IsDict, IsNew, planned-IsNew,
}
use quality_flow.Constants.Plan.Declared.{plan_definitions-IsDeclared}
use quality_flow.Constants.Plan.Carry.{carry-IsPlanned, IsPlanned-later}

module _ (section : String) (order : ℤ) (ds : Definitions) (p : IsPlanned order ds) where
  -- The map after a command.
  record IsPlannedWith (plan : Plan) : Type 0 where
    pub planned : IsPlanned order plan.1

  new_known :
      (new : List PlannedDefinition)
      → All (λ d. one_of d.context_scope (scopes_of section writable_scopes) ≡ true) new
      → All (λ d. one_of d.context_scope all_scopes ≡ true) new
  new_known [] w = tt
  new_known (d ∷ new) (w, ws) = (writable_known section d.context_scope w, new_known new ws)

  new_before :
      (new : List PlannedDefinition)
      → All (IsNew order section) new
      → All (λ d. d.command_order ≤ℤ order) new
  new_before [] h = tt
  new_before (d ∷ new) (h, hs) =
      (subst (λ n. n ≤ℤ order) (sym h.order_is) (≤ℤ_refl order), new_before new hs)

  declare-IsPlanned :
      (cfg : ConstantConfig) (id : String)
      → let new = planned_declarations cfg id order section in
        check_declarations section new (active_definitions all_scopes (suc_ℤ order) ds) ≡ ok tt
        → IsPlannedWith (new, declare new ds)
  declare-IsPlanned cfg id h =
      let new = planned_declarations cfg id order section in
      let fresh = planned-IsNew cfg id order section in
      let writable = check_declarations-writable section new _ h in
      record {
        planned = record {
          named = record {
            distinct = declare-IsDict new ds p.named.distinct;
            unique =
                declare-HasUniqueNames section new ds _ h p.named.unique
                  (live_are_active order ds p);
            known =
                declare-lookup (λ d. one_of d.context_scope all_scopes ≡ true) new ds
                  (new_known new writable) p.named.known;
          };
          before =
              declare-lookup (λ d. d.command_order ≤ℤ order) new ds (new_before new fresh) p.before;
        };
      }

  validate-IsPlanned :
      (cfg : ConstantConfig) (id : String) (plan : Plan)
      → bind (validate_declarations cfg section order ds id) (λ new. ok (new, declare new ds))
        ≡ ok plan
      → IsPlannedWith plan
  unfolding validate_declarations
  validate-IsPlanned cfg id plan h =
      let (new, e, f) = bind-eq-ok (validate_declarations cfg section order ds id) _ h in
      let (_, g, k) =
        bind-eq-ok
          (check_declarations section (planned_declarations cfg id order section)
            (active_definitions all_scopes (suc_ℤ order) ds))
          _ e in
      subst IsPlannedWith (ground arith) (declare-IsPlanned cfg id g)

  -- A deletion of a definition keeps the names apart.
  delete-IsPlanned :
      (id : String) (d : PlannedDefinition)
      → lookup id ds ≡ some d
      → IsPlanned order (insert id (record d { deleted_at_order = some order }) ds)
  delete-IsPlanned id d found = record {
    named = record {
      distinct = insert-IsDict id _ ds p.named.distinct;
      unique = λ i j e f le lf live_e live_f same.
          p.named.unique i j e f (old i e le live_e) (old j f lf live_f) live_e live_f same;
      known = λ i e le. elim (Bool-cases (id == i)) [
        | inl here ↦ ground (arith, lookup-insert i id gone ds, p.named.known id d found)
        | inr there ↦ p.named.known i e (ground (arith, lookup-insert i id gone ds))
      ];
    };
    before = λ i e le. elim (Bool-cases (id == i)) [
      | inl here ↦ ground (arith, lookup-insert i id gone ds, p.before id d found)
      | inr there ↦ p.before i e (ground (arith, lookup-insert i id gone ds))
    ];
  }
    where
      gone : PlannedDefinition
      gone = record d { deleted_at_order = some order }

      old :
          (i : String) (e : PlannedDefinition)
          → lookup i (insert id gone ds) ≡ some e
          → IsLive e
          → lookup i ds ≡ some e
      old i e le live = elim (Bool-cases (id == i)) [
        | inl here ↦ ground (arith, lookup-insert i id gone ds)
        | inr there ↦ ground (arith, lookup-insert i id gone ds)
      ]

  delete_class-IsPlanned :
      (id : String) (found : Option PlannedDefinition) (plan : Plan)
      → lookup id ds ≡ found
      → bind (delete_definition id order found ds) (λ after. ok ([], after)) ≡ ok plan
      → IsPlannedWith plan
  delete_class-IsPlanned id none plan e h = cc
  delete_class-IsPlanned id (some d) plan e h =
      let after = insert id (record d { deleted_at_order = some order }) ds in
      subst IsPlannedWith {x = ([], after)} (ground arith)
        (record { planned = delete-IsPlanned id d e })

  plan_class-IsPlanned :
      (cfg : ConstantConfig) (c : ConfigClass) (id : String) (plan : Plan)
      → plan_class cfg c section order id ds ≡ ok plan
      → IsPlannedWith plan
  unfolding plan_class
  plan_class-IsPlanned cfg (delete_constant t) id plan h =
      delete_class-IsPlanned t (lookup t ds) plan refl h
  plan_class-IsPlanned cfg (init_constant i n k v) id plan h = validate-IsPlanned cfg id plan h
  plan_class-IsPlanned cfg (run_suite ids) id plan h = validate-IsPlanned cfg id plan h
  plan_class-IsPlanned cfg (read_api r) id plan h = validate-IsPlanned cfg id plan h
  plan_class-IsPlanned cfg (write_api r t b) id plan h = validate-IsPlanned cfg id plan h
  plan_class-IsPlanned cfg other_command id plan h = validate-IsPlanned cfg id plan h

  plan_command-IsPlanned :
      (cfg : ConstantConfig) (id : String) (plan : Plan)
      → plan_command section cfg id order ds ≡ ok plan
      → IsPlannedWith plan
  unfolding plan_command
  plan_command-IsPlanned cfg id plan h =
      let (_, e, f) = bind-eq-ok (validate_ref_visibility cfg section order ds) _ h in
      plan_class-IsPlanned cfg cfg.config_class id plan f

-- Commands whose orders do not go down, from an order on.
abbrev IsOrdered : {Raw : Type 0} → ℤ → List (CommandInput Raw) → Type 0
IsOrdered n [] = Unit
IsOrdered n (c ∷ cs) = (n ≤ℤ c.command_order) × IsOrdered c.command_order cs

IsOrdered-weaken :
    {Raw : Type 0} (n m : ℤ) (cs : List (CommandInput Raw))
    → n ≤ℤ m
    → IsOrdered m cs
    → IsOrdered n cs
IsOrdered-weaken n m [] e h = tt
IsOrdered-weaken n m (c ∷ cs) e (h, hs) = (≤ℤ_trans n m c.command_order e h, hs)

insert_sorted-IsOrdered :
    {Raw : Type 0} (n : ℤ) (c : CommandInput Raw) (cs : List (CommandInput Raw))
    → n ≤ℤ c.command_order
    → IsOrdered n cs
    → IsOrdered n (insert_sorted c cs)
unfolding insert_sorted
insert_sorted-IsOrdered n c [] e h = (e, tt)
insert_sorted-IsOrdered n c (d ∷ ds) e (h, hs) = elim (Bool-cases (precedes d c)) [
  | inl first ↦ simp first (h, insert_sorted-IsOrdered d.command_order c ds (ground arith) hs)
  | inr later ↦ simp later (e, (ground arith, hs))
]

sort_commands-IsOrdered :
    {Raw : Type 0} (cs : List (CommandInput Raw))
    → All (λ c. pos 0 ≤ℤ c.command_order) cs
    → IsOrdered (pos 0) (sort_commands cs)
unfolding sort_commands
sort_commands-IsOrdered [] h = tt
sort_commands-IsOrdered (c ∷ cs) (h, hs) =
    insert_sorted-IsOrdered (pos 0) c _ h (sort_commands-IsOrdered cs hs)

-- An order that is given is not negative.
abbrev pub is_natural : Option ℤ → Bool
is_natural none = true
is_natural (some n) = leb_ℤ (pos 0) n

order_or_natural :
    (order : Option ℤ) (index : ℕ) → is_natural order ≡ true → pos 0 ≤ℤ order_or order index
order_or_natural none index h = ground arith
order_or_natural (some (pos zero)) index h = ground arith
order_or_natural (some (pos (suc n))) index h = ground arith
order_or_natural (some (negsuc n)) index h = ground arith

command_inputs_natural :
    {Raw : Type 0} (new_id : ℕ → String) (raws : List (RawCommand Raw)) (index : ℕ)
    → All (λ raw. is_natural raw.order ≡ true) raws
    → All (λ c. pos 0 ≤ℤ c.command_order) (command_inputs new_id raws index)
command_inputs_natural new_id [] index h = tt
command_inputs_natural new_id (raw ∷ raws) index (h, hs) =
    (order_or_natural raw.order index h, command_inputs_natural new_id raws (suc index) hs)

module _ {Raw : Type 0} (convert : Raw → Result ConstantConfig) (new_id : ℕ → String) where
  -- What a section that is accepted has planned, and the map that it leaves.
  pub record IsAccepted (section : String) (plan : Plan) : Type 0 where
    pub declared : All (IsDeclared section) plan.0
    pub named : IsNamed plan.1

  plan_commands-IsNamed :
      (section : String) (order : ℤ) (cs : List (CommandInput Raw))
      (planned : List PlannedDefinition) (ds : Definitions) (plan : Plan)
      → plan_commands convert new_id section cs planned ds ≡ ok plan
      → IsOrdered order cs
      → IsPlanned order ds
      → IsNamed plan.1
  unfolding plan_commands
  plan_commands-IsNamed section order [] planned ds plan h o p =
      subst (λ q. IsNamed q.1) (ok_injective h) p.named
  plan_commands-IsNamed section order (c ∷ cs) planned ds plan h (o, os) p =
      let (cfg, e, f) = bind-eq-ok (convert c.cfg) _ h in
      let (after, g, k) =
        bind-eq-ok (plan_command section cfg c.command_id c.command_order ds) _ f in
      let q =
        plan_command-IsPlanned section c.command_order ds
          (IsPlanned-later order c.command_order ds o p) cfg c.command_id after g in
      plan_commands-IsNamed section c.command_order cs (planned ++ after.0) after.1 plan k os
        q.planned

  -- Where the commands of a section, none of which has a negative order, are accepted after a map of
  -- definitions in the four scopes, with distinct ids and with distinct names of the live ones in each
  -- scope, so is the map that they leave; and each definition that they declare belongs to the
  -- section, is live and is in a scope that the section writes to.
  pub plan_definitions-IsAccepted :
      (raws : List (RawCommand Raw)) (section : String) (initial : Definitions) (plan : Plan)
      → All (λ raw. is_natural raw.order ≡ true) raws
      → IsNamed initial
      → plan_definitions_for_commands convert new_id raws section initial ≡ ok plan
      → IsAccepted section plan
  unfolding plan_definitions_for_commands
  plan_definitions-IsAccepted raws section initial plan natural n h = record {
    declared = plan_definitions-IsDeclared convert new_id section raws initial plan h;
    named =
        plan_commands-IsNamed section (pos 0) (sort_commands (command_inputs new_id raws 1)) []
          (carry_over_visible_map initial) plan h
          (sort_commands-IsOrdered _ (command_inputs_natural new_id raws 1 natural))
          (carry-IsPlanned initial n);
  }
