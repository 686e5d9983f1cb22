-- ===== src/Constants/Mock/Rows.antt =====
-- Which rows the table has after the definitions of a mock server are written.
use quality_flow.Base.{
  ℕ, ◌≡◌, refl, sym, ap, subst, ◌∙◌, Bool, true, false, not, ◌&&◌, ◌||◌, inl, inr, Bool-cases,
  String, Option, none, some, List, [], ◌∷◌, ◌++◌, if◌then◌else◌, All, All-append, arith, Result,
  ok, bind-eq-ok, ok_injective,
}
use quality_flow.Constants.Config.{ConstantConfig}
use quality_flow.Constants.Tables.{
  mock_section_pre_response, mock_section_post_response, owner_mock_api_pre, owner_mock_api_post,
}
use quality_flow.Constants.Plan.{RawCommand, PlannedDefinition, plan_definitions_for_commands}
use quality_flow.Constants.Plan.Invariant.{IsDeclared}
use quality_flow.Constants.Plan.Declared.{plan_definitions-IsDeclared}
use quality_flow.Constants.Suite.{DefinitionEntity, commands_for_item}
use quality_flow.Constants.Mock.{
  MockApi, MockQueue, api_entity, queue_entity, entities, is_owner, delete_by_mock_server_api_id,
  delete_by_mock_server_queue_id, section_rows, api_rows, queue_rows, Rebuilt, rebuild_apis,
  rebuild_queues, rebuild_mock_constant_definitions, normalized_pre_commands,
}

-- Whether an owner's column has one of the keys.
abbrev pub has_owner : List String → Option String → Bool
has_owner [] owner = false
has_owner (key ∷ keys) owner = is_owner key owner || has_owner keys owner

abbrev pub api_ids : {Raw : Type 0} → List (MockApi Raw) → List String
api_ids [] = []
api_ids (api ∷ apis) = api.id ∷ api_ids apis

abbrev pub queue_ids : {Raw : Type 0} → List (MockQueue Raw) → List String
queue_ids [] = []
queue_ids (queue ∷ queues) = queue.id ∷ queue_ids queues

abbrev pub keep : (DefinitionEntity → Bool) → List DefinitionEntity → List DefinitionEntity
keep test [] = []
keep test (e ∷ es) = let rest = keep test es in if test e then e ∷ rest else rest

pub keep-keep :
    (f g h : DefinitionEntity → Bool) (es : List DefinitionEntity)
    → ((e : DefinitionEntity) → (g e && f e) ≡ h e)
    → keep f (keep g es) ≡ keep h es
keep-keep f g h [] same = refl
keep-keep f g h (e ∷ es) same = elim (Bool-cases (g e)) [
  | inl yes_g ↦ elim (Bool-cases (f e)) [
    | inl yes_f ↦ ground (arith, keep-keep f g h es same, same e)
    | inr no_f ↦ ground (arith, keep-keep f g h es same, same e)
  ]
  | inr no_g ↦ ground (arith, keep-keep f g h es same, same e)
]

keep_all : (es : List DefinitionEntity) → keep (λ e. true) es ≡ es
keep_all [] = refl
keep_all (e ∷ es) = ap (◌∷◌ e) (keep_all es)

abbrev other_api : List String → DefinitionEntity → Bool
other_api ids e = not (has_owner ids e.mock_server_api_id)

abbrev other_queue : List String → DefinitionEntity → Bool
other_queue ids e = not (has_owner ids e.mock_server_queue_id)

-- The rows that neither these APIs nor these queues own.
abbrev pub foreign_rows : List String → List String → List DefinitionEntity → List DefinitionEntity
foreign_rows apis queues = keep (λ e. other_api apis e && other_queue queues e)

delete_api-keep :
    (id : String) (es : List DefinitionEntity)
    → delete_by_mock_server_api_id id es ≡ keep (λ e. not (is_owner id e.mock_server_api_id)) es
unfolding delete_by_mock_server_api_id
delete_api-keep id [] = refl
delete_api-keep id (e ∷ es) = ground (arith, delete_api-keep id es)

delete_queue-keep :
    (id : String) (es : List DefinitionEntity)
    → delete_by_mock_server_queue_id id es ≡ keep (λ e. not (is_owner id e.mock_server_queue_id)) es
unfolding delete_by_mock_server_queue_id
delete_queue-keep id [] = refl
delete_queue-keep id (e ∷ es) = ground (arith, delete_queue-keep id es)

-- A row of one of these APIs or queues and of no suite, whose definition is in a scope that its
-- section writes to.
pub record IsMockRow (apis queues : List String) (e : DefinitionEntity) : Type 0 where
  pub declared : IsDeclared e.definition.section_type e.definition
  pub no_suite : e.suite_id ≡ none
  pub owned :
      (has_owner apis e.mock_server_api_id || has_owner queues e.mock_server_queue_id) ≡ true

-- What makes the rows of a section rows of the server.
abbrev Makes : List String → List String → (PlannedDefinition → DefinitionEntity) → Type 0
Makes apis queues entity =
    (section : String) (d : PlannedDefinition)
    → IsDeclared section d
    → IsMockRow apis queues (entity d)

entities-IsMockRow :
    (apis queues : List String) (entity : PlannedDefinition → DefinitionEntity) (section : String)
    (ds : List PlannedDefinition)
    → Makes apis queues entity
    → All (IsDeclared section) ds
    → All (IsMockRow apis queues) (entities entity ds)
entities-IsMockRow apis queues entity section [] m h = tt
entities-IsMockRow apis queues entity section (d ∷ ds) m (h, hs) =
    (m section d h, entities-IsMockRow apis queues entity section ds m hs)

api_entity-Makes :
    (apis queues : List String) (owner_type id : String)
    → has_owner apis (some id) ≡ true
    → Makes apis queues (api_entity owner_type id)
api_entity-Makes apis queues owner_type id o section d h = record {
  declared = subst (λ t. IsDeclared t d) (sym h.of_section) h;
  no_suite = refl;
  owned = ground arith;
}

queue_entity-Makes :
    (apis queues : List String) (id : String)
    → has_owner queues (some id) ≡ true
    → Makes apis queues (queue_entity id)
queue_entity-Makes apis queues id o section d h = record {
  declared = subst (λ t. IsDeclared t d) (sym h.of_section) h;
  no_suite = refl;
  owned = ground arith;
}

-- The keys of one list are among those of another.
abbrev Within : List String → List String → Type 0
Within ids = All (λ id. has_owner ids (some id) ≡ true)

Within-cons : (id : String) (ids xs : List String) → Within ids xs → Within (id ∷ ids) xs
Within-cons id ids [] h = tt
Within-cons id ids (x ∷ xs) (h, hs) = (ground (arith, h), Within-cons id ids xs hs)

Within-self : (ids : List String) → Within ids ids
Within-self [] = tt
Within-self (id ∷ ids) = (ground arith, Within-cons id ids ids (Within-self ids))

module _ {Raw : Type 0} (convert : Raw → Result ConstantConfig) (new_id : ℕ → String) (no_cfg : Raw)
    (apis queues : List String) where
  section_rows-IsMockRow :
      (entity : PlannedDefinition → DefinitionEntity) (commands : List (RawCommand Raw))
      (section : String) (rows : List DefinitionEntity)
      → Makes apis queues entity
      → section_rows convert new_id no_cfg entity commands section ≡ ok rows
      → All (IsMockRow apis queues) rows
  unfolding section_rows
  section_rows-IsMockRow entity commands section rows m h =
      let (plan, e, f) =
        bind-eq-ok (plan_definitions_for_commands convert new_id commands section []) _ h in
      let declared = plan_definitions-IsDeclared convert new_id section commands [] plan e in
      subst (All (IsMockRow apis queues)) {x = entities entity plan.0} (ground arith)
        (entities-IsMockRow apis queues entity section plan.0 m declared)

  api_rows-IsMockRow :
      (api : MockApi Raw) (rows : List DefinitionEntity)
      → has_owner apis (some api.id) ≡ true
      → api_rows convert new_id no_cfg api ≡ ok rows
      → All (IsMockRow apis queues) rows
  unfolding api_rows
  api_rows-IsMockRow api rows o h =
      let (pre, e, f) = bind-eq-ok (pre_rows) _ h in
      let (post, g, k) = bind-eq-ok (post_rows) _ f in
      subst (All (IsMockRow apis queues)) {x = pre ++ post} (ground arith) (
        All-append _ pre post
          (section_rows-IsMockRow _ _ _ pre
            (api_entity-Makes apis queues owner_mock_api_pre api.id o) e)
          (section_rows-IsMockRow _ _ _ post
            (api_entity-Makes apis queues owner_mock_api_post api.id o) g))
    where
      pre_rows : Result (List DefinitionEntity)
      pre_rows =
          section_rows convert new_id no_cfg (api_entity owner_mock_api_pre api.id)
            (normalized_pre_commands convert new_id no_cfg api.pre_response_commands 1)
            mock_section_pre_response

      post_rows : Result (List DefinitionEntity)
      post_rows =
          section_rows convert new_id no_cfg (api_entity owner_mock_api_post api.id)
            (commands_for_item api.commands 1) mock_section_post_response

  rebuild_apis-rows :
      (list : List (MockApi Raw)) (table rows : List DefinitionEntity)
      (r : Rebuilt convert new_id no_cfg)
      → Within apis (api_ids list)
      → All (IsMockRow apis queues) rows
      → rebuild_apis convert new_id no_cfg list (table, rows) ≡ ok r
      → (r.0 ≡ keep (other_api (api_ids list)) table) × All (IsMockRow apis queues) r.1
  unfolding rebuild_apis
  rebuild_apis-rows [] table rows r w a h = (
    ap (λ p. p.0) (sym (ok_injective h)) ∙ sym (keep_all table),
    subst (λ p. All (IsMockRow apis queues) p.1) (ok_injective h) a,
  )
  rebuild_apis-rows (api ∷ list) table rows r (w, ws) a h =
      let (new, e, f) = bind-eq-ok (api_rows convert new_id no_cfg api) _ h in
      let (t, b) =
        rebuild_apis-rows list (delete_by_mock_server_api_id api.id table) (rows ++ new) r ws
          (All-append _ rows new a (api_rows-IsMockRow api new w e)) f in
      (
        t
            ∙ ap (keep (other_api (api_ids list))) (delete_api-keep api.id table)
            ∙ keep-keep _ _ _ table (λ e. ground arith),
        b,
      )

  rebuild_queues-rows :
      (list : List (MockQueue Raw)) (table rows : List DefinitionEntity)
      (r : Rebuilt convert new_id no_cfg)
      → Within queues (queue_ids list)
      → All (IsMockRow apis queues) rows
      → rebuild_queues convert new_id no_cfg list (table, rows) ≡ ok r
      → (r.0 ≡ keep (other_queue (queue_ids list)) table) × All (IsMockRow apis queues) r.1
  unfolding rebuild_queues queue_rows
  rebuild_queues-rows [] table rows r w a h = (
    ap (λ p. p.0) (sym (ok_injective h)) ∙ sym (keep_all table),
    subst (λ p. All (IsMockRow apis queues) p.1) (ok_injective h) a,
  )
  rebuild_queues-rows (queue ∷ list) table rows r (w, ws) a h =
      let (new, e, f) = bind-eq-ok (queue_rows convert new_id no_cfg queue) _ h in
      let (t, b) =
        rebuild_queues-rows list (delete_by_mock_server_queue_id queue.id table) (rows ++ new) r ws
          (All-append _ rows new a
            (section_rows-IsMockRow _ _ _ new (queue_entity-Makes apis queues queue.id w) e))
          f in
      (
        t
            ∙ ap (keep (other_queue (queue_ids list))) (delete_queue-keep queue.id table)
            ∙ keep-keep _ _ _ table (λ e. ground arith),
        b,
      )

-- Where the definitions of a mock server can be written, the table keeps exactly the rows that none
-- of its APIs and queues owns, and after these it has rows that one of them owns, each declared in a
-- scope that its section writes to.
pub rebuild_mock-rows :
    {Raw : Type 0} (convert : Raw → Result ConstantConfig) (new_id : ℕ → String) (no_cfg : Raw)
    (apis : List (MockApi Raw)) (queues : List (MockQueue Raw))
    (table after : List DefinitionEntity)
    → rebuild_mock_constant_definitions convert new_id no_cfg apis queues table ≡ ok after
    → (rows : List DefinitionEntity) × (after
        ≡ foreign_rows (api_ids apis) (queue_ids queues) table ++ rows)
      × All (IsMockRow (api_ids apis) (queue_ids queues)) rows
unfolding rebuild_mock_constant_definitions
rebuild_mock-rows convert new_id no_cfg apis queues table after h =
    let (r, e, f) = bind-eq-ok (rebuild_apis convert new_id no_cfg apis (table, [])) _ h in
    let (s, g, k) = bind-eq-ok (rebuild_queues convert new_id no_cfg queues r) _ f in
    let (t, a) =
      rebuild_apis-rows convert new_id no_cfg (api_ids apis) (queue_ids queues) apis table [] r
        (Within-self (api_ids apis)) tt e in
    let (u, b) =
      rebuild_queues-rows convert new_id no_cfg (api_ids apis) (queue_ids queues) queues r.0 r.1 s
        (Within-self (queue_ids queues)) a g in
    (
      s.1,
      sym (ok_injective k)
          ∙ ap (◌++ s.1) (
              u ∙ ap (keep (other_queue (queue_ids queues))) t ∙ keep-keep _ _ _ table (λ e. refl)),
      b,
    )
