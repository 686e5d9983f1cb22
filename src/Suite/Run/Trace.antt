-- ===== src/Suite/Run/Trace.antt =====
-- What a run leaves in the table of item executions, by the rows that each part of it adds.
use mathlib.Core.List.{append-nil, append_assoc}
use quality_flow.Base.{
  ℕ, suc, ◌+◌, ◌≡◌, refl, sym, ap, subst, ◌∙◌, Bool, false, ◌||◌, String, Option, none, some, List,
  [], ◌∷◌, ◌++◌, length, length-append, get_elem?-last, set-last, All, All-append, arith, Result,
  ok, err,
}
use quality_flow.Base.Dict.{Dict}
use quality_flow.Base.Text.{or_else}
use quality_flow.Context.Store.{Value}
use quality_flow.Context.Record.{Memory}
use quality_flow.Command.Policy.{CommandConfig}
use quality_flow.Command.Runtime.{ExecutionContext}
use quality_flow.Command.Execute.{status_of, ExecutionResult}
use quality_flow.Suite.Item.{SuiteItem}
use quality_flow.Suite.ItemRun.{
  ItemExecution, World, execute_item, new_item_execution, finish_item_execution, finished,
}
use quality_flow.Suite.Run.{Run, SuiteInput, note_failure, has_failed, run_visible, run_item}

abbrev pub rows_of : Run → List ItemExecution
rows_of r = r.world.item_executions

-- Whether a row has an error.
abbrev pub any_failed : List ItemExecution → Bool
any_failed [] = false
any_failed (row ∷ rows) = has_failed row.error_message || any_failed rows

abbrev pub message_of : Option String → String
message_of none = ""
message_of (some e) = e

-- The first message that is not empty.
abbrev pub first_message : List ItemExecution → String
first_message [] = ""
first_message (row ∷ rows) = or_else (message_of row.error_message) (first_message rows)

-- The positions count up from a number.
abbrev pub IsNumbered : ℕ → List ItemExecution → Type 0
IsNumbered n [] = Unit
IsNumbered n (row ∷ rows) = (row.position ≡ n) × IsNumbered (suc n) rows

-- A row that is no longer running: its status tells whether it has an error.
abbrev pub IsFinished : ItemExecution → Type 0
IsFinished row = row.status ≡ status_of row.error_message

-- What rows a part of a run has added, and how its variables follow them.
pub record Added (r : Run) (new : List ItemExecution) (r' : Run) : Type 0 where
  pub rows : rows_of r' ≡ rows_of r ++ new
  pub position : r'.execution_position ≡ r.execution_position + length new
  pub numbered : IsNumbered (suc r.execution_position) new
  pub all_finished : All IsFinished new
  pub failed : r'.any_error ≡ (r.any_error || any_failed new)
  pub message : r'.first_error_message ≡ or_else r.first_error_message (first_message new)

pub any_failed-append :
    (xs ys : List ItemExecution) → any_failed (xs ++ ys) ≡ (any_failed xs || any_failed ys)
any_failed-append [] ys = refl
any_failed-append (x ∷ xs) ys = ground (arith, any_failed-append xs ys)

or_else_assoc : (a b c : String) → or_else (or_else a b) c ≡ or_else a (or_else b c)
or_else_assoc String.[] b c = refl
or_else_assoc (String.◌∷◌ x a) b c = refl

or_else-nil : (a : String) → or_else a "" ≡ a
or_else-nil String.[] = refl
or_else-nil (String.◌∷◌ x a) = refl

first_message-append :
    (xs ys : List ItemExecution)
    → first_message (xs ++ ys) ≡ or_else (first_message xs) (first_message ys)
first_message-append [] ys = refl
first_message-append (x ∷ xs) ys =
    rw (first_message-append xs ys) (sym (or_else_assoc (message_of x.error_message) _ _))

IsNumbered-append :
    (n : ℕ) (xs ys : List ItemExecution)
    → IsNumbered n xs
    → IsNumbered (n + length xs) ys
    → IsNumbered n (xs ++ ys)
IsNumbered-append n [] ys h k = subst (λ m. IsNumbered m ys) (omega arith) k
IsNumbered-append n (x ∷ xs) ys (e, h) k =
    (e, IsNumbered-append (suc n) xs ys h (subst (λ m. IsNumbered m ys) (omega arith) k))

-- Two parts of a run, one after the other.
pub Added-trans :
    {r r' r'' : Run} {xs ys : List ItemExecution}
    → Added r xs r'
    → Added r' ys r''
    → Added r (xs ++ ys) r''
Added-trans {r} {r'} {r''} {xs} {ys} h k = record {
  rows = k.rows ∙ ap (λ t. t ++ ys) h.rows ∙ append_assoc (rows_of r) xs ys;
  position = omega (arith, h.position, k.position, length-append xs ys);
  numbered =
      IsNumbered-append _ xs ys h.numbered
        (subst (λ m. IsNumbered m ys) (omega (arith, h.position)) k.numbered);
  all_finished = All-append IsFinished xs ys h.all_finished k.all_finished;
  failed = ground (arith, any_failed-append xs ys);
  message =
      k.message
      ∙ ap (λ t. or_else t (first_message ys)) h.message
      ∙ or_else_assoc r.first_error_message (first_message xs) (first_message ys)
      ∙ ap (or_else r.first_error_message) (sym (first_message-append xs ys));
}

-- A part that adds no row and leaves the variables alone.
pub Added-nil :
    (r r' : Run)
    → rows_of r' ≡ rows_of r
    → r'.execution_position ≡ r.execution_position
    → r'.any_error ≡ r.any_error
    → r'.first_error_message ≡ r.first_error_message
    → Added r [] r'
Added-nil r r' rows position failed message = record {
  rows = rows ∙ sym (append-nil (rows_of r));
  position = omega (arith, position);
  numbered = tt;
  all_finished = tt;
  failed = ground arith;
  message = message ∙ sym (or_else-nil r.first_error_message);
}

finish-last :
    (failure : Option String) (xs : List ItemExecution) (row : ItemExecution)
    → finish_item_execution failure (length xs) (xs ++ (row ∷ []))
      ≡ xs ++ (finished failure row ∷ [])
unfolding finish_item_execution
finish-last failure xs row = rw (get_elem?-last xs row) (set-last xs row (finished failure row))

module _ {Config : Type 0} (convert : Config → Result CommandConfig)
    (execute_operation : String → CommandConfig → Value → Memory → Result ExecutionResult × Memory)
    (env : ExecutionContext) (execution : ℕ) where
  -- An item adds one row: its own, finished.
  execute_item-rows :
      (item : SuiteItem Config) (position : ℕ) (local_vars sources : Value) (w : World)
      → let (failure, w') =
          execute_item convert execute_operation env execution item position local_vars sources w in
        w'.item_executions
        ≡ w.item_executions ++ (finished failure (new_item_execution execution item position) ∷ [])
  unfolding execute_item
  execute_item-rows item position local_vars sources w = finish-last _ w.item_executions _

  module _ (suite : SuiteInput Config) where
    -- What an item that was not kept from starting has added.
    unfoldable pub ItemAdded : SuiteItem Config → Run → Result (Option String) × Run → Type 0
    ItemAdded item r (err e, r') = Unit
    ItemAdded item r (ok failure, r') =
        (row : ItemExecution) × (row.suite_item_id ≡ item.id)
        × (row.error_message ≡ failure)
        × Added r (row ∷ []) r'

    added_noted :
        (item : SuiteItem Config) (r : Run) (w : World) (failure : Option String)
        → w.item_executions
          ≡ rows_of r
            ++ (finished failure (new_item_execution execution item (suc r.execution_position))
                ∷ [])
        → ItemAdded item r (
          ok failure,
          note_failure failure
              (record r { world = w; execution_position = suc r.execution_position }),
        )
    unfolding ItemAdded new_item_execution
    added_noted item r w none e = (
      finished none (new_item_execution execution item (suc r.execution_position)),
      refl,
      refl,
      record {
        rows = e;
        position = omega arith;
        numbered = (refl, tt);
        all_finished = (refl, tt);
        failed = ground arith;
        message = sym (or_else-nil r.first_error_message);
      },
    )
    added_noted item r w (some m) e = (
      finished (some m) (new_item_execution execution item (suc r.execution_position)),
      refl,
      refl,
      record {
        rows = e;
        position = omega arith;
        numbered = (refl, tt);
        all_finished = (refl, tt);
        failed = ground arith;
        message = ap (or_else r.first_error_message) (sym (or_else-nil m));
      },
    )

    run_visible-adds :
        (item : SuiteItem Config) (local_vars : Value) (r : Run) (visible : Result (Dict Value))
        → ItemAdded item r
            (run_visible convert execute_operation env execution suite item local_vars r visible)
    unfolding run_visible
    run_visible-adds item local_vars r (err e) = unfold ItemAdded in tt
    run_visible-adds item local_vars r (ok visible) =
        added_noted item r _ _ (execute_item-rows item (suc r.execution_position) local_vars _ _)

    -- An item that was not kept from starting adds its own row.
    pub run_item-adds :
        (item : SuiteItem Config) (local_vars : Value) (r : Run)
        → ItemAdded item r
            (run_item convert execute_operation env execution suite item local_vars r)
    unfolding run_item
    run_item-adds item local_vars r = run_visible-adds item local_vars r _
