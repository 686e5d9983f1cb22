-- ===== src/Context/Binding.antt =====
-- What is bound for the time of one suite item, and what is put back after it.
pub mod Restore
use quality_flow.Base.{ℕ, String, Option, none, some, [], Result}
use quality_flow.Base.Text.{strip, lower, or_else, or_empty, or_none}
use quality_flow.Context.Store.{Value, null, ref, dict, Store, alloc, get_item, set_item}
use quality_flow.Context.Record.{Memory, last_dict, dict_or_new}

abbrev set_local_constants : Option Value → ℕ → Store → Store
set_local_constants none scope s = s
set_local_constants (some v) scope s = set_item scope "constants" v s

abbrev given_or : Option Value → Value → Value
given_or none v = v
given_or (some w) v = w

-- The part of `bind_suite_item_context` before the `yield`.
unfoldable pub enter_suite_item :
    String → Option String → Option Value → Option Value → Memory → Memory
enter_suite_item item_kind hook_phase local_vars visible_sources m = record {
  context = record c {
    current_item_kind = lower (strip (or_else item_kind c.current_item_kind));
    current_hook_phase = or_none (lower (strip (or_empty hook_phase)));
    visible_sources = given_or visible_sources c.visible_sources;
  };
  store = set_local_constants local_vars c.local_scope m.store;
}
  where
    open m use {context as c}

-- Its `finally`: `before` is the memory in which it was entered.
unfoldable pub exit_suite_item : Memory → Memory → Memory
unfolding dict_or_new
exit_suite_item before m =
    let (constants, s1) =
      dict_or_new (get_item before.store before.context.local_scope "constants") m.store in
    let s2 = set_item m.context.local_scope "constants" constants s1 in
    let (sources, s3) = dict_or_new before.context.visible_sources s2 in
    record {
      context = record c {
        current_item_kind = before.context.current_item_kind;
        current_hook_phase = before.context.current_hook_phase;
        visible_sources = sources;
      };
      store = s3;
    }
  where
    open m use {context as c}

-- `with bind_suite_item_context(…): body`, the body's exception passed on.
unfoldable pub bind_suite_item_context {ℓ} :
    {A : Type ℓ}
    → String
    → Option String
    → Option Value
    → Option Value
    → (Memory → Result A × Memory)
    → Memory
    → Result A × Memory
unfolding enter_suite_item exit_suite_item
bind_suite_item_context item_kind hook_phase local_vars visible_sources body m =
    let (r, m') = body (enter_suite_item item_kind hook_phase local_vars visible_sources m) in
    (r, exit_suite_item m m')

-- `reset_local_context`
unfoldable pub reset_local_context : Memory → Memory
reset_local_context m =
    let (constants, s1) = alloc (dict []) m.store in
    let (last, s2) =
      alloc (last_dict "" null) (set_item c.local_scope "constants" (ref constants) s1) in
    record { context = record c { last = ref last }; store = s2 }
  where
    open m use {context as c}

-- `set_context_last`
unfoldable pub set_context_last : String → Value → Memory → Memory
set_context_last item_id data_value m =
    let (last, s) = alloc (last_dict (strip item_id) data_value) m.store in
    record { context = record c { last = ref last }; store = s }
  where
    open m use {context as c}
