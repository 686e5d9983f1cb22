-- ===== src/Context/Binding/Restore.antt =====
-- What a suite item leaves of the binding that it ran in.
use quality_flow.Base.{ℕ, ◌≡◌, ◌≢◌, String, Option, some, arith, Result}
use quality_flow.Base.Dict.{Dict, lookup-insert_self}
use quality_flow.Context.Store.{Value, ref, dict, Store, dict_at, get_item}
use quality_flow.Context.Record.{Memory, dict_or_new}
use quality_flow.Context.Binding.{enter_suite_item, bind_suite_item_context}

dict_or_new_dict :
    (s : Store) (a : ℕ) (d : Dict Value)
    → s.cell a ≡ some (dict d)
    → dict_or_new (ref a) s ≡ (ref a, s)
unfolding dict_or_new
dict_or_new_dict s a d e = ground arith

-- Whatever the body does and however it ends, the kind of item, the hook phase and the visible
-- sources are those of before, and the local scope holds the dict of constants that it held, if
-- the body has left these two dicts dicts and the context's local scope where it was.
pub bind_suite_item_context-restores :
    {A : Type 0} (kind : String) (phase : Option String) (vars sources : Option Value)
    (body : Memory → Result A × Memory) (m : Memory) (a b : ℕ) (d e : Dict Value)
    → let (r, inner) = body (enter_suite_item kind phase vars sources m) in
      get_item m.store m.context.local_scope "constants" ≡ ref a
      → m.context.visible_sources ≡ ref b
      → inner.context.local_scope ≡ m.context.local_scope
      → inner.store.cell a ≡ some (dict d)
      → inner.store.cell b ≡ some (dict e)
      → b ≢ m.context.local_scope
      → let (r', m') = bind_suite_item_context kind phase vars sources body m in
        (r' ≡ r)
        × (m'.context.current_item_kind ≡ m.context.current_item_kind)
        × (m'.context.current_hook_phase ≡ m.context.current_hook_phase)
        × (m'.context.visible_sources ≡ m.context.visible_sources)
        × (get_item m'.store m.context.local_scope "constants" ≡ ref a)
unfolding bind_suite_item_context dict_or_new
bind_suite_item_context-restores kind phase vars sources body m a b d e h1 h2 h3 h4 h5 h6 =
    let inner = (body (enter_suite_item kind phase vars sources m)).1 in
    ground (
      arith,
      lookup-insert_self "constants" (ref a) (dict_at inner.store inner.context.local_scope),
    )
