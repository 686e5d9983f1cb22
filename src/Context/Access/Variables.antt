-- ===== src/Context/Access/Variables.antt =====
-- Variables that are set and read again, and what a test may write to.
use quality_flow.Base.{
  ℕ, ◌≡◌, refl, sym, ap, ◌∙◌, ◌≢◌, true, false, String, ◌<>◌, none, some, List, [], ◌∷◌, arith, inl,
  inr, Bool-cases, if◌then◌else◌, ◌==◌, text_dec, ok,
}
use quality_flow.Base.Dict.{Dict, lookup, insert, lookup-insert_self}
use quality_flow.Base.Text.{strip}
use quality_flow.Context.Store.{Value, ref, dict, Store, put}
use quality_flow.Context.Paths.{root_of, to_index, path_tokens, extract_context_root}
use quality_flow.Context.Paths.Names.{
  IsPlain, path_tokens-local, path_tokens-global, path_tokens-local_global,
}
use quality_flow.Context.Assign.{assign_nested_value, assign_last, descend}
use quality_flow.Context.Record.{RunContext, kind_test}
use quality_flow.Context.Access.{
  target_from_root, write_root, write_context_path, set_context_var, resolve_constant_value,
  constants_of, immutable_error,
}

-- A key that is one token of a path and no index of a list.
pub record IsName (k : String) : Type 0 where
  pub is_plain : IsPlain k
  pub no_index : to_index k ≡ none

-- The scope at an address is a dict, and its constants are a dict of their own at `a`.
pub record HasConstants (s : Store) (scope a : ℕ) : Type 0 where
  pub scope_items : Dict Value
  pub scope_cell : s.cell scope ≡ some (dict scope_items)
  pub entry : lookup "constants" scope_items ≡ some (ref a)
  pub items : Dict Value
  pub items_cell : s.cell a ≡ some (dict items)
  pub apart : a ≢ scope

constants_index : to_index "constants" ≡ none
unfolding to_index strip
constants_index = refl

module _ (s : Store) (scope a : ℕ) (h : HasConstants s scope a) (k : String) (v : Value)
    (n : to_index k ≡ none) where
  assign-constant :
      assign_nested_value (ref scope) ("constants" ∷ k ∷ []) v s
      ≡ (ok tt, put a (dict (insert k v h.items)) s)
  unfolding assign_nested_value descend assign_last
  assign-constant = ground (arith, constants_index)

global_index : to_index "global" ≡ none
unfolding to_index strip
global_index = refl

assign-below_global :
    (s : Store) (scope global a : ℕ) (d : Dict Value) (h : HasConstants s global a) (k : String)
    (v : Value)
    → to_index k ≡ none
    → s.cell scope ≡ some (dict d)
    → lookup "global" d ≡ some (ref global)
    → assign_nested_value (ref scope) ("global" ∷ "constants" ∷ k ∷ []) v s
      ≡ (ok tt, put a (dict (insert k v h.items)) s)
unfolding assign_nested_value descend assign_last
assign-below_global s scope global a d h k v n e f = ground (arith, constants_index, global_index)

module _ (s : Store) (scope a : ℕ) (h : HasConstants s scope a) (k : String) (v : Value) where
  -- After the write the scope's constants are the old ones with the new one put in.
  constants_of-put : constants_of (put a (dict (insert k v h.items)) s) scope ≡ insert k v h.items
  constants_of-put = ground arith

-- Once its tokens are known, a path's root decides where the write goes.
module _ (c : RunContext) (s : Store) (path : String) (v : Value) where
  write-root :
      (token root : String) (tokens : List String)
      → path_tokens path ≡ ok (token ∷ tokens)
      → root_of (strip token) ≡ some root
      → immutable_error c root ≡ none
      → write_context_path (some c) path v s ≡ write_root c root tokens v s
  unfolding write_context_path extract_context_root
  write-root token root tokens e f g = ground arith

module _ (c : RunContext) (s : Store) (k : String) (v : Value) (n : IsName k) where
  write-local :
      (a : ℕ) (h : HasConstants s c.local_scope a)
      → write_context_path (some c) ("$.local.constants." <> k) v s
        ≡ (ok tt, put a (dict (insert k v h.items)) s)
  unfolding write_root target_from_root text_dec strip
  write-local a h =
      write-root c s _ v "local" "local" _ (path_tokens-local k n.is_plain) refl refl
      ∙ assign-constant s c.local_scope a h k v n.no_index

  write-global :
      (a : ℕ) (h : HasConstants s c.global_scope a)
      → (c.current_item_kind == kind_test) ≡ false
      → write_context_path (some c) ("$.global.constants." <> k) v s
        ≡ (ok tt, put a (dict (insert k v h.items)) s)
  unfolding write_root target_from_root text_dec strip
  write-global a h hook =
      write-root c s _ v "global" "global" _ (path_tokens-global k n.is_plain) refl (rw hook)
      ∙ assign-constant s c.global_scope a h k v n.no_index

  -- In any context, a test's too, the scope below `local` is written to.
  write-local_global :
      (a : ℕ) (h : HasConstants s c.global_scope a)
      → (d : Dict Value) → s.cell c.local_scope ≡ some (dict d)
      → lookup "global" d ≡ some (ref c.global_scope)
      → write_context_path (some c) ("$.local.global.constants." <> k) v s
        ≡ (ok tt, put a (dict (insert k v h.items)) s)
  unfolding write_root target_from_root text_dec strip
  write-local_global a h d e f =
      write-root c s _ v "local" "local" _ (path_tokens-local_global k n.is_plain) refl refl
      ∙ assign-below_global s c.local_scope c.global_scope a d h k v n.no_index e f

  -- The key of a variable is put into its scope's path.
  set-local :
      (a : ℕ) (h : HasConstants s c.local_scope a)
      → set_context_var (some c) k v "local" s ≡ (ok tt, put a (dict (insert k v h.items)) s)
  unfolding set_context_var strip ◌<>◌ text_dec
  set-local a h = rw (n.is_plain.stripped, n.is_plain.non_empty) (write-local a h)

  set-auto_test :
      (a : ℕ) (h : HasConstants s c.local_scope a)
      → (c.current_item_kind == kind_test) ≡ true
      → set_context_var (some c) k v "auto" s ≡ (ok tt, put a (dict (insert k v h.items)) s)
  unfolding set_context_var strip ◌<>◌ text_dec
  set-auto_test a h test = rw (n.is_plain.stripped, n.is_plain.non_empty, test) (write-local a h)

  set-auto_hook :
      (a : ℕ) (h : HasConstants s c.global_scope a)
      → (c.current_item_kind == kind_test) ≡ false
      → set_context_var (some c) k v "auto" s ≡ (ok tt, put a (dict (insert k v h.items)) s)
  unfolding set_context_var strip ◌<>◌ text_dec
  set-auto_hook a h hook =
      rw (n.is_plain.stripped, n.is_plain.non_empty, hook) (write-global a h hook)

module _ (c : RunContext) (s : Store) (k : String) (v : Value) (n : IsName k) where
  -- What the name resolves to where the local scope has it.
  resolve_of_local :
      lookup k (constants_of s c.local_scope) ≡ some v → resolve_constant_value (some c) k s ≡ v
  unfolding resolve_constant_value
  resolve_of_local e = rw (n.is_plain.stripped, n.is_plain.non_empty) (ground arith)

-- A variable that is set in the local scope is what its name then resolves to, whatever the other
-- scopes hold under that name, if the scope has a dict of constants of its own and the key is one
-- token of a path and no index.
pub set_context_var-resolve :
    (c : RunContext) (s : Store) (k : String) (v : Value) (a : ℕ)
    → IsName k
    → HasConstants s c.local_scope a
    → let (r, s') = set_context_var (some c) k v "local" s in
      (r ≡ ok tt) × (resolve_constant_value (some c) k s' ≡ v)
set_context_var-resolve c s k v a n h = rw (set-local c s k v n a h) (
  refl,
  resolve_of_local c _ k v n
      (ap (lookup k) (constants_of-put s c.local_scope a h k v) ∙ lookup-insert_self k v h.items),
)

-- The dicts of constants of the local and the global scope, at `a` and `b`, are apart.
pub record HasScopes (c : RunContext) (s : Store) (a b : ℕ) : Type 0 where
  pub local_own : HasConstants s c.local_scope a
  pub global_own : HasConstants s c.global_scope b
  pub constants_apart : a ≢ b
  pub local_apart : b ≢ c.local_scope
  pub global_apart : a ≢ c.global_scope

-- A write to an address apart from a scope and its constants changes none of the constants.
constants_of-put_ne :
    (s : Store) (scope a b : ℕ) (h : HasConstants s scope a) (d : Dict Value)
    → b ≢ scope
    → b ≢ a
    → constants_of (put b (dict d) s) scope ≡ constants_of s scope
constants_of-put_ne s scope a b h d ne ne' = ground arith

-- Where the key is plain text that is one token of a path and no index, and the local and the global
-- scope have dicts of constants of their own, apart from each other, the scope `auto` is the local one
-- in a test and the global one in a hook: the variable is put there, and the other scope keeps its
-- constants.
pub set_context_var-auto :
    (c : RunContext) (s : Store) (k : String) (v : Value) (a b : ℕ)
    → IsName k
    → HasScopes c s a b
    → let (r, s') = set_context_var (some c) k v "auto" s in
      let test = c.current_item_kind == kind_test in
      (r ≡ ok tt)
      × (lookup k (constants_of s' (if test then c.local_scope else c.global_scope)) ≡ some v)
      × (constants_of s' (if test then c.global_scope else c.local_scope)
          ≡ constants_of s (if test then c.global_scope else c.local_scope))
set_context_var-auto c s k v a b n h = elim (Bool-cases (c.current_item_kind == kind_test)) [
  | inl test ↦
      rw (set-auto_test c s k v n a h.local_own test, test)
        (
          refl,
          ap (lookup k) (constants_of-put s _ a h.local_own k v) ∙ lookup-insert_self k v _,
          constants_of-put_ne s c.global_scope b a h.global_own _ h.global_apart h.constants_apart,
        )
  | inr hook ↦
      rw (set-auto_hook c s k v n b h.global_own hook, hook)
        (
          refl,
          ap (lookup k) (constants_of-put s _ b h.global_own k v) ∙ lookup-insert_self k v _,
          constants_of-put_ne s c.local_scope a b h.local_own _ h.local_apart
              (λ e. h.constants_apart (sym e)),
        )
]

-- A test writes to the global constants through the local scope: where the local scope refers to
-- the global one, the path of a name below both is written to in every context, and the name is
-- then found among the global constants.
pub write_context_path-bypass :
    (c : RunContext) (s : Store) (k : String) (v : Value) (a b : ℕ) (d : Dict Value)
    → IsName k
    → HasConstants s c.global_scope b
    → s.cell c.local_scope ≡ some (dict d)
    → lookup "global" d ≡ some (ref c.global_scope)
    → let (r, s') = write_context_path (some c) ("$.local.global.constants." <> k) v s in
      (r ≡ ok tt) × (lookup k (constants_of s' c.global_scope) ≡ some v)
write_context_path-bypass c s k v a b d n h e f =
    rw (write-local_global c s k v n b h d e f)
      (refl, ap (lookup k) (constants_of-put s _ b h k v) ∙ lookup-insert_self k v _)
