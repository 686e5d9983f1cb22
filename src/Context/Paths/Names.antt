-- ===== src/Context/Paths/Names.antt =====
-- The tokens of a path that ends in a plain name.
use Prim.Native.Char.{Char, code}
use quality_flow.Base.{
  ◌≡◌, refl, sym, ap, ◌∙◌, Bool, true, false, ◌&&◌, not, String, ◌<>◌, [], ◌∷◌, arith, ◌==ℕ◌, ok,
}
use quality_flow.Base.Text.{
  is_empty, strip, lstrip, rstrip, push, rstrip-append, append-nil, append_assoc,
}
use quality_flow.Context.Paths.{segment_loop, keep, segment_tokens, split_dots, path_tokens}

abbrev is_plain_char : Char → Bool
is_plain_char c = not (code c ==ℕ b'.') && not (code c ==ℕ b'[') && not (code c ==ℕ b']')

abbrev has_plain_chars : String → Bool
has_plain_chars String.[] = true
has_plain_chars (String.◌∷◌ c s) = is_plain_char c && has_plain_chars s

-- A name with no dot and no bracket, not blank at its ends, and not empty.
pub record IsPlain (s : String) : Type 0 where
  pub plain : has_plain_chars s ≡ true
  pub stripped : strip s ≡ s
  pub non_empty : is_empty s ≡ false

split_dots-plain : (s : String) → has_plain_chars s ≡ true → split_dots s ≡ s ∷ []
unfolding split_dots
split_dots-plain String.[] h = refl
split_dots-plain (String.◌∷◌ c s) h = ground (arith, split_dots-plain s)

plain-open :
    (c : Char) (s : String) → has_plain_chars (String.◌∷◌ c s) ≡ true → (code c ==ℕ b'[') ≡ false
plain-open c s h = ground arith

plain-close :
    (c : Char) (s : String) → has_plain_chars (String.◌∷◌ c s) ≡ true → (code c ==ℕ b']') ≡ false
plain-close c s h = ground arith

plain-tail :
    (c : Char) (s : String) → has_plain_chars (String.◌∷◌ c s) ≡ true → has_plain_chars s ≡ true
plain-tail c s h = ground arith

segment_loop-plain :
    (s b : String) → has_plain_chars s ≡ true → segment_loop s [] b false ≡ keep (b <> s) []
unfolding segment_loop ◌<>◌
segment_loop-plain String.[] b h = rw (append-nil b)
segment_loop-plain (String.◌∷◌ c s) b h =
    rw (plain-open c s h, plain-close c s h)
      (segment_loop-plain s (push b c) (plain-tail c s h)
        ∙ ap (λ t. keep t []) (append_assoc b (String.◌∷◌ c String.[]) s))

segment_tokens-plain : (s : String) → IsPlain s → segment_tokens s ≡ s ∷ []
unfolding segment_tokens ◌<>◌
segment_tokens-plain s p = rw (p.stripped, segment_loop-plain s "" p.plain, p.non_empty)

rstrip-rstrip : (s : String) → rstrip (rstrip s) ≡ rstrip s
unfolding rstrip
rstrip-rstrip String.[] = refl
rstrip-rstrip (String.◌∷◌ c s) = ground (arith, rstrip-rstrip s)

rstrip_of_strip : (s : String) → strip s ≡ s → rstrip s ≡ s
unfolding strip
rstrip_of_strip s h = ap rstrip (sym h) ∙ rstrip-rstrip (lstrip s) ∙ h

tokens_of_local : segment_tokens "local" ≡ "local" ∷ []
unfolding segment_tokens strip ◌<>◌
tokens_of_local = refl

tokens_of_global : segment_tokens "global" ≡ "global" ∷ []
unfolding segment_tokens strip ◌<>◌
tokens_of_global = refl

tokens_of_constants : segment_tokens "constants" ≡ "constants" ∷ []
unfolding segment_tokens strip ◌<>◌
tokens_of_constants = refl

module _ (k : String) (p : IsPlain k) where
  -- A blank is taken off neither end of a path that begins with `$` and ends in a plain name.
  strip-path : (s : String) → lstrip (s <> k) ≡ s <> k → strip (s <> k) ≡ s <> k
  unfolding strip
  strip-path s h = rw h (rstrip-append s k (rstrip_of_strip k p.stripped) p.non_empty)

  -- The path of a scope's constant has three tokens.
  pub path_tokens-local :
      path_tokens ("$.local.constants." <> k) ≡ ok ("local" ∷ "constants" ∷ k ∷ [])
  unfolding path_tokens ◌<>◌ lstrip
  path_tokens-local = rw (
    strip-path "$.local.constants." refl,
    split_dots-plain k p.plain,
    segment_tokens-plain k p,
    tokens_of_local,
    tokens_of_constants,
  )

  pub path_tokens-global :
      path_tokens ("$.global.constants." <> k) ≡ ok ("global" ∷ "constants" ∷ k ∷ [])
  unfolding path_tokens ◌<>◌ lstrip
  path_tokens-global = rw (
    strip-path "$.global.constants." refl,
    split_dots-plain k p.plain,
    segment_tokens-plain k p,
    tokens_of_global,
    tokens_of_constants,
  )

  pub path_tokens-local_global :
      path_tokens ("$.local.global.constants." <> k)
      ≡ ok ("local" ∷ "global" ∷ "constants" ∷ k ∷ [])
  unfolding path_tokens ◌<>◌ lstrip
  path_tokens-local_global = rw (
    strip-path "$.local.global.constants." refl,
    split_dots-plain k p.plain,
    segment_tokens-plain k p,
    tokens_of_local,
    tokens_of_global,
    tokens_of_constants,
  )
