-- ===== src/Prelude/Segments.antt =====
-- strings.Split at slashes and strings.TrimPrefix, over code points.
use Prim.Native.Char.{Char, code}
use Prim.Native.String.{String}
use mathlib.Core.Path.{◌≡◌, refl, sym, ap, ap₂, ◌∙◌}
use mathlib.Core.Logic.{inl, inr}
use mathlib.Core.Bool.{Bool, true, false}
use mathlib.Core.Option.{Option, none, some}
use mathlib.Core.List.{List, [], ◌∷◌}
use native.Mathlib.Omega.{arith}
use text.Mathlib.TextEquality.{Char-path}
use text.Mathlib.TextLemmas.{nil-append, cons-append}
use game_server_orchestrator.Prelude.Tests.{◌==◌, if◌then◌else◌, Bool-cases}
use game_server_orchestrator.Prelude.Lists.{All}
use game_server_orchestrator.Prelude.Text.{◌<>◌}

abbrev is_slash : Char → Bool
is_slash c = code c == b'/'

abbrev push_head : Char → List String → List String
push_head c [] = (String.◌∷◌ c String.[]) ∷ []
push_head c (part ∷ parts) = String.◌∷◌ c part ∷ parts

-- strings.Split(s, "/")
unfoldable pub split_slash : String → List String
split_slash String.[] = "" ∷ []
split_slash (String.◌∷◌ c s) =
    let rest = split_slash s in if is_slash c then "" ∷ rest else push_head c rest

-- What follows a prefix.
unfoldable pub strip_prefix : String → String → Option String
strip_prefix String.[] s = some s
strip_prefix (String.◌∷◌ c p) String.[] = none
strip_prefix (String.◌∷◌ c p) (String.◌∷◌ d s) =
    let rest = strip_prefix p s in if code c == code d then rest else none

-- strings.TrimPrefix(s, p)
unfoldable pub trim_prefix : String → String → String
trim_prefix s p = elim (strip_prefix p s) [ none ↦ s | some rest ↦ rest ]

abbrev pub NoSlash : String → Type 0
NoSlash String.[] = Unit
NoSlash (String.◌∷◌ c s) = (is_slash c ≡ false) × NoSlash s

-- The parts of a text, joined by slashes.
abbrev pub join_slash : List String → String
join_slash [] = ""
join_slash (part ∷ []) = part
join_slash (part ∷ next ∷ parts) = part <> ("/" <> join_slash (next ∷ parts))

slash-append : (t : String) → "/" <> t ≡ String.◌∷◌ "/" t
slash-append t = cons-append "/" String.[] t ∙ ap (String.◌∷◌ "/") (nil-append t)

code_same : (c : Char) → (code c == code c) ≡ true
code_same c = ground arith

split_slash-NoSlash : (s : String) → NoSlash s → split_slash s ≡ s ∷ []
unfolding split_slash
split_slash-NoSlash String.[] h = refl
split_slash-NoSlash (String.◌∷◌ c s) (h, k) = rw (h, split_slash-NoSlash s k) refl

-- A part without a slash and a slash after it come off the front.
pub split_slash-append :
    (s t : String) → NoSlash s → split_slash (s <> ("/" <> t)) ≡ s ∷ split_slash t
unfolding split_slash
split_slash-append String.[] t h = ap split_slash (nil-append ("/" <> t) ∙ slash-append t)
split_slash-append (String.◌∷◌ c s) t (h, k) =
    ap split_slash (cons-append c s ("/" <> t)) ∙ rw (h, split_slash-append s t k) refl

pub strip_prefix-append : (p s : String) → strip_prefix p (p <> s) ≡ some s
unfolding strip_prefix
strip_prefix-append String.[] s = ap some (nil-append s)
strip_prefix-append (String.◌∷◌ c p) s =
    ap (strip_prefix (String.◌∷◌ c p)) (cons-append c p s)
    ∙ rw (code_same c, strip_prefix-append p s) refl

pub strip_prefix-some : (p s t : String) → strip_prefix p s ≡ some t → s ≡ p <> t
unfolding strip_prefix
strip_prefix-some String.[] s t e = cc e ∙ sym (nil-append t)
strip_prefix-some (String.◌∷◌ c p) String.[] t e = absurd (cc e)
strip_prefix-some (String.◌∷◌ c p) (String.◌∷◌ d s) t e = elim (Bool-cases (code c == code d)) [
  | inl same ↦
      ap₂ String.◌∷◌ (sym (Char-path c d (ground (arith, same))))
        (strip_prefix-some p s t (rw same at e))
      ∙ sym (cons-append c p t)
  | inr other ↦ absurd (cc (rw other at e))
]

push_head-NoSlash :
    (c : Char) (parts : List String)
    → is_slash c ≡ false
    → All NoSlash parts
    → All NoSlash (push_head c parts)
push_head-NoSlash c [] h a = ((h, tt), tt)
push_head-NoSlash c (part ∷ parts) h (b, a) = ((h, b), a)

pub split_slash-parts : (s : String) → All NoSlash (split_slash s)
unfolding split_slash
split_slash-parts String.[] = (tt, tt)
split_slash-parts (String.◌∷◌ c s) = elim (Bool-cases (is_slash c)) [
  | inl e ↦ simp (e, split_slash) (tt, split_slash-parts s)
  | inr e ↦ simp (e, split_slash) (push_head-NoSlash c (split_slash s) e (split_slash-parts s))
]

push_head_cons :
    (c : Char) (parts : List String)
    → (q : String) × (qs : List String) × (push_head c parts ≡ q ∷ qs)
push_head_cons c [] = (String.◌∷◌ c String.[], [], refl)
push_head_cons c (part ∷ parts) = (String.◌∷◌ c part, parts, refl)

split_slash_cons : (s : String) → (q : String) × (qs : List String) × (split_slash s ≡ q ∷ qs)
unfolding split_slash
split_slash_cons String.[] = ("", [], refl)
split_slash_cons (String.◌∷◌ c s) = elim (Bool-cases (is_slash c)) [
  | inl e ↦ simp (e, split_slash) ("", split_slash s, refl)
  | inr e ↦ simp (e, split_slash) (push_head_cons c (split_slash s))
]

join_slash-push_head :
    (c : Char) (parts : List String)
    → join_slash (push_head c parts) ≡ String.◌∷◌ c (join_slash parts)
join_slash-push_head c [] = refl
join_slash-push_head c (part ∷ []) = refl
join_slash-push_head c (part ∷ next ∷ parts) = cons-append c part ("/" <> join_slash (next ∷ parts))

join_slash_nil :
    (s : String) → join_slash ("" ∷ split_slash s) ≡ String.◌∷◌ "/" (join_slash (split_slash s))
join_slash_nil s =
    let (q, qs, e) = split_slash_cons s in
    rw e (nil-append ("/" <> join_slash (q ∷ qs)) ∙ slash-append (join_slash (q ∷ qs)))

-- Splitting loses nothing.
pub join_slash-split_slash : (s : String) → join_slash (split_slash s) ≡ s
unfolding split_slash
join_slash-split_slash String.[] = refl
join_slash-split_slash (String.◌∷◌ c s) = elim (Bool-cases (is_slash c)) [
  | inl e ↦
      simp (e, split_slash)
        (join_slash_nil s
          ∙ ap₂ String.◌∷◌ (sym (Char-path c "/" (ground (arith, e)))) (join_slash-split_slash s))
  | inr e ↦
      simp (e, split_slash)
        (join_slash-push_head c (split_slash s) ∙ ap (String.◌∷◌ c) (join_slash-split_slash s))
]
