-- ===== src/Api/Paths.antt =====
-- The paths of the status of a fleet.
use game_server_orchestrator.Prelude.{
  String, ◌≡◌, refl, sym, ap, ◌∙◌, ◌↔◌, some, List, [], ◌∷◌, inl, inr, Bool-cases, Option-cases,
  All, subst, arith,
}
use game_server_orchestrator.Prelude.Text.{str_eq, eq_iff, ◌<>◌}
use game_server_orchestrator.Prelude.Segments.{
  NoSlash, split_slash, strip_prefix, trim_prefix, join_slash, split_slash-append,
  split_slash-parts, strip_prefix-append, strip_prefix-some, join_slash-split_slash,
}
use game_server_orchestrator.Api.{to_status, route, fleets_prefix, status_parts, status_path}

-- The path of the status of a fleet.
abbrev pub path_of : String → String → String
path_of ns name = fleets_prefix <> (ns <> ("/" <> (name <> ("/" <> "status"))))

trim_prefix-append : (p s : String) → trim_prefix (p <> s) p ≡ s
unfolding trim_prefix
trim_prefix-append p s = rw (strip_prefix-append p s, trim_prefix) refl

status_path-path_of :
    (ns name : String) → NoSlash ns → NoSlash name → status_path (path_of ns name) ≡ some (ns, name)
unfolding status_path status_parts split_slash
status_path-path_of ns name h k =
    ap (λ s. status_parts (split_slash s))
      (trim_prefix-append fleets_prefix (ns <> ("/" <> (name <> ("/" <> "status")))))
    ∙ ap status_parts (
        split_slash-append ns (name <> ("/" <> "status")) h
        ∙ ap (◌∷◌ ns) (split_slash-append name "status" k))
    ∙ refl

-- Three parts whose last one is fixed.
status_parts-some :
    (parts : List String) (ns name : String)
    → status_parts parts ≡ some (ns, name)
    → parts ≡ ns ∷ name ∷ "status" ∷ []
unfolding status_parts
status_parts-some [] ns name e = absurd (cc e)
status_parts-some (a ∷ []) ns name e = absurd (cc e)
status_parts-some (a ∷ b ∷ []) ns name e = absurd (cc e)
status_parts-some (a ∷ b ∷ c ∷ []) ns name e = elim (Bool-cases (str_eq c "status")) [
  | inl same ↦ cc (rw same at e, (eq_iff c "status").0 same)
  | inr other ↦ absurd (cc (rw other at e))
]
status_parts-some (a ∷ b ∷ c ∷ d ∷ rest) ns name e = absurd (cc e)

-- A path that goes to the status handler has the prefix.
to_status_prefix :
    (path : String)
    → route path ≡ to_status
    → (rest : String) × (strip_prefix fleets_prefix path ≡ some rest)
unfolding route
to_status_prefix path e = elim (Option-cases (strip_prefix fleets_prefix path)) [
  | inr found ↦ found
  | inl missing ↦ absurd (ground (arith, missing, e))
]

trim_prefix-some : (p s rest : String) → strip_prefix p s ≡ some rest → trim_prefix s p ≡ rest
unfolding trim_prefix
trim_prefix-some p s rest e = rw (e, trim_prefix) refl

-- A path that is routed to the status handler is read as the namespace and the name of a fleet
-- exactly when it is the path of their status and neither holds a slash.
pub status_path_iff :
    (path ns name : String)
    → route path ≡ to_status
    → (status_path path ≡ some (ns, name)) ↔ ((path ≡ path_of ns name) × NoSlash ns × NoSlash name)
unfolding status_path
status_path_iff path ns name r = (
  λ e.
      let (rest, pre) = to_status_prefix path r in
      let three : split_slash rest ≡ ns ∷ name ∷ "status" ∷ [] =
        ap split_slash (sym (trim_prefix-some fleets_prefix path rest pre))
        ∙ status_parts-some (split_slash (trim_prefix path fleets_prefix)) ns name e in
      let (ns_part, (name_part, _)) = subst (All NoSlash) three (split_slash-parts rest) in
      (
        strip_prefix-some fleets_prefix path rest pre
            ∙ ap (λ t. fleets_prefix <> t)
                (sym (join_slash-split_slash rest) ∙ ap join_slash three),
        ns_part,
        name_part,
      ),
  λ (here, ns_part, name_part). ap status_path here ∙ status_path-path_of ns name ns_part name_part,
)
