-- ===== src/Dialplan/Matching.antt =====
-- Patterns as globs, and what a loaded dialplan answers.
use switchboard.Prelude.{
  ℕ, ◌≡◌, refl, sym, ◌∙◌, ◌↔◌, ◌⊎◌, inl, inr, Bool, true, false, ◌&&◌, [], ◌∷◌, ◌++◌, arith,
  if◌then◌else◌, Bool-cases, has_prefix, has_suffix, trim_suffix, has_prefix_split,
  has_prefix-append, trim_suffix-append, has_suffix-append, ◌==◌, eq_iff, Str, codes, str_eq,
  nat_eq,
}
use switchboard.Dialplan.{Route, compile, route_match}

-- What a pattern stands for: a pattern that ends in a star for all that begins as it does before the
-- star, any other for itself.
abbrev pub Globs : Str → Str → Type 0
Globs pattern destination =
    ((p : Str) × (rest : Str) × (pattern ≡ p ++ codes "*") × (destination ≡ p ++ rest))
    ⊎ ((has_suffix (codes "*") pattern ≡ false) × (destination ≡ pattern))

-- A route as the parser leaves it.
abbrev pub IsRaw : Route → Type 0
IsRaw r = (r.is_default ≡ false) × (r.is_prefix ≡ false)

append_inj : (p q : Str) (c : ℕ) → p ++ c ∷ [] ≡ q ++ c ∷ [] → p ≡ q
append_inj [] [] c h = refl
append_inj [] (x ∷ []) c h = absurd (ground (arith, h))
append_inj [] (x ∷ y ∷ q) c h = absurd (ground (arith, h))
append_inj (x ∷ []) [] c h = absurd (ground (arith, h))
append_inj (x ∷ y ∷ p) [] c h = absurd (ground (arith, h))
append_inj (x ∷ p) (y ∷ q) c h = ground (arith, h, append_inj p q c)

abbrev text_match : Str → Str → Bool
text_match pattern destination =
    if pattern == codes "*"
    then true
    else if has_suffix (codes "*") pattern
    then has_prefix (trim_suffix (codes "*") pattern) destination
    else destination == pattern

compile-match :
    (d : Str) (r : Route)
    → IsRaw r
    → route_match d (compile r) ≡ (r.enabled && text_match r.pattern_text d)
unfolding compile route_match
compile-match d r w = ground (arith, w)

text_match-Globs : (p d : Str) → text_match p d ≡ true → Globs p d
text_match-Globs p d h = elim (Bool-cases (p == codes "*")) [
  | inl e ↦ inl ([], d, ground (arith, e, eq_iff p (codes "*")), refl)
  | inr e ↦ elim (Bool-cases (has_suffix (codes "*") p)) [
    | inl s ↦
        let (rest, f) = has_prefix_split (trim_suffix (codes "*") p) d (ground (arith, h, e, s)) in
        inl (trim_suffix (codes "*") p, rest, trim_suffix-append (codes "*") p s, f)
    | inr s ↦ inr (s, ground (arith, h, e, s, eq_iff d p))
  ]
]

Globs-text_match : (p d : Str) → Globs p d → text_match p d ≡ true
Globs-text_match p d (inr (s, e)) = ground (arith, s, e, eq_iff d p)
Globs-text_match p d (inl (q, rest, e, f)) =
    let s : has_suffix (codes "*") p ≡ true = rw e (has_suffix-append (codes "*") q) in
    let same : trim_suffix (codes "*") p ≡ q =
      append_inj (trim_suffix (codes "*") p) q 42 (sym (trim_suffix-append (codes "*") p s) ∙ e) in
    let m : has_prefix (trim_suffix (codes "*") p) d ≡ true =
      rw (same, f) (has_prefix-append q rest) in
    ground (arith, s, m)

-- A route matches a destination exactly where it is enabled and its pattern, read as a glob, covers
-- the destination.
pub route_match_lem :
    (d : Str) (r : Route)
    → IsRaw r
    → (route_match d (compile r) ≡ true) ↔ ((r.enabled ≡ true) × Globs r.pattern_text d)
route_match_lem d r w = (
  λ h. (
    ground (arith, h, compile-match d r w),
    text_match-Globs r.pattern_text d (ground (arith, h, compile-match d r w)),
  ),
  λ (e, g). ground (arith, e, compile-match d r w, Globs-text_match r.pattern_text d g),
)
