-- ===== src/Dialplan/Loading.antt =====
-- What a dialplan that was loaded from a file answers.
use switchboard.Prelude.{
  ℕ, suc, ◌+◌, ◌≡◌, refl, sym, ap, ◌∙◌, ◌≢◌, ◌↔◌, ◌⊎◌, inl, inr, true, false, Option, none, some,
  List, [], ◌∷◌, arith, Bool-cases, get_elem?, ℤ, ltz, eq_iff, Str, pos, negsuc, str_eq, nat_eq,
}
use mathlib.Core.Path.{subst}
use switchboard.Dialplan.{
  cannot_read, cannot_parse, read_failed, parse_failed, Route, RouteErr, Dialplan, Err, Loaded,
  parsed, compile, validate, route_match, list_match, less, validate_all, validated_with, swapped,
  reload, dialplan_match, invalid_route, ActionConfig, no_actions, id_required, pattern_required,
  action_required,
}
use switchboard.Dialplan.Matching.{Globs, IsRaw, route_match_lem}

-- Membership, by recursion.
abbrev pub In : Route → List Route → Type 0
In r [] = ⊥
In r (x ∷ xs) = (x ≡ r) ⊎ In r xs

-- No route is after one with a greater priority number.
abbrev pub Sorted : List Route → Type 0
Sorted [] = Unit
Sorted (r ∷ rs) = ((s : Route) → In s rs → less s r ≡ false) × Sorted rs

-- What `sort.Sort` guarantees: it permutes the list, in some order that is sorted.
pub record IsSort (sort : List Route → List Route) : Type 0 where
  pub sorted : (rs : List Route) → Sorted (sort rs)
  pub kept : (r : Route) (rs : List Route) → In r (sort rs) → In r rs
  pub found : (r : Route) (rs : List Route) → In r rs → In r (sort rs)

-- The first match of a list, among all.
abbrev pub Best : Str → List Route → Option Route → Type 0
Best d rs none = (s : Route) → In s rs → route_match d s ≡ false
Best d rs (some r) =
    In r rs
    × (route_match d r ≡ true)
    × ((s : Route) → In s rs → route_match d s ≡ true → less s r ≡ false)

less_irrefl : (r s : Route) → r ≡ s → less s r ≡ false
less_irrefl r s e = rw e (ltz_irrefl s.priority)
  where
    ltz_irrefl : (a : ℤ) → ltz a a ≡ false
    ltz_irrefl (pos n) = ground arith
    ltz_irrefl (negsuc n) = ground arith

list_match-Best : (d : Str) (rs : List Route) → Sorted rs → Best d rs (list_match d rs)
unfolding list_match
list_match-Best d [] s = λ r h. absurd h
list_match-Best d (x ∷ xs) (h, s) = elim (Bool-cases (route_match d x)) [
  | inl e ↦ rw e (inl refl, e, λ r i m. elim i [ inl j ↦ less_irrefl x r j | inr j ↦ h r j ])
  | inr e ↦ rw e (later (list_match d xs) e (list_match-Best d xs s))
]
  where
    later : (o : Option Route) → route_match d x ≡ false → Best d xs o → Best d (x ∷ xs) o
    later none e b =
        λ r i. elim i [ inl j ↦ subst (λ y. route_match d y ≡ false) j e | inr j ↦ b r j ]
    later (some r) e b = (
      inr b.0,
      b.1,
      λ t i m. elim i [
        | inl j ↦ absurd (ground (arith, m, e, ap (route_match d) j))
        | inr j ↦ b.2 t j m
      ],
    )

validate-compile : (r c : Route) → validate r ≡ inr c → c ≡ compile r
unfolding validate
validate-compile r c h = ground (arith, h)

-- What each error of a validation says of its route; the first that applies is reported.
abbrev pub Flaw : Route → RouteErr → Type 0
Flaw r id_required = r.id ≡ []
Flaw r pattern_required = (r.id ≢ []) × (r.pattern_text ≡ [])
Flaw r action_required = (r.id ≢ []) × (r.pattern_text ≢ []) × (r.actions ≡ [])

abbrev pub IsValid : Route → Type 0
IsValid r = (r.id ≢ []) × (r.pattern_text ≢ []) × (r.actions ≢ [])

no_actions_iff : (bs : List ActionConfig) → (no_actions bs ≡ true) ↔ (bs ≡ [])
no_actions_iff [] = (λ e. refl, λ e. refl)
no_actions_iff (a ∷ rest) = (λ e. absurd (ground (arith, e)), λ e. absurd (ground (arith, e)))

validate-Flaw : (r : Route) (x : RouteErr) → validate r ≡ inl x → Flaw r x
unfolding validate
validate-Flaw r id_required h = ground (arith, h, eq_iff r.id [])
validate-Flaw r pattern_required h = ground (arith, h, eq_iff r.id [], eq_iff r.pattern_text [])
validate-Flaw r action_required h =
    ground (arith, h, eq_iff r.id [], eq_iff r.pattern_text [], no_actions_iff r.actions)

validate-IsValid : (r c : Route) → validate r ≡ inr c → IsValid r
unfolding validate
validate-IsValid r c h =
    ground (arith, h, eq_iff r.id [], eq_iff r.pattern_text [], no_actions_iff r.actions)

-- What the validation of a list from an index gives.
abbrev Validates : ℕ → List Route → Err ⊎ List Route → Type 0
Validates i rs (inr cs) =
    ((c : Route) → In c cs → (r : Route) × In r rs × (c ≡ compile r))
    × ((r : Route) → In r rs → In (compile r) cs)
    × ((r : Route) → In r rs → IsValid r)
Validates i rs (inl (invalid_route j x)) =
    (k : ℕ) × (r : Route) × (j ≡ i + k) × (get_elem? rs k ≡ some r) × (validate r ≡ inl x)
Validates i rs (inl e) = ⊥

validated_with-Validates :
    (i : ℕ) (r : Route) (rs : List Route) (v : RouteErr ⊎ Route) (w : Err ⊎ List Route)
    → validate r ≡ v
    → Validates (suc i) rs w
    → Validates i (r ∷ rs) (validated_with i v w)
validated_with-Validates i r rs (inl x) w e h = (0, r, omega arith, refl, e)
validated_with-Validates i r rs (inr c) (inl (invalid_route j x)) e (k, s, a, b, f) =
    (suc k, s, omega (arith, a), b, f)
validated_with-Validates i r rs (inr c) (inl cannot_read) e h = absurd h
validated_with-Validates i r rs (inr c) (inl cannot_parse) e h = absurd h
validated_with-Validates i r rs (inr c) (inr cs) e (f, g, u) = (
  λ y m. elim m [
    | inl j ↦ (r, inl refl, sym j ∙ validate-compile r c e)
    | inr j ↦ let (s, a, b) = f y j in (s, inr a, b)
  ],
  λ s m. elim m [ inl j ↦ inl (validate-compile r c e ∙ ap compile j) | inr j ↦ inr (g s j) ],
  λ s m. elim m [ inl j ↦ subst IsValid j (validate-IsValid r c e) | inr j ↦ u s j ],
)

validate_all-Validates : (i : ℕ) (rs : List Route) → Validates i rs (validate_all i rs)
unfolding validate_all
validate_all-Validates i [] = (λ c m. absurd m, λ r m. absurd m, λ r m. absurd m)
validate_all-Validates i (r ∷ rs) =
    validated_with-Validates i r rs (validate r) (validate_all (suc i) rs) refl
      (validate_all-Validates (suc i) rs)

-- An enabled route whose pattern covers a destination.
abbrev pub Covers : Str → Route → Type 0
Covers d r = (r.enabled ≡ true) × Globs r.pattern_text d

-- The answer for a destination, in terms of the file: none only where no route covers it; otherwise
-- a compiled route that does, with no covering route of a lower priority number.
abbrev pub Answers : Str → List Route → Option Route → Type 0
Answers d cfg none = (r : Route) → In r cfg → ¬ Covers d r
Answers d cfg (some c) =
    (r : Route) × In r cfg
    × (c ≡ compile r)
    × Covers d r
    × ((s : Route) → In s cfg → Covers d s → less s r ≡ false)

compile-priority : (r : Route) → (compile r).priority ≡ r.priority
unfolding compile
compile-priority r = ground arith

compile-less : (r s : Route) → less (compile s) (compile r) ≡ less s r
compile-less r s = rw (compile-priority r, compile-priority s) refl

abbrev pub AllRaw : List Route → Type 0
AllRaw cfg = (r : Route) → In r cfg → IsRaw r

module _ (sort : List Route → List Route) (ok : IsSort sort) (cfg cs : List Route)
    (raw : AllRaw cfg)
    (v : ((c : Route) → In c cs → (r : Route) × In r cfg × (c ≡ compile r))
      × ((r : Route) → In r cfg → In (compile r) cs)) where
  Covers-match : (d : Str) (r : Route) → In r cfg → Covers d r → route_match d (compile r) ≡ true
  Covers-match d r m c = (route_match_lem d r (raw r m)).1 c

  Best-Answers : (d : Str) (o : Option Route) → Best d (sort cs) o → Answers d cfg o
  Best-Answers d none b = λ r m c.
      absurd
        (ground (arith, b (compile r) (ok.found (compile r) cs (v.1 r m)), Covers-match d r m c))
  Best-Answers d (some c) (i, m, best) =
      let (r, j, e) = v.0 c (ok.kept c cs i) in
      (
        r,
        j,
        e,
        (route_match_lem d r (raw r j)).0 (subst (λ y. route_match d y ≡ true) e m),
        λ s k h.
            sym (compile-less r s)
            ∙ subst (λ y. less (compile s) y ≡ false) e
                (best (compile s) (ok.found (compile s) cs (v.1 s k)) (Covers-match d s k h)),
      )

-- Why a file is refused: of its routes, one that is not valid, with its index.
abbrev pub Refused : Loaded → Err → Type 0
Refused read_failed e = e ≡ cannot_read
Refused parse_failed e = e ≡ cannot_parse
Refused (parsed cfg) (invalid_route j x) = (r : Route) × (get_elem? cfg j ≡ some r) × Flaw r x
Refused (parsed cfg) e = ⊥

abbrev pub Reloads : Loaded → Dialplan → Dialplan × Option Err → Type 0
Reloads file d (e, some x) = (e ≡ d) × Refused file x
Reloads read_failed d (e, none) = ⊥
Reloads parse_failed d (e, none) = ⊥
Reloads (parsed cfg) d (e, none) =
    ((r : Route) → In r cfg → IsValid r) × ((dest : Str) → Answers dest cfg (dialplan_match dest e))

abbrev pub RawFile : Loaded → Type 0
RawFile read_failed = Unit
RawFile parse_failed = Unit
RawFile (parsed cfg) = AllRaw cfg

swapped-Reloads :
    (sort : List Route → List Route) (cfg : List Route) (d : Dialplan) (w : Err ⊎ List Route)
    → IsSort sort
    → AllRaw cfg
    → Validates 0 cfg w
    → Reloads (parsed cfg) d (swapped sort w d)
unfolding dialplan_match
swapped-Reloads sort cfg d (inl (invalid_route j x)) ok raw (k, r, e, g, f) =
    (refl, (r, subst (λ i. get_elem? cfg i ≡ some r) (omega (arith, e)) g, validate-Flaw r x f))
swapped-Reloads sort cfg d (inl cannot_read) ok raw v = absurd v
swapped-Reloads sort cfg d (inl cannot_parse) ok raw v = absurd v
swapped-Reloads sort cfg d (inr cs) ok raw v = (
  v.2,
  λ dest.
      Best-Answers sort ok cfg cs raw (v.0, v.1) dest (list_match dest (sort cs))
        (list_match-Best dest (sort cs) (ok.sorted cs)),
)

-- `Reload`, for a sort that sorts. Where it fails, the old routes stay and the error says why: the
-- file cannot be read or parsed, or the route at the index lacks its ID, or has one and lacks its pattern, or has both and lacks an
-- action. Where it succeeds, no route lacks any of the three, and `Match`
-- answers from then on, for every destination, with a route of the file that is enabled and whose
-- pattern covers the destination, such that no other of these has a lower priority number; and with
-- none only where the file has no such route.
pub reload_lem :
    (sort : List Route → List Route) (file : Loaded) (d : Dialplan)
    → IsSort sort
    → RawFile file
    → Reloads file d (reload sort file d)
unfolding reload
reload_lem sort read_failed d ok raw = (refl, refl)
reload_lem sort parse_failed d ok raw = (refl, refl)
reload_lem sort (parsed cfg) d ok raw =
    swapped-Reloads sort cfg d (validate_all 0 cfg) ok raw (validate_all-Validates 0 cfg)
