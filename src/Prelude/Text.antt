-- ===== src/Prelude/Text.antt =====
-- What the source uses of Go's package strings.
use Prim.Native.Nat.{ℕ, zero, suc, ◌+◌, ◌-◌, ◌/◌, ◌%◌}
use mathlib.Core.Path.{◌≡◌, refl}
use mathlib.Core.Logic.{inl, inr}
use mathlib.Core.Bool.{Bool, true, false, ◌&&◌}
use mathlib.Core.List.{[], ◌∷◌, ◌++◌}
use native.Mathlib.Omega.{arith}
use switchboard.Prelude.Tests.{if◌then◌else◌, Bool-cases, ltb}
use switchboard.Prelude.Lists.{length}
use switchboard.Prelude.Classes.{Str, ◌==◌, eq_iff, beq_refl, nat_eq, str_eq}

-- strings.HasPrefix(s, prefix), with the prefix first
abbrev pub has_prefix : Str → Str → Bool
has_prefix [] s = true
has_prefix (p ∷ ps) [] = false
has_prefix (p ∷ ps) (c ∷ s) = (p == c) && has_prefix ps s

-- strings.HasSuffix(s, suffix), with the suffix first
abbrev pub has_suffix : Str → Str → Bool
has_suffix suffix [] = suffix == []
has_suffix suffix (c ∷ s) = let rest = has_suffix suffix s in if suffix == c ∷ s then true else rest

-- strings.TrimSuffix(s, suffix), with the suffix first
abbrev pub trim_suffix : Str → Str → Str
trim_suffix suffix [] = []
trim_suffix suffix (c ∷ s) =
    let rest = trim_suffix suffix s in if suffix == c ∷ s then [] else c ∷ rest

-- strings.ReplaceAll(s, old, new) for an `old` that is not empty; `skip` bytes of an occurrence are
-- still to be left out.
abbrev pub replace_from : ℕ → Str → Str → Str → Str
replace_from skip old new [] = []
replace_from (suc k) old new (c ∷ s) = replace_from k old new s
replace_from zero old new (c ∷ s) =
    let found = new ++ replace_from (length old - 1) old new s in
    let rest = c ∷ replace_from zero old new s in if has_prefix old (c ∷ s) then found else rest

abbrev pub replace_all : Str → Str → Str → Str
replace_all old new s = replace_from zero old new s

-- s[n:], where s has as many bytes
abbrev pub without : ℕ → Str → Str
without zero s = s
without (suc n) [] = []
without (suc n) (c ∷ s) = without n s

-- fmt.Sprintf("%d", n), with fuel for its digits
abbrev pub digits : ℕ → ℕ → Str
digits zero n = []
digits (suc f) n =
    let front = digits f (n / 10) in if ltb n 10 then (48 + n) ∷ [] else front ++ (48 + n % 10) ∷ []

abbrev pub sprint_int : ℕ → Str
sprint_int n = digits (suc n) n

-- A string has a prefix exactly where it is the prefix with something behind it.
pub has_prefix_split : (p s : Str) → has_prefix p s ≡ true → (rest : Str) × (s ≡ p ++ rest)
has_prefix_split [] s h = (s, refl)
has_prefix_split (p ∷ ps) [] h = absurd (ground (arith, h))
has_prefix_split (p ∷ ps) (c ∷ s) h =
    let (rest, e) = has_prefix_split ps s (ground (arith, h)) in
    (rest, ground (arith, e, h, eq_iff p c))

pub has_prefix-append : (p rest : Str) → has_prefix p (p ++ rest) ≡ true
has_prefix-append [] rest = refl
has_prefix-append (p ∷ ps) rest = ground (arith, has_prefix-append ps rest, beq_refl p)

-- A string that has a suffix is what the trimming leaves, with the suffix.
pub trim_suffix-append :
    (suffix s : Str) → has_suffix suffix s ≡ true → s ≡ trim_suffix suffix s ++ suffix
trim_suffix-append suffix [] h = ground (arith, eq_iff suffix [])
trim_suffix-append suffix (c ∷ s) h = elim (Bool-cases (suffix == c ∷ s)) [
  | inl e ↦ ground (arith, e, eq_iff suffix (c ∷ s))
  | inr e ↦ ground (arith, e, h, trim_suffix-append suffix s)
]

pub has_suffix-append : (suffix s : Str) → has_suffix suffix (s ++ suffix) ≡ true
has_suffix-append [] [] = refl
has_suffix-append (c ∷ cs) [] = ground (arith, beq_refl (c ∷ cs))
has_suffix-append suffix (d ∷ s) = ground (arith, has_suffix-append suffix s)
