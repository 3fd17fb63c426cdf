-- ===== src/Dialplan/Tests.antt =====
-- A dialplan with three routes, and the theorems at it.
use switchboard.Prelude.{
  ℕ, ◌≡◌, refl, sym, ◌⊎◌, inl, inr, true, false, none, some, List, [], ◌∷◌, arith, if◌then◌else◌,
  Bool-cases, ℤ, ltz, ◌==◌, Str, codes, pos, negsuc, str_eq, nat_eq,
}
use switchboard.GoMap
use switchboard.Dialplan.{
  Route, ActionConfig, Dialplan, parsed, reload, route_match, compile, less, dialplan_match,
  validate, list_match, validate_all,
}
use switchboard.Dialplan.Actions.{
  ActionRegistry, Decoder, new_play_audio_action, new_dial_action, create_action,
}
use switchboard.Dialplan.Executor.{
  CallSession, execute_route, execute_from, execute_step, execute_action, substitute_vars,
  action_failed, RangeOrder, by_cdi, by_idc,
}
use switchboard.Dialplan.Loading.{In, Sorted, IsSort, Reloads, reload_lem, AllRaw}

-- An insertion sort by `Less`.
abbrev insert : Route → List Route → List Route
insert r [] = r ∷ []
insert r (s ∷ ss) = let rest = insert r ss in if less s r then s ∷ rest else r ∷ s ∷ ss

abbrev insertion_sort : List Route → List Route
insertion_sort [] = []
insertion_sort (r ∷ rs) = insert r (insertion_sort rs)

insert-kept : (r x : Route) (ss : List Route) → In x (insert r ss) → (r ≡ x) ⊎ In x ss
insert-kept r x [] h = h
insert-kept r x (s ∷ ss) h = ground (arith, h, insert-kept r x ss)

insert-found : (r x : Route) (ss : List Route) → (r ≡ x) ⊎ In x ss → In x (insert r ss)
insert-found r x [] h = h
insert-found r x (s ∷ ss) h = ground (arith, h, insert-found r x ss)

ltz_asym : (a b : ℤ) → ltz a b ≡ true → ltz b a ≡ false
ltz_asym (pos a) (pos b) h = ground (arith, h)
ltz_asym (pos a) (negsuc b) h = ground (arith, h)
ltz_asym (negsuc a) (pos b) h = refl
ltz_asym (negsuc a) (negsuc b) h = ground (arith, h)

ge_trans : (a b c : ℤ) → ltz a b ≡ false → ltz b c ≡ false → ltz a c ≡ false
ge_trans (pos a) (pos b) (pos c) h g = ground (arith, h, g)
ge_trans (pos a) (pos b) (negsuc c) h g = refl
ge_trans (pos a) (negsuc b) (pos c) h g = ground (arith, h, g)
ge_trans (pos a) (negsuc b) (negsuc c) h g = refl
ge_trans (negsuc a) (pos b) c h g = absurd (ground (arith, h))
ge_trans (negsuc a) (negsuc b) (pos c) h g = absurd (ground (arith, g))
ge_trans (negsuc a) (negsuc b) (negsuc c) h g = ground (arith, h, g)

insert-Sorted : (r : Route) (ss : List Route) → Sorted ss → Sorted (insert r ss)
insert-Sorted r [] v = (λ s h. absurd h, tt)
insert-Sorted r (s ∷ ss) (h, v) = elim (Bool-cases (less s r)) [
  | inl e ↦ rw e (
    λ x i. elim (insert-kept r x ss i) [
      | inl j ↦ rw (sym j) (ltz_asym s.priority r.priority e)
      | inr j ↦ h x j
    ],
    insert-Sorted r ss v,
  )
  | inr e ↦ rw e (
    λ x i. elim i [
      | inl j ↦ rw (sym j) e
      | inr j ↦ ge_trans x.priority s.priority r.priority (h x j) e
    ],
    (h, v),
  )
]

sort-Sorted : (rs : List Route) → Sorted (insertion_sort rs)
sort-Sorted [] = tt
sort-Sorted (r ∷ rs) = insert-Sorted r (insertion_sort rs) (sort-Sorted rs)

sort-kept : (x : Route) (rs : List Route) → In x (insertion_sort rs) → In x rs
sort-kept x [] h = h
sort-kept x (r ∷ rs) h = elim (insert-kept r x (insertion_sort rs) h) [
  | inl j ↦ inl j
  | inr j ↦ inr (sort-kept x rs j)
]

sort-found : (x : Route) (rs : List Route) → In x rs → In x (insertion_sort rs)
sort-found x [] h = h
sort-found x (r ∷ rs) h =
    insert-found r x (insertion_sort rs)
      (elim h [ inl j ↦ inl j | inr j ↦ inr (sort-found x rs j) ])

insertion_sort-IsSort : IsSort insertion_sort
insertion_sort-IsSort = record { sorted = sort-Sorted; kept = sort-kept; found = sort-found }

abbrev hangup_now : ActionConfig
hangup_now = record { action_type = codes "hangup"; params = [] }

abbrev route_with : Str → Str → ℕ → Route
route_with id pattern priority = record {
  id = id;
  name = id;
  pattern_text = pattern;
  priority = pos priority;
  enabled = true;
  actions = hangup_now ∷ [];
  is_default = false;
  is_prefix = false;
  prefix_part = [];
  exact = [];
}

abbrev any_route : Route
any_route = route_with (codes "any") (codes "*") 9

abbrev local_route : Route
local_route = route_with (codes "local") (codes "10*") 5

abbrev echo_route : Route
echo_route = route_with (codes "echo") (codes "1001") 1

abbrev config : List Route
config = any_route ∷ local_route ∷ echo_route ∷ []

abbrev unloaded : Dialplan
unloaded = record { routes = none }

echo_matched :
    dialplan_match (codes "1001") (reload insertion_sort (parsed config) unloaded).0
    ≡ some (compile echo_route)
unfolding dialplan_match reload validate_all validate compile list_match route_match
echo_matched = refl

local_matched :
    dialplan_match (codes "1002") (reload insertion_sort (parsed config) unloaded).0
    ≡ some (compile local_route)
unfolding dialplan_match reload validate_all validate compile list_match route_match
local_matched = refl

config-AllRaw : AllRaw config
config-AllRaw r (inl e) = (rw (sym e) refl, rw (sym e) refl)
config-AllRaw r (inr (inl e)) = (rw (sym e) refl, rw (sym e) refl)
config-AllRaw r (inr (inr (inl e))) = (rw (sym e) refl, rw (sym e) refl)
config-AllRaw r (inr (inr (inr e))) = absurd e

reload_lem_example :
    Reloads (parsed config) unloaded (reload insertion_sort (parsed config) unloaded)
reload_lem_example =
    reload_lem insertion_sort (parsed config) unloaded insertion_sort-IsSort config-AllRaw

-- A session that records its calls, on which a dial fails.
abbrev recorder : CallSession (List Str)
recorder = record {
  destination = λ s. codes "1001";
  caller_id = λ s. codes "2000";
  call_id = λ s. codes "c1";
  is_terminated = λ s. false;
  context_err = λ s. none;
  play_audio = λ file s. (file ∷ s, none);
  dial = λ target timeout s. (target ∷ s, some (codes "busy"));
  hangup = λ reason s. (reason ∷ s, none);
}

-- It takes the raw parameters themselves for a file or a target.
abbrev plain : Decoder
plain = record {
  dial_params = λ raw. some (raw, pos 0);
  hangup_params = λ raw. some raw;
  play_audio_params = λ raw. some raw;
}

abbrev plain_registry : ActionRegistry
plain_registry = record {
  factories =
      (codes "play_audio", new_play_audio_action plain)
      ∷ (codes "dial", new_dial_action plain)
      ∷ [];
}

abbrev play_then_dial : Route
play_then_dial = record (route_with (codes "r") (codes "*") 0) {
  actions =
      record { action_type = codes "play_audio"; params = codes "hello.wav" }
      ∷ record { action_type = codes "dial"; params = codes "user/${destination}" }
      ∷ hangup_now
      ∷ [];
}

abbrev some_order : ℕ → RangeOrder
some_order i = if i == 0 then by_cdi else by_idc

dial_failed : execute_route recorder plain_registry some_order play_then_dial [] ≡ (
  codes "user/1001" ∷ codes "hello.wav" ∷ [],
  some (record {
    route_id = codes "r";
    completed_steps = 1;
    total_steps = 3;
    failed_action = codes "dial";
    cause = action_failed (codes "busy");
  }),
)
unfolding execute_route execute_from execute_step execute_action substitute_vars create_action
    new_dial_action new_play_audio_action GoMap.get
dial_failed = refl
