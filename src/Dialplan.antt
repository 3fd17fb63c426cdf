-- ===== src/Dialplan.antt =====
-- internal/signaling/dialplan/route.go and dialplan.go: routes, their patterns and priorities, and
-- the loaded route list. What reading and parsing the file gives is an argument, and so is
-- `sort.Sort`, which need not be stable.
pub mod Matching
pub mod Loading
pub mod Actions
pub mod Executor
pub mod Execution
pub mod Registry
mod Tests
use switchboard.Prelude.{
  ℕ, suc, ◌⊎◌, inl, inr, Bool, true, false, not, Option, none, some, List, [], ◌∷◌, if◌then◌else◌,
  has_prefix, has_suffix, trim_suffix, length, ℤ, ltz, ◌==◌, Str, codes, str_eq, nat_eq,
}

-- The parameters are the raw JSON.
pub record ActionConfig : Type 0 where
  pub action_type : Str
  pub params : Str

pub record Route : Type 0 where
  pub id : Str
  pub name : Str
  pub pattern_text : Str
  pub priority : ℤ
  pub enabled : Bool
  pub actions : List ActionConfig
  -- The compiled pattern.
  pub is_default : Bool
  pub is_prefix : Bool
  pub prefix_part : Str
  pub exact : Str

pub data RouteErr : Type 0 where
  id_required pattern_required action_required : RouteErr

abbrev pub no_actions : List ActionConfig → Bool
no_actions [] = true
no_actions (a ∷ rest) = false

-- The second half of `Validate`.
unfoldable pub compile : Route → Route
compile r =
    if r.pattern_text == codes "*"
    then record r { is_default = true }
    else if has_suffix (codes "*") r.pattern_text
    then record r { is_prefix = true; prefix_part = trim_suffix (codes "*") r.pattern_text }
    else record r { exact = r.pattern_text }

-- `Route.Validate`: the compiled route or the error.
unfoldable pub validate : Route → RouteErr ⊎ Route
validate r =
    if r.id == []
    then inl id_required
    else if r.pattern_text == []
    then inl pattern_required
    else if no_actions r.actions
    then inl action_required
    else inr (compile r)

-- `Route.Match`
unfoldable pub route_match : Str → Route → Bool
route_match destination r =
    if not r.enabled
    then false
    else if r.is_default
    then true
    else if r.is_prefix
    then has_prefix r.prefix_part destination
    else destination == r.exact

-- `RouteList.Match`
unfoldable pub list_match : Str → List Route → Option Route
list_match destination [] = none
list_match destination (r ∷ rs) =
    let rest = list_match destination rs in if route_match destination r then some r else rest

-- `RouteList.Less`
abbrev pub less : Route → Route → Bool
less r s = ltz r.priority s.priority

pub record Dialplan : Type 0 where
  pub routes : Option (List Route)

-- What `os.ReadFile` and `json.Unmarshal` give. The routes are not compiled yet.
pub data Loaded : Type 0 where
  read_failed parse_failed : Loaded
  parsed : List Route → Loaded

pub data Err : Type 0 where
  cannot_read cannot_parse : Err
  invalid_route : ℕ → RouteErr → Err

abbrev pub validated_with : ℕ → RouteErr ⊎ Route → Err ⊎ List Route → Err ⊎ List Route
validated_with i (inl e) rest = inl (invalid_route i e)
validated_with i (inr r) (inl e) = inl e
validated_with i (inr r) (inr rs) = inr (r ∷ rs)

-- The loop of `Reload`, from an index.
unfoldable pub validate_all : ℕ → List Route → Err ⊎ List Route
validate_all i [] = inr []
validate_all i (r ∷ rs) = validated_with i (validate r) (validate_all (suc i) rs)

abbrev pub swapped : (List Route → List Route) → Err ⊎ List Route → Dialplan → Dialplan × Option Err
swapped sort (inl e) d = (d, some e)
swapped sort (inr rs) d = (record { routes = some (sort rs) }, none)

-- `Dialplan.Reload`
unfoldable pub reload : (List Route → List Route) → Loaded → Dialplan → Dialplan × Option Err
reload sort read_failed d = (d, some cannot_read)
reload sort parse_failed d = (d, some cannot_parse)
reload sort (parsed rs) d = swapped sort (validate_all 0 rs) d

abbrev pub match_in : Str → Option (List Route) → Option Route
match_in destination none = none
match_in destination (some rs) = list_match destination rs

-- `Dialplan.Match`
unfoldable pub dialplan_match : Str → Dialplan → Option Route
dialplan_match destination d = match_in destination d.routes

abbrev pub count_of : Option (List Route) → ℕ
count_of none = 0
count_of (some rs) = length rs

-- `Dialplan.RouteCount`
unfoldable pub route_count : Dialplan → ℕ
route_count d = count_of d.routes

abbrev pub first_load : Dialplan × Option Err → Err ⊎ Dialplan
first_load (d, none) = inr d
first_load (d, some e) = inl e

-- `New`
unfoldable pub new_dialplan : (List Route → List Route) → Loaded → Err ⊎ Dialplan
new_dialplan sort file = first_load (reload sort file (record { routes = none }))
