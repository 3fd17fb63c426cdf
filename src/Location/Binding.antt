-- ===== src/Location/Binding.antt =====
-- internal/signaling/location/binding.go
use switchboard.Prelude.{
  ℕ, ◌-◌, Bool, true, false, not, ◌&&◌, Option, none, some, List, [], ◌∷◌, ◌++◌, ltb, if◌then◌else◌,
  has_prefix, without, sprint_int, length, ℤ, ltz, ◌==◌, Str, codes, pos, str_eq, nat_eq,
}

pub data BindingSource : Type 0 where
  sip api : BindingSource

-- A float32; a finite one is a multiple of 2 ^ -149, and both zeros are 0.
pub data Float32 : Type 0 where
  nan minus_infinity plus_infinity : Float32
  finite : ℤ → Float32

-- p < q
abbrev pub ltf : Float32 → Float32 → Bool
ltf nan q = false
ltf minus_infinity minus_infinity = false
ltf minus_infinity nan = false
ltf minus_infinity _ = true
ltf plus_infinity q = false
ltf (finite a) (finite b) = ltz a b
ltf (finite a) plus_infinity = true
ltf (finite a) _ = false

abbrev pub is_zero_f : Float32 → Bool
is_zero_f (finite (pos n)) = n == 0
is_zero_f _ = false

pub record Binding : Type 0 where
  pub aor : Str
  pub binding_id : Str
  pub contact_uri : Str
  pub received_ip : Str
  pub received_port : ℕ
  pub transport : Str
  pub path : List Str
  pub instance_id : Str
  pub q_value : Float32
  pub expires : ℤ
  pub expires_at : ℕ
  pub registered_at : ℕ
  pub call_id : Str
  pub cseq : ℕ  -- uint32
  pub user_agent : Str
  pub source : BindingSource
  pub external_proxy : Str

-- `GenerateBindingID`, over the hash of the bytes in hexadecimal.
unfoldable pub generate_binding_id : (Str → Str) → Str → Str → Str
generate_binding_id hash contact_uri instance_id =
    if instance_id == [] then hash contact_uri else hash (contact_uri ++ (codes ";" ++ instance_id))

-- `Binding.IsExpired`
abbrev pub is_expired : ℕ → Binding → Bool
is_expired now b = ltb b.expires_at now

-- `Binding.TTL`: nanoseconds until the expiry, 0 after it.
abbrev pub ttl : ℕ → Binding → ℕ
ttl now b = b.expires_at - now

-- `Binding.ValidateCSeq`
abbrev pub validate_cseq : Binding → Str → ℕ → Bool
validate_cseq b call_id cseq = if not (b.call_id == call_id) then true else ltb b.cseq cseq

abbrev after_byte : ℕ → Option Str → Option Str
after_byte c none = none
after_byte c (some s) = some (c ∷ s)

-- What stands before the first `@`, if there is one.
abbrev pub before_at : Str → Option Str
before_at [] = none
before_at (c ∷ s) = let rest = after_byte c (before_at s) in if c == 64 then some [] else rest

abbrev pub without_scheme : Str → Str
without_scheme s =
    if ltb 4 (length s) && has_prefix (codes "sip:") s
    then without 4 s
    else if ltb 5 (length s) && has_prefix (codes "sips:") s
    then without 5 s
    else s

abbrev pub or_empty : Option Str → Str
or_empty none = []
or_empty (some s) = s

abbrev pub extract_user_from_uri : Str → Str
extract_user_from_uri uri = or_empty (before_at (without_scheme uri))

abbrev pub host_part : Binding → Str
host_part b =
    b.received_ip
    ++ (codes ":" ++ (sprint_int b.received_port ++ (codes ";transport=" ++ b.transport)))

-- `Binding.EffectiveContact`
unfoldable pub effective_contact : Binding → Str
effective_contact b =
    let user = extract_user_from_uri b.contact_uri in
    if not (b.received_ip == []) && ltb 0 b.received_port
    then if not (user == [])
      then codes "sip:" ++ (user ++ (codes "@" ++ host_part b))
      else codes "sip:" ++ host_part b
    else b.contact_uri
