-- ===== src/Resolver/Tests.antt =====
-- A user with two phones, and the theorem at this user.
use switchboard.Prelude.{
  ◌≡◌, refl, ap, ◌≢◌, ◌↔◌, inl, inr, false, List, [], ◌∷◌, arith, if◌then◌else◌, Bool-cases, All, ℤ,
  ltz, ◌==◌, Str, codes, pos, negsuc, str_eq, nat_eq,
}
use switchboard.Location.Binding.{
  Binding, sip, effective_contact, Float32, ltf, nan, plus_infinity, finite, minus_infinity,
}
use switchboard.Resolver.{
  LocationStore, user_can_resolve, build_aor, lookup_bindings, user_resolve, chain_from,
  chain_resolve, default_resolver, of_binding, type_user, found,
}
use switchboard.Location.Store.Lookups.{ltf_asym}
use switchboard.Resolver.Resolving.{
  IsSort, Sorted, Same, Outcome, resolve_lem, is_nan_f, is_nan, NanFree,
}

abbrev phone : Str → ℤ → Binding
phone contact q = record {
  aor = codes "sip:alice@a";
  binding_id = contact;
  contact_uri = contact;
  received_ip = [];
  received_port = 0;
  transport = codes "UDP";
  path = [];
  instance_id = [];
  q_value = finite q;
  expires = pos 60;
  expires_at = 9;
  registered_at = 1;
  call_id = codes "c1";
  cseq = 1;
  user_agent = [];
  source = sip;
  external_proxy = [];
}

abbrev desk : Binding
desk = record (phone (codes "sip:alice@10.0.0.1") (pos 500)) {
  received_ip = codes "10.0.0.9";
  received_port = 5062;
}

abbrev mobile : Binding
mobile = phone (codes "sip:alice@10.0.0.2") (pos 900)

abbrev alice_at : LocationStore
alice_at = record {
  lookup = λ aor. if aor == codes "sip:alice@a" then desk ∷ mobile ∷ [] else [];
  lookup_by_user = λ user. [];
}

abbrev insert : Binding → List Binding → List Binding
insert b [] = b ∷ []
insert b (c ∷ cs) =
    let rest = insert b cs in if ltf b.q_value c.q_value then c ∷ rest else b ∷ c ∷ cs

abbrev sort : List Binding → List Binding
sort [] = []
sort (b ∷ bs) = insert b (sort bs)

inserted :
    (P : Binding → Type 0) (b : Binding) (cs : List Binding)
    → (P b × All P cs) ↔ All P (insert b cs)
inserted P b [] = (λ h. h, λ h. h)
inserted P b (c ∷ cs) = elim (Bool-cases (ltf b.q_value c.q_value)) [
  | inr e ↦ rw e (λ h. h, λ h. h)
  | inl e ↦
      let (into, back) = inserted P b cs in
      rw e (λ h. (h.1.0, into (h.0, h.1.1)), λ h. let (pb, rest) = back h.1 in (pb, (h.0, rest)))
]

ge_trans : (a b c : ℤ) → ltz a b ≡ false → ltz b c ≡ false → ltz a c ≡ false
ge_trans (pos a) (pos b) (pos c) h g = ground (arith, h, g)
ge_trans (pos a) b (negsuc c) h g = refl
ge_trans (pos a) (negsuc b) (pos c) h g = absurd (ground (arith, g))
ge_trans (negsuc a) (pos b) c h g = absurd (ground (arith, h))
ge_trans (negsuc a) (negsuc b) (pos c) h g = absurd (ground (arith, g))
ge_trans (negsuc a) (negsuc b) (negsuc c) h g = ground (arith, h, g)

not_below : (p q r : Float32) → q ≢ nan → ltf p q ≡ false → ltf q r ≡ false → ltf p r ≡ false
not_below (finite a) (finite b) (finite c) n h g = ge_trans a b c h g
not_below nan q r n h g = refl
not_below p nan r n h g = absurd (n refl)
not_below plus_infinity q r n h g = refl
not_below minus_infinity minus_infinity r n h g = g
not_below minus_infinity plus_infinity r n h g = absurd (ground (arith, h))
not_below minus_infinity (finite b) r n h g = absurd (ground (arith, h))
not_below (finite a) minus_infinity nan n h g = refl
not_below (finite a) minus_infinity minus_infinity n h g = refl
not_below (finite a) minus_infinity plus_infinity n h g = absurd (ground (arith, g))
not_below (finite a) minus_infinity (finite c) n h g = absurd (ground (arith, g))
not_below (finite a) plus_infinity r n h g = absurd (ground (arith, h))
not_below (finite a) (finite b) nan n h g = refl
not_below (finite a) (finite b) minus_infinity n h g = refl
not_below (finite a) (finite b) plus_infinity n h g = absurd (ground (arith, g))

below :
    (b c : Binding) (cs : List Binding)
    → is_nan c ≡ false
    → ltf b.q_value c.q_value ≡ false
    → All (λ d. ltf c.q_value d.q_value ≡ false) cs
    → All (λ d. ltf b.q_value d.q_value ≡ false) cs
below b c [] n h l = tt
below b c (d ∷ ds) n h l = (
  not_below b.q_value c.q_value d.q_value (λ e. absurd (ground (arith, ap is_nan_f e, n))) h l.0,
  below b c ds n h l.1,
)

insert-Sorted : (b : Binding) (cs : List Binding) → NanFree cs → Sorted cs → Sorted (insert b cs)
insert-Sorted b [] k s = (tt, tt)
insert-Sorted b (c ∷ cs) k s = elim (Bool-cases (ltf b.q_value c.q_value)) [
  | inr e ↦ rw e ((e, below b c cs k.0 e s.0), s)
  | inl e ↦ rw e (
    (inserted (λ d. ltf c.q_value d.q_value ≡ false) b cs).0 (ltf_asym b.q_value c.q_value e, s.0),
    insert-Sorted b cs k.1 s.1,
  )
]

sort-Same : (bs : List Binding) → Same bs (sort bs)
sort-Same [] P = (λ h. h, λ h. h)
sort-Same (b ∷ bs) P =
    let (into, back) = inserted P b (sort bs) in
    (
      λ h. into (h.0, (sort-Same bs P).0 h.1),
      λ h. let (pb, rest) = back h in (pb, (sort-Same bs P).1 rest),
    )

sort-Sorted : (bs : List Binding) → NanFree bs → Sorted (sort bs)
sort-Sorted [] k = tt
sort-Sorted (b ∷ bs) k =
    insert-Sorted b (sort bs) ((sort-Same bs (λ c. is_nan c ≡ false)).0 k.1) (sort-Sorted bs k.1)

sort-IsSort : IsSort sort
sort-IsSort = record { sorted = sort-Sorted; same = sort-Same }

-- The mobile has the greater q-value; the desk phone is behind a NAT.
finds_alice :
    chain_resolve (default_resolver sort alice_at (codes "a")) (codes "user/alice")
    ≡ found (record {
      type = type_user;
      original = codes "user/alice";
      contacts =
          of_binding (codes "sip:alice@10.0.0.2") mobile
          ∷ of_binding (codes "sip:alice@10.0.0.9:5062;transport=UDP") desk
          ∷ [];
    })
unfolding chain_from user_can_resolve user_resolve lookup_bindings build_aor effective_contact
finds_alice = refl

resolve_lem_example :
    Outcome alice_at
      (codes "a")
      (codes "user/alice")
      (chain_resolve (default_resolver sort alice_at (codes "a")) (codes "user/alice"))
resolve_lem_example = resolve_lem sort alice_at (codes "a") (codes "user/alice") sort-IsSort
