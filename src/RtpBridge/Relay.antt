-- ===== src/RtpBridge/Relay.antt =====
-- `relayAtoB` and `relayBtoA`: the loops that forward datagrams from one side to the other.
use mathlib.Core.Path.{subst}
use switchboard.Prelude.{
  ℕ, zero, suc, ◌+◌, ◌%◌, ◌^◌, ◌≤◌, ◌<◌, ◌≡◌, refl, sym, ap, ◌∙◌, Bool, true, false, List, [], ◌∷◌,
  map, arith, length, All, str_eq, nat_eq,
}

-- What one round of the loop meets: the bridge stopped before the read, a datagram with whether
-- its write succeeds, or a failed read with whether the context was cancelled by then.
pub data Round : Type 0 where
  is_stopped : Round
  datagram : List ℕ → Bool → Round
  read_error : Bool → Round

-- The two counters of a direction, of type int64.
pub record Counters : Type 0 where
  pub packets : ℕ
  pub bytes : ℕ

-- The sum of two int64 values that are not negative; it is negative in Go from 2^63 on.
abbrev pub add64 : ℕ → ℕ → ℕ
add64 a b = (a + b) % 2 ^ 64

abbrev pub first : ℕ → List ℕ → List ℕ
first zero xs = []
first (suc n) [] = []
first (suc n) (x ∷ xs) = x ∷ first n xs

-- buf := make([]byte, 1500)
unfoldable pub buffer : List ℕ → List ℕ
buffer payload = first 1500 payload

abbrev pub counted : List ℕ → Counters → Counters
counted payload c = record {
  packets = add64 c.packets 1;
  bytes = add64 c.bytes (length (buffer payload));
}

-- The loop: the datagrams that it sends, and the counters when it has stopped or the rounds are over.
unfoldable pub relay : List Round → Counters → List (List ℕ) × Counters
relay [] c = ([], c)
relay (is_stopped ∷ rs) c = ([], c)
relay (read_error true ∷ rs) c = ([], c)
relay (read_error false ∷ rs) c = relay rs c
relay (datagram payload false ∷ rs) c = relay rs c
relay (datagram payload true ∷ rs) c =
    let (sent, d) = relay rs (counted payload c) in (buffer payload ∷ sent, d)

-- `Stats`: the counters of both directions.
pub record Stats : Type 0 where
  pub a_to_b : Counters
  pub b_to_a : Counters

-- `relayAtoB`: its reads are from the socket of side A, its writes to the remote party of side B.
unfoldable pub relay_a_to_b : List Round → Stats → List (List ℕ) × Stats
relay_a_to_b rounds st = let (sent, c) = relay rounds st.a_to_b in (sent, record st { a_to_b = c })

-- `relayBtoA`, the same with the sides swapped.
unfoldable pub relay_b_to_a : List Round → Stats → List (List ℕ) × Stats
relay_b_to_a rounds st = let (sent, c) = relay rounds st.b_to_a in (sent, record st { b_to_a = c })

-- The datagrams that arrive before the loop stops and whose write succeeds.
abbrev pub delivered : List Round → List (List ℕ)
delivered [] = []
delivered (is_stopped ∷ rs) = []
delivered (read_error true ∷ rs) = []
delivered (read_error false ∷ rs) = delivered rs
delivered (datagram payload false ∷ rs) = delivered rs
delivered (datagram payload true ∷ rs) = payload ∷ delivered rs

abbrev pub total_length : List (List ℕ) → ℕ
total_length [] = 0
total_length (x ∷ xs) = length x + total_length xs

length-first : (n : ℕ) (xs : List ℕ) → length (first n xs) ≤ n
length-first zero xs = omega arith
length-first (suc n) [] = omega arith
length-first (suc n) (x ∷ xs) = omega (arith, length-first n xs)

first-all : (n : ℕ) (xs : List ℕ) → length xs ≤ n → first n xs ≡ xs
first-all zero [] h = refl
first-all zero (x ∷ xs) h = absurd (omega (arith, h))
first-all (suc n) [] h = refl
first-all (suc n) (x ∷ xs) h = ap (λ ys. x ∷ ys) (first-all n xs (omega (arith, h)))

-- The counters of a direction after some datagrams.
abbrev pub after : List (List ℕ) → Counters → Counters
after ds c = record {
  packets = (c.packets + length ds) % 2 ^ 64;
  bytes = (c.bytes + total_length ds) % 2 ^ 64;
}

counters_of :
    (p q b d : ℕ)
    → p ≡ q
    → b ≡ d
    → ◌≡◌ {A = Counters} (record { packets = p; bytes = b }) (record { packets = q; bytes = d })
counters_of p q b d e f = cc

after-nil : (c : Counters) → c.packets < 2 ^ 64 → c.bytes < 2 ^ 64 → c ≡ after [] c
after-nil c p b = counters_of c.packets _ c.bytes _ (omega (arith, p)) (omega (arith, b))

wraps_suc : (a n : ℕ) → ((a + 1) % 2 ^ 64 + n) % 2 ^ 64 ≡ (a + suc n) % 2 ^ 64
wraps_suc a n = omega arith

wraps : (a b n : ℕ) → ((a + b) % 2 ^ 64 + n) % 2 ^ 64 ≡ (a + (b + n)) % 2 ^ 64
wraps a b n = omega arith

in_range64 : (n : ℕ) → n % 2 ^ 64 < 2 ^ 64
in_range64 n = omega arith

after-counted :
    (payload : List ℕ) (ds : List (List ℕ)) (c : Counters)
    → after ds (counted payload c) ≡ after (buffer payload ∷ ds) c
after-counted payload ds c =
    counters_of _ _ _ _ (wraps_suc c.packets (length ds))
      (wraps c.bytes (length (buffer payload)) (total_length ds))

length-buffer : (payload : List ℕ) → length (buffer payload) ≤ 1500
unfolding buffer
length-buffer payload = length-first 1500 payload

buffer-all : (payload : List ℕ) → length payload ≤ 1500 → buffer payload ≡ payload
unfolding buffer
buffer-all payload h = first-all 1500 payload h

cons_of : {x y : List ℕ} {xs ys : List (List ℕ)} → x ≡ y → xs ≡ ys → x ∷ xs ≡ y ∷ ys
cons_of e f = cc

-- One loop, with the counters of its direction.
pub relay-Relays :
    (rs : List Round) (c : Counters)
    → c.packets < 2 ^ 64
    → c.bytes < 2 ^ 64
    → ((relay rs c).0 ≡ map buffer (delivered rs))
      × ((relay rs c).1 ≡ after (relay rs c).0 c)
      × All (λ d. length d ≤ 1500) (relay rs c).0
      × (All (λ d. length d ≤ 1500) (delivered rs) → (relay rs c).0 ≡ delivered rs)
unfolding relay
relay-Relays [] c p b = (refl, after-nil c p b, tt, λ h. refl)
relay-Relays (is_stopped ∷ rs) c p b = (refl, after-nil c p b, tt, λ h. refl)
relay-Relays (read_error true ∷ rs) c p b = (refl, after-nil c p b, tt, λ h. refl)
relay-Relays (read_error false ∷ rs) c p b = relay-Relays rs c p b
relay-Relays (datagram payload false ∷ rs) c p b = relay-Relays rs c p b
relay-Relays (datagram payload true ∷ rs) c p b =
    let (s, n, l, w) =
      relay-Relays rs (counted payload c) (in_range64 (c.packets + 1))
        (in_range64 (c.bytes + length (buffer payload))) in
    (
      ap (λ ys. buffer payload ∷ ys) s,
      n ∙ after-counted payload (relay rs (counted payload c)).0 c,
      (length-buffer payload, l),
      λ (h, hs). cons_of (buffer-all payload h) (w hs),
    )

-- A relay of either direction sends the datagrams that arrive before it stops and whose write
-- succeeds, each once and in their order, each cut to 1500 bytes, and a datagram of at most 1500
-- bytes as it is. The counters of its direction grow by their number and by their bytes, modulo
-- 2^64; those of the other direction do not change.
pub relays_lem :
    (rs : List Round) (st : Stats)
    → st.a_to_b.packets < 2 ^ 64
    → st.a_to_b.bytes < 2 ^ 64
    → st.b_to_a.packets < 2 ^ 64
    → st.b_to_a.bytes < 2 ^ 64
    → ((relay_a_to_b rs st).0 ≡ map buffer (delivered rs))
      × ((relay_a_to_b rs st).1 ≡ record st { a_to_b = after (relay_a_to_b rs st).0 st.a_to_b })
      × ((relay_b_to_a rs st).0 ≡ map buffer (delivered rs))
      × ((relay_b_to_a rs st).1 ≡ record st { b_to_a = after (relay_b_to_a rs st).0 st.b_to_a })
      × All (λ d. length d ≤ 1500) (map buffer (delivered rs))
      × (All (λ d. length d ≤ 1500) (delivered rs) → map buffer (delivered rs) ≡ delivered rs)
unfolding relay_a_to_b relay_b_to_a
relays_lem rs st p b q c =
    let (s, n, l, w) = relay-Relays rs st.a_to_b p b in
    let (u, m, k, v) = relay-Relays rs st.b_to_a q c in
    (
      s,
      ap (λ x. record st { a_to_b = x }) n,
      u,
      ap (λ x. record st { b_to_a = x }) m,
      subst (λ ds. All (λ d. length d ≤ 1500) ds) s l,
      λ h. sym s ∙ w h,
    )
