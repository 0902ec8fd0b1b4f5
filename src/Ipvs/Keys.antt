-- ===== src/Ipvs/Keys.antt =====
-- internal/ipvs/types.go: the keys identify services and destinations.
use mathlib.Core.Path.{subst}
use libra_flux.Base.{ℕ, ◌≡◌, refl, sym, ◌≢◌, ◌⊎◌, inl, inr, ◌≤◌, ◌<◌, [], ◌∷◌, ◌++◌, arith, All}
use libra_flux.Base.Text.{GoString, codes}
use libra_flux.Base.Decimal.{itoa, itoa-injective, itoa-digits}
use libra_flux.Ipvs.Types.{Net, Service, Destination, service_key, dest_key}

abbrev NoColon : GoString → Type 0
NoColon = All (λ c. c ≢ 58)

colon_inside : (xs ys : GoString) → NoColon (xs ++ 58 ∷ ys) → ⊥
colon_inside [] ys h = h.0 refl
colon_inside (x ∷ xs) ys h = colon_inside xs ys h.1

head_eq : {c d : ℕ} {s t : GoString} → ◌≡◌ {A = GoString} (c ∷ s) (d ∷ t) → c ≡ d
head_eq e = cc

tail_eq : {c d : ℕ} {s t : GoString} → ◌≡◌ {A = GoString} (c ∷ s) (d ∷ t) → s ≡ t
tail_eq e = cc

-- Two texts that end in a colon and a part without one are split there alike.
split_last :
    (xs ys s t : GoString)
    → NoColon s
    → NoColon t
    → ◌≡◌ {A = GoString} (xs ++ 58 ∷ s) (ys ++ 58 ∷ t)
    → (xs ≡ ys) × (s ≡ t)
split_last [] [] s t hs ht e = (refl, tail_eq e)
split_last [] (y ∷ ys) s t hs ht e = absurd (colon_inside ys t (subst NoColon (tail_eq e) hs))
split_last (x ∷ xs) [] s t hs ht e = absurd (colon_inside xs s (subst NoColon (sym (tail_eq e)) ht))
split_last (x ∷ xs) (y ∷ ys) s t hs ht e =
    let (same, rest) = split_last xs ys s t hs ht (tail_eq e) in (cc (head_eq e, same), rest)

-- Two texts that begin with a part without a colon and a colon are split there alike.
split_first :
    (xs ys s t : GoString)
    → NoColon xs
    → NoColon ys
    → ◌≡◌ {A = GoString} (xs ++ 58 ∷ s) (ys ++ 58 ∷ t)
    → (xs ≡ ys) × (s ≡ t)
split_first [] [] s t hx hy e = (refl, tail_eq e)
split_first [] (y ∷ ys) s t hx hy e = absurd (hy.0 (sym (head_eq e)))
split_first (x ∷ xs) [] s t hx hy e = absurd (hx.0 (head_eq e))
split_first (x ∷ xs) (y ∷ ys) s t hx hy e =
    let (same, rest) = split_first xs ys s t hx.1 hy.1 (tail_eq e) in (cc (head_eq e, same), rest)

digits_NoColon : (s : GoString) → All (λ c. (48 ≤ c) × (c < 58)) s → NoColon s
digits_NoColon [] h = tt
digits_NoColon (c ∷ s) h = ((λ e. omega arith), digits_NoColon s h.1)

itoa-NoColon : (n : ℕ) → NoColon (itoa n)
itoa-NoColon n = digits_NoColon (itoa n) (itoa-digits n)

-- Two destinations with one key agree in the port and in the printed address.
pub dest_key-injective :
    (net : Net) (d e : Destination)
    → dest_key net d ≡ dest_key net e
    → (net.ip_string d.address ≡ net.ip_string e.address) × (d.port ≡ e.port)
unfolding dest_key
dest_key-injective net d e h =
    let (address, port) =
      split_last (net.ip_string d.address) (net.ip_string e.address) (itoa d.port) (itoa e.port)
        (itoa-NoColon d.port) (itoa-NoColon e.port) h in
    (address, itoa-injective d.port e.port port)

-- Services over tcp or udp with one key agree in the protocol, the printed address and the port, for
-- every way to print addresses, colons included.
pub service_key-injective :
    (net : Net) (s t : Service)
    → (s.protocol ≡ codes "tcp") ⊎ (s.protocol ≡ codes "udp")
    → (t.protocol ≡ codes "tcp") ⊎ (t.protocol ≡ codes "udp")
    → service_key net s ≡ service_key net t
    → (s.protocol ≡ t.protocol)
      × (net.ip_string s.address ≡ net.ip_string t.address)
      × (s.port ≡ t.port)
unfolding service_key
service_key-injective net s t ps pt h =
    let (protocol, rest) =
      split_first s.protocol t.protocol _ _ (plain s.protocol ps) (plain t.protocol pt) h in
    let (address, port) =
      split_last (net.ip_string s.address) (net.ip_string t.address) (itoa s.port) (itoa t.port)
        (itoa-NoColon s.port) (itoa-NoColon t.port) rest in
    (protocol, address, itoa-injective s.port t.port port)
  where
    plain : (p : GoString) → (p ≡ codes "tcp") ⊎ (p ≡ codes "udp") → NoColon p
    plain p (inl e) = rw e (omega arith)
    plain p (inr e) = rw e (omega arith)
