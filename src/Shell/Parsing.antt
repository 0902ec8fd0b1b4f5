-- ===== src/Shell/Parsing.antt =====
-- internal/shell/service_mode.go: the lists and ranges of ports that a command line gives.
use libra_flux.Base.{
  ℕ, ◌≢◌, ◌≡◌, refl, ap, ◌∙◌, ◌^◌, ◌<◌, List, [], ◌∷◌, ◌++◌, map, arith, ℤ, pos, Result, ok, err,
  ◌>>=◌, All, All-weaken,
}
use libra_flux.Base.Text.{GoString, codes, trim_space, trim_space-Solid, digit_solid}
use libra_flux.Base.Split.{split, join, Without, split-Without, split-append}
use libra_flux.Base.Atoi.{NumError, atoi, atoi-itoa}
use libra_flux.Base.Decimal.{itoa, itoa-digits, itoa-nonempty}
use libra_flux.Config.Types.{PortRange}

pub data ParseError : Type 0 where
  bad_number : NumError → ParseError
  port_range_usage : ParseError

abbrev pub as_number : Result NumError ℤ → Result ParseError ℤ
as_number (ok z) = ok z
as_number (err e) = err (bad_number e)

-- The piece with the number after it, but for an empty piece.
unfoldable pub add_port :
    GoString → Result NumError ℤ → Result ParseError (List ℤ) → Result ParseError (List ℤ)
add_port [] n rest = rest
add_port (c ∷ s) n rest = as_number n >>= λ v. rest >>= λ vs. ok (v ∷ vs)

unfoldable pub parse_ports_loop : List GoString → Result ParseError (List ℤ)
unfolding add_port
parse_ports_loop [] = ok []
parse_ports_loop (p ∷ ps) = add_port (trim_space p) (atoi (trim_space p)) (parse_ports_loop ps)

-- parseCSVPorts
unfoldable pub parse_csv_ports : GoString → Result ParseError (List ℤ)
unfolding parse_ports_loop
parse_csv_ports s = parse_ports_loop (split b',' s)

-- The bounds, of which the first that is no number is reported.
abbrev bounds : Result NumError ℤ → Result NumError ℤ → Result ParseError PortRange
bounds (err e) end = err (bad_number e)
bounds (ok a) (err e) = err (bad_number e)
bounds (ok a) (ok b) = ok (record { start = a; end = b })

-- The two parts of a range.
abbrev range_of : List GoString → Result ParseError PortRange
range_of [] = err port_range_usage
range_of (a ∷ []) = err port_range_usage
range_of (a ∷ b ∷ []) = bounds (atoi a) (atoi b)
range_of (a ∷ b ∷ c ∷ s) = err port_range_usage

-- parsePortRange
unfoldable pub parse_port_range : GoString → Result ParseError PortRange
parse_port_range s = range_of (split b'-' s)

itoa-Without : (sep n : ℕ) → sep < 48 → Without sep (itoa n)
itoa-Without sep n h = All-weaken (itoa n) (itoa-digits n) (λ c d. ground (arith, d, h))

range_of-printed :
    (start end : ℕ)
    → start < 2 ^ 63
    → end < 2 ^ 63
    → range_of (itoa start ∷ itoa end ∷ []) ≡ ok (record { start = pos start; end = pos end })
range_of-printed start end low high = rw (atoi-itoa start low, atoi-itoa end high) refl

-- A printed range is read back as the range, for ports that an `int` holds.
pub parse_port_range-printed :
    (start end : ℕ)
    → start < 2 ^ 63
    → end < 2 ^ 63
    → parse_port_range (itoa start ++ b'-' ∷ itoa end)
      ≡ ok (record { start = pos start; end = pos end })
unfolding parse_port_range
parse_port_range-printed start end low high =
    ap range_of (
      split-append b'-' (itoa start) (itoa end) (itoa-Without b'-' start (omega arith))
      ∙ ap (λ (ws : List GoString). itoa start ∷ ws)
          (split-Without b'-' (itoa end) (itoa-Without b'-' end (omega arith))))
    ∙ range_of-printed start end low high

nonempty_port :
    (s : GoString)
    → s ≢ []
    → (z : ℤ) (rest : Result ParseError (List ℤ))
    → add_port s (ok z) rest ≡ (rest >>= λ vs. ok (z ∷ vs))
unfolding add_port
nonempty_port [] h z rest = absurd (h refl)
nonempty_port (c ∷ s) h z rest = refl

digits_atoi : (n : ℕ) → trim_space (itoa n) ≡ itoa n
digits_atoi n =
    trim_space-Solid (itoa n) (All-weaken (itoa n) (itoa-digits n) (λ c d. digit_solid c d.0 d.1))

add_port-printed :
    (n : ℕ) (rest : Result ParseError (List ℤ))
    → n < 2 ^ 63
    → add_port (trim_space (itoa n)) (atoi (trim_space (itoa n))) rest
      ≡ (rest >>= λ vs. ok (pos n ∷ vs))
unfolding add_port
add_port-printed n rest h =
    rw (digits_atoi n, atoi-itoa n h) (nonempty_port (itoa n) (itoa-nonempty n) (pos n) rest)

-- Printed ports, with commas between them, are read back as these ports, for ports that an `int` holds.
pub parse_csv_ports-printed :
    (ps : List ℕ)
    → All (λ p. p < 2 ^ 63) ps
    → parse_csv_ports (join (codes ",") (map itoa ps)) ≡ ok (map pos ps)
unfolding parse_csv_ports parse_ports_loop join split add_port
parse_csv_ports-printed [] h = unfold trim_space in refl
parse_csv_ports-printed (p ∷ []) h =
    rw (split-Without b',' (itoa p) (itoa-Without b',' p (omega arith)))
      (add_port-printed p (ok []) h.0)
parse_csv_ports-printed (p ∷ q ∷ ps) h =
    let rest = join (codes ",") (map itoa (q ∷ ps)) in
    ap parse_ports_loop (split-append b',' (itoa p) rest (itoa-Without b',' p (omega arith)))
    ∙ add_port-printed p (parse_csv_ports rest) h.0
    ∙ ap (λ (r : Result ParseError (List ℤ)). r >>= λ vs. ok (pos p ∷ vs))
        (parse_csv_ports-printed (q ∷ ps) h.1)
