-- ===== src/Ports/RoundTrip.antt =====
-- A list of ports and port ranges, written the way a configuration writes it, is read as those
-- ports, each with the text before and behind it.
use Prim.Native.Nat.{◌^◌}
use mathlib.Core.List.{append_assoc, append-nil}
use gocs.Prelude.{
  ℕ, zero, suc, ◌-◌, ◌<◌, ◌≢◌, ◌≡◌, refl, sym, ap, ◌∙◌, none, List, [], ◌∷◌, ◌++◌, map, Bytes,
  codes, arith, All, All-append,
}
use gocs.Errors.{ok}
use gocs.GoText.{join}
use gocs.GoText.Splitting.{Lacks, split-join, split_two-Lacks, split_two-append}
use gocs.GoText.Decimal.{pos, show_nat, show_int}
use gocs.GoText.Decimal.RoundTrip.{IsDigit, show_nat-IsDigit, parse_int-show_nat}
use gocs.Ports.{port_range, rounds, emit, parse_parts, parse_port_addr}

-- What stands between two commas.
pub data Part : Type 0 where
  single : ℕ → Part
  range : ℕ → ℕ → Part

pub show_part : Part → Bytes
show_part (single a) = show_nat a
show_part (range a b) = show_nat a ++ b'-' ∷ show_nat b

abbrev pub IsPort : Part → Type 0
IsPort (single a) = a < 2 ^ 31
IsPort (range a b) = (a < 2 ^ 31) × (b < 2 ^ 31)

-- n numbers from a on.
abbrev pub interval : ℕ → ℕ → List ℕ
interval a zero = []
interval a (suc n) = a ∷ interval (suc a) n

abbrev pub ports : Part → List ℕ
ports (single a) = a ∷ []
ports (range a b) = interval a (suc b - a)

abbrev pub all_ports : List Part → List ℕ
all_ports [] = []
all_ports (p ∷ ps) = ports p ++ all_ports ps

abbrev pub addresses : Bytes → Bytes → List ℕ → List Bytes
addresses prefix subffix = map (λ n. prefix ++ show_nat n ++ subffix)

digits-Lacks : (sep : ℕ) (s : Bytes) → (sep < b'0') → All IsDigit s → Lacks sep s
digits-Lacks sep [] h d = tt
digits-Lacks sep (c ∷ s) h d = ((λ e. omega arith), digits-Lacks sep s h d.1)

show_nat-Lacks : (sep n : ℕ) → (sep < b'0') → Lacks sep (show_nat n)
show_nat-Lacks sep n h = digits-Lacks sep (show_nat n) h (show_nat-IsDigit n)

emit_lem :
    (prefix subffix : Bytes) (n a : ℕ)
    → emit prefix subffix n (pos a) ≡ addresses prefix subffix (interval a n)
unfolding emit show_int
emit_lem prefix subffix zero a = refl
emit_lem prefix subffix (suc n) a =
    ap (◌∷◌ (prefix ++ show_nat a ++ subffix)) (emit_lem prefix subffix n (suc a))

abbrev last_of : Part → ℕ
last_of (single a) = a
last_of (range a b) = b

abbrev first_of_part : Part → ℕ
first_of_part (single a) = a
first_of_part (range a b) = a

port_range-show_part :
    (p : Part) → IsPort p → port_range (show_part p) ≡ ok (pos (first_of_part p), pos (last_of p))
unfolding port_range show_part
port_range-show_part (single a) h = rw (
  split_two-Lacks b'-' (show_nat a) (show_nat-Lacks b'-' a (omega arith)),
  parse_int-show_nat a h,
)
port_range-show_part (range a b) h = rw (
  split_two-append b'-' (show_nat a) (show_nat b) (show_nat-Lacks b'-' a (omega arith)),
  parse_int-show_nat a h.0,
  parse_int-show_nat b h.1,
)

rounds_lem :
    (prefix subffix : Bytes) (p : Part)
    → emit prefix subffix (rounds (pos (first_of_part p)) (pos (last_of p))) (pos (first_of_part p))
      ≡ addresses prefix subffix (ports p)
unfolding rounds
rounds_lem prefix subffix (single a) =
    emit_lem prefix subffix (suc a - a) a ∙ ap (λ n. addresses prefix subffix (interval a n)) one
  where
    one : suc a - a ≡ 1
    one = omega arith
rounds_lem prefix subffix (range a b) = emit_lem prefix subffix (suc b - a) a

addresses-append :
    (prefix subffix : Bytes) (xs ys : List ℕ)
    → addresses prefix subffix (xs ++ ys)
      ≡ addresses prefix subffix xs ++ addresses prefix subffix ys
addresses-append prefix subffix [] ys = refl
addresses-append prefix subffix (x ∷ xs) ys =
    ap (◌∷◌ (prefix ++ show_nat x ++ subffix)) (addresses-append prefix subffix xs ys)

parse_parts-show_part :
    (prefix subffix : Bytes) (addrs : List Bytes) (ps : List Part)
    → All IsPort ps
    → parse_parts prefix subffix addrs (map show_part ps)
      ≡ (addrs ++ addresses prefix subffix (all_ports ps), none)
unfolding parse_parts
parse_parts-show_part prefix subffix addrs [] h = rw append-nil
parse_parts-show_part prefix subffix addrs (p ∷ ps) h =
    rw (port_range-show_part p h.0, parse_parts, rounds_lem prefix subffix p)
      (parse_parts-show_part prefix subffix (addrs ++ addresses prefix subffix (ports p)) ps h.1
        ∙ ap (λ l. (l, none))
            (append_assoc addrs (addresses prefix subffix (ports p)) _
              ∙ ap (◌++◌ addrs) (sym (addresses-append prefix subffix (ports p) (all_ports ps)))))

show_part-Lacks : (p : Part) → Lacks b',' (show_part p)
unfolding show_part
show_part-Lacks (single a) = show_nat-Lacks b',' a (omega arith)
show_part-Lacks (range a b) =
    All-append (λ c. c ≢ b',') (show_nat a) (b'-' ∷ show_nat b)
      (show_nat-Lacks b',' a (omega arith))
      ((λ e. omega arith), show_nat-Lacks b',' b (omega arith))

parts-Lacks : (ps : List Part) → All (Lacks b',') (map show_part ps)
parts-Lacks [] = tt
parts-Lacks (p ∷ ps) = (show_part-Lacks p, parts-Lacks ps)

-- A configuration text that joins single ports and ranges `a-b` by commas, all below 2^31 and at
-- least one of them, is parsed without an error to exactly the ports that the parts stand for, in
-- their order (an empty range gives none), each as prefix, decimal port, suffix.
pub parse_port_addr-show_parts :
    (prefix subffix : Bytes) (p : Part) (ps : List Part)
    → All IsPort (p ∷ ps)
    → parse_port_addr prefix (join (codes ",") (map show_part (p ∷ ps))) subffix
      ≡ (addresses prefix subffix (all_ports (p ∷ ps)), none)
unfolding parse_port_addr
parse_port_addr-show_parts prefix subffix p ps h =
    rw (split-join b',' (show_part p) (map show_part ps) (parts-Lacks (p ∷ ps)))
      (parse_parts-show_part prefix subffix [] (p ∷ ps) h)
