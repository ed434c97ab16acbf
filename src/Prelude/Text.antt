-- ===== src/Prelude/Text.antt =====
-- Go strings and byte slices: lists of bytes.
use Prim.Native.Char.{code}
use Prim.Native.Nat.{ℕ}
use Prim.Native.String.{String}
use mathlib.Core.Path.{◌≡◌}
use mathlib.Core.Logic.{◌↔◌}
use mathlib.Core.Bool.{Bool, true, false, ◌&&◌}
use mathlib.Core.List.{List, [], ◌∷◌}
use native.Mathlib.Omega.{arith}
use gocs.Prelude.Tests.{eqb, eqb_iff, Eq}

abbrev pub Bytes : Type 0
Bytes = List ℕ

-- The code points of a literal: its bytes, since every literal here is ASCII.
abbrev pub codes : String → Bytes
codes String.[] = []
codes (String.◌∷◌ c s) = code c ∷ codes s

abbrev pub beq_bytes : Bytes → Bytes → Bool
beq_bytes [] [] = true
beq_bytes [] (b ∷ t) = false
beq_bytes (a ∷ s) [] = false
beq_bytes (a ∷ s) (b ∷ t) = eqb a b && beq_bytes s t

pub beq_bytes_iff : (s t : Bytes) → (beq_bytes s t ≡ true) ↔ (s ≡ t)
beq_bytes_iff [] [] = ground arith
beq_bytes_iff [] (b ∷ t) = ground arith
beq_bytes_iff (a ∷ s) [] = ground arith
beq_bytes_iff (a ∷ s) (b ∷ t) = ground (arith, eqb_iff a b, beq_bytes_iff s t)

instance abbrev pub bytes_eq : Eq Bytes
bytes_eq = record { equal = beq_bytes; equal_iff = beq_bytes_iff }

-- strings.HasPrefix(s, p), with the prefix first.
unfoldable pub has_prefix : Bytes → Bytes → Bool
has_prefix [] s = true
has_prefix (p ∷ ps) [] = false
has_prefix (p ∷ ps) (c ∷ s) = eqb p c && has_prefix ps s
