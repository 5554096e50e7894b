-- ===== src/Prelude/Text.antt =====
-- Texts: compared whole, and stripped of a character at the end.
use Prim.Native.Char.{code}
use Prim.Native.String.{[], ◌∷◌}
use Prim.Native.Nat.{ℕ}
use deribit_price_collector.Prelude.Tests.{◌==◌ as nat_eq, if◌then◌else◌}
use mathlib.Core.Bool.{◌&&◌}
use Prim.Native.String.{String}
use mathlib.Core.Path.{◌≡◌}
use mathlib.Core.Bool.{Bool, true}
use mathlib.Core.Logic.{◌↔◌}
use text.Mathlib.Text.{◌==◌}
use text.Mathlib.TextEquality.{eq_iff}
use text.Mathlib.TextPositions.{eq_refl}

abbrev pub str_eq : String → String → Bool
str_eq s t = s == t

pub str_eq_iff : (s t : String) → (str_eq s t ≡ true) ↔ (s ≡ t)
str_eq_iff s t = eq_iff s t

pub str_eq_refl : (s : String) → str_eq s s ≡ true
str_eq_refl s = eq_refl s

-- s.rstrip(c), for one character c given by its code.
unfoldable pub rstrip : ℕ → String → String
rstrip c [] = []
rstrip c (x ∷ s) = let rest = rstrip c s in if rest == "" && nat_eq (code x) c then [] else x ∷ rest
