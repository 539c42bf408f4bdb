-- ===== src/Base/Texts.antt =====
-- The comparison of names.
use Prim.Native.String.{String}
use text.Mathlib.Text.{◌==◌}
use text.Mathlib.TextEquality.{eq_iff}
use mathlib.Core.Path.{◌≡◌}
use mathlib.Core.Logic.{◌↔◌}
use mathlib.Core.Bool.{Bool, true}

abbrev pub equals : String → String → Bool
equals s t = s == t

pub equals_iff : (s t : String) → (equals s t ≡ true) ↔ (s ≡ t)
equals_iff s t = eq_iff s t
