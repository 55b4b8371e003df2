-- ===== src/Prelude/Texts.antt =====
-- Texts that the program cuts off.
use Prim.Native.Nat.{ℕ, zero, suc}
use Prim.Native.String.{String}
use mathlib.Core.Option.{Option, none, some}
use mathlib.Core.List.{List, [], ◌∷◌}

-- `value[:n]`, in characters.
unfoldable pub take_text : ℕ → String → String
take_text zero s = String.[]
take_text (suc n) String.[] = String.[]
take_text (suc n) (String.◌∷◌ c s) = String.◌∷◌ c (take_text n s)

-- The texts of an f-string, one after the other.
unfoldable pub append_text : String → String → String
append_text String.[] t = t
append_text (String.◌∷◌ c s) t = String.◌∷◌ c (append_text s t)

unfoldable pub concat_texts : List String → String
unfolding append_text
concat_texts [] = ""
concat_texts (s ∷ rest) = append_text s (concat_texts rest)

-- `value or "…"` for an optional text; an empty text is false too.
unfoldable pub get_or_text : Option String → String → String
get_or_text none t = t
get_or_text (some String.[]) t = t
get_or_text (some (String.◌∷◌ c s)) t = String.◌∷◌ c s
