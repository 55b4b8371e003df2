-- ===== src/Pages/Search.antt =====
-- The search field of a table. What Python and PostgreSQL do with single texts is a parameter.
use poolbrian_sms_automation.Prelude.{
  ℕ, String, Option, none, some, Bool, false, ◌&&◌, ◌||◌, List, [], ◌∷◌, take_text, concat_texts,
  str_eq, ltb, ◌==◌,
}

-- `str.strip`, `ILIKE`, `CAST(… AS TEXT)`, the collation of texts, and `(… AT TIME ZONE
-- :timezone_name)::date` as a number of days.
pub record Sql : Type 0 where
  pub strip : String → String
  pub ilike : String → String → Bool
  pub str_of : ℕ → String
  pub text_before : String → String → Bool
  pub date_of : ℕ → ℕ

-- `search.strip()[:100]`.
unfoldable pub normalized_search : Sql → String → String
normalized_search sql search = take_text 100 (sql.strip search)

abbrev pub pattern_of : String → String
pattern_of search = concat_texts ("%" ∷ search ∷ "%" ∷ [])

-- `value ILIKE :pattern`; a NULL is not like anything.
abbrev pub like : Sql → Option String → String → Bool
like sql none pattern = false
like sql (some value) pattern = sql.ilike value pattern

abbrev like_any : Sql → List (Option String) → String → Bool
like_any sql [] pattern = false
like_any sql (v ∷ rest) pattern = like sql v pattern || like_any sql rest pattern

-- `:search = '' OR … ILIKE :pattern OR …`.
unfoldable pub search_test : Sql → String → List (Option String) → Bool
search_test sql search values = str_eq search "" || like_any sql values (pattern_of search)

-- `ORDER BY time DESC, id DESC`.
abbrev pub latest_first : ℕ → ℕ → ℕ → ℕ → Bool
latest_first time_a id_a time_b id_b =
    ltb time_b time_a || (time_a == time_b && (ltb id_b id_a || id_a == id_b))
