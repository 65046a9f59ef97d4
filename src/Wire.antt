-- ===== src/Wire.antt =====
-- What the API takes from crates that are not in the repository: JSON values and their text
-- (serde_json), UUIDs in text form (uuid), base64 (base64), times in text form (chrono), and the
-- case mapping and collation of the database. User, request and token ids are UUIDs; the program
-- only compares them, so they are numbers here.
use epistl.Prelude.{
  ℕ, String, ◌≡◌, Bool, true, Option, none, some, List, [], ◌∷◌, ◌&&◌, not, any, str_eq,
  if◌then◌else◌,
}

module _ {V : Type 0} where
  -- The first member of that name.
  abbrev pub member : String → List (String × V) → Option V
  member k [] = none
  member k ((j, v) ∷ fs) = if str_eq j k then some v else member k fs

  -- The names of the members differ, as in every literal of the program.
  abbrev pub has_distinct_names : List (String × V) → Bool
  has_distinct_names [] = true
  has_distinct_names ((k, v) ∷ fs) = not (any (λ f. str_eq f.0 k) fs) && has_distinct_names fs

pub record Wire : Type 1 where
  -- `serde_json::Value`, and the text of a frame or payload
  pub Value : Type 0
  pub Text : Type 0
  pub null : Value
  pub str : String → Value
  pub arr : List Value → Value
  pub obj : List (String × Value) → Value
  -- `Value::get` at a name, and `Value::as_str`
  pub get : Value → String → Option Value
  pub as_str : Value → Option String
  pub to_text : Value → Text
  pub from_text : Text → Option Value
  pub uuid_text : ℕ → String
  pub parse_uuid : String → Option ℕ
  pub base64_encode : List ℕ → String
  pub base64_decode : String → Option (List ℕ)
  -- `DateTime::to_rfc3339`, and a time in a response body
  pub rfc3339 : ℕ → String
  pub timestamp : ℕ → String
  pub lower : String → String
  -- `str::to_lowercase`
  pub to_lowercase : String → String
  -- the case that `ILIKE` compares by, of a code point, and the order of texts in `ORDER BY`
  pub fold : ℕ → ℕ
  pub collate : String → String → Bool
  pub get-obj :
      (fs : List (String × Value)) (k : String)
      → has_distinct_names fs ≡ true
      → get (obj fs) k ≡ member k fs
  pub as_str-str : (s : String) → as_str (str s) ≡ some s
  pub from_text-to_text : (v : Value) → from_text (to_text v) ≡ some v
  pub parse_uuid-uuid_text : (u : ℕ) → parse_uuid (uuid_text u) ≡ some u
