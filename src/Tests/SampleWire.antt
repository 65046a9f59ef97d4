-- ===== src/Tests/SampleWire.antt =====
-- A `Wire` to evaluate the model with: JSON as a tree, which is its own text, and identifiers and
-- times in unary.
use epistl.Prelude.{
  ℕ, zero, suc, ◌≡◌, refl, ap, String, true, Option, none, some, List, [], ◌∷◌, codes, length,
  str_eq, if◌then◌else◌,
}
use epistl.Wire.{Wire, member, has_distinct_names}

mutual
  pub data Tree : Type 0 where
    null : Tree
    str : String → Tree
    arr : Items → Tree
    obj : Members → Tree

  pub data Items : Type 0 where
    nil : Items
    item : Tree → Items → Items

  pub data Members : Type 0 where
    end : Members
    field : String → Tree → Members → Members

abbrev items : List Tree → Items
items [] = nil
items (x ∷ xs) = item x (items xs)

abbrev members : List (String × Tree) → Members
members [] = end
members ((k, v) ∷ fs) = field k v (members fs)

abbrev find_member : String → Members → Option Tree
find_member k end = none
find_member k (field j v fs) = if str_eq j k then some v else find_member k fs

abbrev get : Tree → String → Option Tree
get null k = none
get (str s) k = none
get (arr xs) k = none
get (obj fs) k = find_member k fs

abbrev as_str : Tree → Option String
as_str null = none
as_str (str s) = some s
as_str (arr xs) = none
as_str (obj fs) = none

pub get-obj :
    (fs : List (String × Tree)) (k : String)
    → has_distinct_names fs ≡ true
    → get (obj (members fs)) k ≡ member k fs
get-obj fs k h = go fs
  where
    go : (gs : List (String × Tree)) → find_member k (members gs) ≡ member k gs
    go [] = refl
    go ((j, v) ∷ gs) = ap (λ r. if str_eq j k then some v else r) (go gs)

abbrev unary : ℕ → String
unary zero = ""
unary (suc n) = String.◌∷◌ "1" (unary n)

pub length-unary : (n : ℕ) → length (codes (unary n)) ≡ n
length-unary zero = refl
length-unary (suc n) = ap suc (length-unary n)

abbrev pub sample_wire : Wire
sample_wire = record {
  Value = Tree;
  Text = Tree;
  null = null;
  str = str;
  arr = λ xs. arr (items xs);
  obj = λ fs. obj (members fs);
  get = get;
  as_str = as_str;
  to_text = λ v. v;
  from_text = λ v. some v;
  uuid_text = unary;
  parse_uuid = λ s. some (length (codes s));
  base64_encode = λ bytes. "";
  base64_decode = λ s. some (codes s);
  rfc3339 = unary;
  timestamp = unary;
  to_lowercase = λ s. s;
  lower = λ s. s;
  fold = λ c. c;
  collate = λ s t. true;
  get-obj = get-obj;
  as_str-str = λ s. refl;
  from_text-to_text = λ v. refl;
  parse_uuid-uuid_text = λ u. ap some (length-unary u);
}
