-- ===== src/Params/Values.antt =====
-- The texts that VecSimIndex_ResolveParams reads: names, as strcasecmp compares them, and values, as
-- src/VecSim/utils/vec_utils.cpp checks them. A text is the list of its character codes.
use vector_similarity.Base.{
  ℕ, ◌-◌, ◌^◌, Bool, true, false, not, ◌&&◌, ◌||◌, List, [], ◌∷◌, map, take, Option, none, some,
  leb, ◌==◌, if◌then◌else◌,
}

abbrev pub Text : Type 0
Text = List ℕ

-- "EF_RUNTIME"
abbrev pub ef_runtime_string : Text
ef_runtime_string = 69 ∷ 70 ∷ 95 ∷ 82 ∷ 85 ∷ 78 ∷ 84 ∷ 73 ∷ 77 ∷ 69 ∷ []

-- "EPSILON"
abbrev pub epsilon_string : Text
epsilon_string = 69 ∷ 80 ∷ 83 ∷ 73 ∷ 76 ∷ 79 ∷ 78 ∷ []

-- "BATCH_SIZE"
abbrev pub batch_size_string : Text
batch_size_string = 66 ∷ 65 ∷ 84 ∷ 67 ∷ 72 ∷ 95 ∷ 83 ∷ 73 ∷ 90 ∷ 69 ∷ []

-- "HYBRID_POLICY"
abbrev pub hybrid_policy_string : Text
hybrid_policy_string = 72 ∷ 89 ∷ 66 ∷ 82 ∷ 73 ∷ 68 ∷ 95 ∷ 80 ∷ 79 ∷ 76 ∷ 73 ∷ 67 ∷ 89 ∷ []

-- "SEARCH_WINDOW_SIZE"
abbrev pub search_ws_string : Text
search_ws_string =
    83 ∷ 69 ∷ 65 ∷ 82 ∷ 67 ∷ 72 ∷ 95 ∷ 87 ∷ 73 ∷ 78 ∷ 68 ∷ 79 ∷ 87 ∷ 95 ∷ 83 ∷ 73 ∷ 90 ∷ 69 ∷ []

-- "SEARCH_BUFFER_CAPACITY"
abbrev pub search_bc_string : Text
search_bc_string =
    83 ∷ 69 ∷ 65 ∷ 82 ∷ 67 ∷ 72 ∷ 95 ∷ 66 ∷ 85 ∷ 70 ∷ 70 ∷ 69 ∷ 82 ∷ 95 ∷ 67 ∷ 65 ∷ 80 ∷ 65 ∷ 67
    ∷ 73 ∷ 84 ∷ 89 ∷ []

-- "USE_SEARCH_HISTORY"
abbrev pub use_search_history_string : Text
use_search_history_string =
    85 ∷ 83 ∷ 69 ∷ 95 ∷ 83 ∷ 69 ∷ 65 ∷ 82 ∷ 67 ∷ 72 ∷ 95 ∷ 72 ∷ 73 ∷ 83 ∷ 84 ∷ 79 ∷ 82 ∷ 89 ∷ []

-- "batches"
abbrev pub policy_batches : Text
policy_batches = 98 ∷ 97 ∷ 116 ∷ 99 ∷ 104 ∷ 101 ∷ 115 ∷ []

-- "adhoc_bf"
abbrev pub policy_adhoc_bf : Text
policy_adhoc_bf = 97 ∷ 100 ∷ 104 ∷ 111 ∷ 99 ∷ 95 ∷ 98 ∷ 102 ∷ []

-- "ON"
abbrev pub on_string : Text
on_string = 79 ∷ 78 ∷ []

-- "OFF"
abbrev pub off_string : Text
off_string = 79 ∷ 70 ∷ 70 ∷ []

-- "AUTO"
abbrev pub auto_string : Text
auto_string = 65 ∷ 85 ∷ 84 ∷ 79 ∷ []

pub data OptionMode : Type 0 where
  option_auto option_enable option_disable : OptionMode

-- a double: the positive ones by their place in the order
pub data Double : Type 0 where
  zero_double negative nan : Double
  positive : ℕ → Double

pub record RawParam : Type 0 where
  pub name : Text
  pub value : Text
  pub val_len : ℕ

-- what `strtoll` and `strtod` return: the number, where they stopped, and whether errno is set.
-- A `long long` that is not positive is 0 here.
pub record Numbers : Type 0 where
  pub strtoll : Text → ℕ × ℕ × Bool
  pub strtod : Text → Double × ℕ × Bool
  pub dbl_max : ℕ

abbrev pub to_upper : ℕ → ℕ
to_upper c = if leb 97 c && leb c 122 then c - 32 else c

abbrev same_text : Text → Text → Bool
same_text [] [] = true
same_text [] (_ ∷ _) = false
same_text (_ ∷ _) [] = false
same_text (c ∷ s) (d ∷ t) = (c == d) && same_text s t

-- `!strcasecmp(s, t)`
abbrev pub same_name : Text → Text → Bool
same_name s t = same_text (map to_upper s) (map to_upper t)

abbrev pub llong_max : ℕ
llong_max = 2 ^ 63 - 1

module _ (lib : Numbers) where
  -- `none` is BadValue
  unfoldable pub validate_positive_integer_param : RawParam → Option ℕ
  validate_positive_integer_param r =
      let (val, ep, failed) = lib.strtoll r.value in
      if (val == 0) || (val == llong_max) || failed || not (r.val_len == ep) then none else some val

  -- The tests `*val <= 0` and `*val == DBL_MAX` do not hold of NaN.
  abbrev pub is_refused : Double → Bool
  is_refused zero_double = true
  is_refused negative = true
  is_refused nan = false
  is_refused (positive x) = x == lib.dbl_max

  unfoldable pub validate_positive_double_param : RawParam → Option Double
  validate_positive_double_param r =
      let (val, ep, failed) = lib.strtod r.value in
      if is_refused val || failed || not (r.val_len == ep) then none else some val

unfoldable pub validate_vecsim_bool_param : RawParam → Option OptionMode
validate_vecsim_bool_param r =
    let value = map to_upper (take r.val_len r.value) in
    if same_text value on_string
    then some option_enable
    else if same_text value off_string
    then some option_disable
    else if same_text value auto_string
    then some option_auto
    else none
