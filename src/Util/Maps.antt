-- ===== src/Util/Maps.antt =====
-- string_to_map, map_to_string and the overloads of parse for strings of EASY_UTIL in
-- comm/sys_comm.cpp.
pub mod Dict
pub mod RoundTrip
pub mod Skip
use Prim.Native.Nat.{compare, Ordering}
use mathlib.Core.List.{reverse}
use teaf.Prelude.{
  ℕ, zero, suc, ◌+◌, Bool, true, false, not, ◌&&◌, List, [], ◌∷◌, ◌++◌, ◌==◌, if◌then◌else◌, Bytes,
  length, ℤ,
}
use teaf.Util.Split.{break_at}
use teaf.Util.Numbers.{atoi, to_unsigned, decimal}
use teaf.Util.Maps.Dict.{insert_all, lex, compare_ℤ}

-- A record behind its name: the value up to `sep2` or the end, and the loop `go` for the rest.
abbrev pub pair_value :
    (Bytes → List (Bytes × Bytes)) → Bytes → Bytes × Bytes → List (Bytes × Bytes)
pair_value go name (value, []) = (name, value) ∷ []
pair_value go name (value, c ∷ rest) = (name, value) ∷ go rest

abbrev pub pair_name : ℕ → (Bytes → List (Bytes × Bytes)) → Bytes × Bytes → List (Bytes × Bytes)
pair_name sep2 go (name, []) = []
pair_name sep2 go (name, c ∷ rest) = pair_value go name (break_at (λ x. x == sep2) rest)

-- The names and values that the loop stores, in order, from the rest of the input.
unfoldable pub pairs : ℕ → ℕ → ℕ → Bytes → List (Bytes × Bytes)
pairs zero sep1 sep2 s = []
pairs (suc fuel) sep1 sep2 s = pair_name sep2 (pairs fuel sep1 sep2) (break_at (λ x. x == sep1) s)

-- `flag` 1 sorts by the value: it becomes part of the key.
abbrev pub stored : ℕ → ℕ → Bytes × Bytes → Bytes × Bytes
stored flag sep1 (name, value) = if flag == 1 then (value ++ (sep1 ∷ name), name) else (name, value)

abbrev pub stored_all : ℕ → ℕ → List (Bytes × Bytes) → List (Bytes × Bytes)
stored_all flag sep1 [] = []
stored_all flag sep1 (e ∷ es) = stored flag sep1 e ∷ stored_all flag sep1 es

unfoldable pub string_to_map : Bytes → List (Bytes × Bytes) → ℕ → ℕ → ℕ → List (Bytes × Bytes)
string_to_map input form_data flag sep1 sep2 =
    insert_all lex (stored_all flag sep1 (pairs (suc (length input)) sep1 sep2 input)) form_data

-- `parse(const string &, CGI_PARAM_MAP &, ...)`, the same loop.
unfoldable pub parse : Bytes → List (Bytes × Bytes) → ℕ → ℕ → List (Bytes × Bytes)
parse src dest minor major = insert_all lex (pairs (suc (length src)) minor major src) dest

abbrev pub to_ints : List (Bytes × Bytes) → List (ℤ × ℤ)
to_ints [] = []
to_ints ((name, value) ∷ es) = (atoi name, atoi value) ∷ to_ints es

-- `parse(const string &, map<int, int> &, ...)`.
unfoldable pub parse_ints : Bytes → List (ℤ × ℤ) → ℕ → ℕ → List (ℤ × ℤ)
parse_ints src dest minor major =
    insert_all compare_ℤ (to_ints (pairs (suc (length src)) minor major src)) dest

-- The loop of the overload for numbers. Where the name is no number it goes on with `continue`, from
-- the start of the value.
abbrev pub number_value : (Bytes → List (ℕ × ℕ)) → ℕ → Bytes × Bytes → List (ℕ × ℕ)
number_value go key (value, []) = (key, to_unsigned value) ∷ []
number_value go key (value, c ∷ rest) = (key, to_unsigned value) ∷ go rest

-- `name.compare("0") == 0`.
abbrev pub is_zero_text : Bytes → Bool
is_zero_text [] = false
is_zero_text (c ∷ []) = c == b'0'
is_zero_text (c ∷ d ∷ s) = false

abbrev pub number_name : (Bytes → List (ℕ × ℕ)) → Bytes × Bytes → List (ℕ × ℕ)
number_name go (name, []) = []
number_name go (name, c ∷ rest) =
    if to_unsigned name == 0 && not (is_zero_text name)
    then go rest
    else number_value go (to_unsigned name) (break_at (λ x. x == b'|') rest)

unfoldable pub number_pairs : ℕ → Bytes → List (ℕ × ℕ)
number_pairs zero s = []
number_pairs (suc fuel) s = number_name (number_pairs fuel) (break_at (λ x. x == b',') s)

unfoldable pub string_to_numbers : Bytes → List (ℕ × ℕ) → List (ℕ × ℕ)
string_to_numbers input form_data =
    insert_all compare (number_pairs (suc (length input)) input) form_data

abbrev pub print_pairs : List (Bytes × Bytes) → Bytes
print_pairs [] = []
print_pairs ((name, value) ∷ es) = name ++ (b',' ∷ (value ++ (b'|' ∷ print_pairs es)))

-- What a map of `flag` 1 prints for an entry: its value, and its key up to the first comma.
abbrev pub by_value : List (Bytes × Bytes) → List (Bytes × Bytes)
by_value [] = []
by_value ((name, value) ∷ es) = (value, (break_at (λ x. x == b',') name).0) ∷ by_value es

-- Any other flag prints nothing.
unfoldable pub map_to_string : Bytes → List (Bytes × Bytes) → ℕ → Bytes
map_to_string output form_data flag =
    if flag == 0
    then output ++ print_pairs form_data
    else if flag == 1
    then output ++ print_pairs (by_value (reverse form_data))
    else output

abbrev pub print_numbers : List (ℕ × ℕ) → Bytes
print_numbers [] = []
print_numbers ((key, value) ∷ es) =
    decimal key ++ (b',' ∷ (decimal value ++ (b'|' ∷ print_numbers es)))

unfoldable pub numbers_to_string : List (ℕ × ℕ) → Bytes
numbers_to_string form_data = print_numbers form_data
