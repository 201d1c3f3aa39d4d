-- ===== src/QMode.antt =====
-- comm/qmode_msg.{h,cpp}, class QModeMsg: a request as text, `name=value` fields between separators.
pub mod Fields
pub mod Written
pub mod Parse
pub mod Result
use mathlib.Core.Option
use Prim.Native.Nat.{Ordering}
use teaf.Prelude.{
  ℕ, suc, ◌+◌, ◌-◌, Bool, true, false, ◌&&◌, Option, none, some, List, [], ◌∷◌, ◌++◌, ltb, ◌==◌,
  if◌then◌else◌, Bytes, length, take, get_or, min, ℤ, pos, negsuc, to_u32,
}
use teaf.Util.Url.{c_str}
use teaf.Util.Split.{break_at, split_ign}
use teaf.Util.Numbers.{atoi, to_unsigned}
use teaf.Util.Maps.Dict.{lex, insert, insert_all, lookup}
use teaf.Util.Replace.{find}

-- FIELD_NAME_CMD, FIELD_NAME_UIN, FIELD_NAME_RESULT and "_rflag".
abbrev pub cmd_name : Bytes
cmd_name = b'c' ∷ b'm' ∷ b'd' ∷ []

abbrev pub uin_name : Bytes
uin_name = b'u' ∷ b'i' ∷ b'n' ∷ []

abbrev pub result_name : Bytes
result_name = b'r' ∷ b'e' ∷ b's' ∷ b'u' ∷ b'l' ∷ b't' ∷ []

abbrev pub rflag_name : Bytes
rflag_name = b'_' ∷ b'r' ∷ b'f' ∷ b'l' ∷ b'a' ∷ b'g' ∷ []

-- QMSG_SEP.
abbrev pub separators : Bytes
separators = b'&' ∷ 13 ∷ 10 ∷ []

-- `body` is the C string in `body_`. The fields about the connection are not read by what is modelled
-- here.
pub record QModeMsg : Type 0 where
  pub body : Bytes
  pub body_len : ℕ
  pub msg_map : List (Bytes × Bytes)
  pub cmd : ℕ
  pub uin : ℕ
  pub rflag : ℕ

-- The default constructor.
abbrev pub fresh_msg : QModeMsg
fresh_msg = record { body = []; body_len = 0; msg_map = []; cmd = 0; uin = 0; rflag = 0 }

-- A carriage return at the end is overwritten by the terminator.
abbrev pub chop : Bytes → ℕ → Bytes
chop body len = if ltb 0 len && get_or body (len - 1) 0 == 13 then take (len - 1) body else body

-- A piece between separators: with no `=` it is passed over; `name` has QMSG_NAME_LEN bytes.
abbrev pub field_of : Bytes × Bytes → List (Bytes × Bytes) → List (Bytes × Bytes)
field_of (name, []) fields = fields
field_of (name, c ∷ value) fields = (take 63 name, value) ∷ fields

abbrev pub fields_of : List Bytes → List (Bytes × Bytes)
fields_of [] = []
fields_of (p ∷ ps) = field_of (break_at (λ c. c == b'=') p) (fields_of ps)

-- The loop over strtok_r, which passes over empty pieces as split_ign does.
unfoldable pub read_fields : Bytes → List (Bytes × Bytes)
read_fields text = fields_of (split_ign text separators)

abbrev pub or_empty : Option Bytes → Bytes
or_empty none = []
or_empty (some v) = v

-- `map[name]`: a name that is not there is entered with an empty value.
abbrev pub value_of : Bytes → List (Bytes × Bytes) → Bytes
value_of name m = or_empty (lookup lex name m)

abbrev pub touch_at : Option Bytes → Bytes → List (Bytes × Bytes) → List (Bytes × Bytes)
touch_at none name m = insert lex name [] m
touch_at (some v) name m = m

abbrev pub touch : Bytes → List (Bytes × Bytes) → List (Bytes × Bytes)
touch name m = touch_at (lookup lex name m) name m

unfoldable pub parse_msg : QModeMsg → QModeMsg
parse_msg m =
    let body = chop m.body m.body_len in
    let fields = insert_all lex (read_fields (take m.body_len body)) [] in
    record m {
      body = body;
      msg_map = touch rflag_name (touch uin_name (touch cmd_name fields));
      cmd = to_u32 (atoi (value_of cmd_name fields));
      uin = to_unsigned (value_of uin_name (touch cmd_name fields));
      rflag = to_u32 (atoi (value_of rflag_name (touch uin_name (touch cmd_name fields))));
    }

-- `max_len` is QMSG_MAX_LEN. `snprintf` writes one character less, and returns the whole length.
unfoldable pub set_body : ℕ → QModeMsg → Bytes → QModeMsg
set_body max_len m text = parse_msg (record m {
  body = take (max_len - 1) (c_str text);
  body_len = min max_len (length (c_str text));
})

unfoldable pub is_have : QModeMsg → Bytes → ℤ
is_have m name = elim (find name m.body) [ none ↦ negsuc 0 | some parts ↦ pos 0 ]

-- `no_field` is ERROR_NO_FIELD.
unfoldable pub get_result : ℤ → QModeMsg → QModeMsg × ℤ
get_result no_field m = elim (find result_name m.body) [
  | none ↦ (m, no_field)
  | some parts ↦
      (record m { msg_map = touch result_name m.msg_map }, atoi (value_of result_name m.msg_map))
]
