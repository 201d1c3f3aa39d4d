-- ===== src/QMode/Parse.antt =====
-- A message that was written as fields is parsed as these fields.
use teaf.Prelude.{
  HasNoNul, ℕ, ◌-◌, ◌<◌, ◌≡◌, ◌∙◌, refl, sym, ap, List, [], ◌∷◌, All, arith, Bytes, length, take,
  min, subst, to_u32,
}
use teaf.Util.Url.{c_str}
use teaf.Util.Numbers.{atoi, to_unsigned}
use teaf.Util.Maps.Dict.{lex, insert_all}
use teaf.QMode.{
  QModeMsg, chop, fields_of, read_fields, value_of, touch, parse_msg, set_body, cmd_name, uin_name,
  rflag_name,
}
use teaf.QMode.Fields.{last_or_empty, value_of-touch, value_of-insert_all}
use teaf.QMode.Written.{
  Field, IsWellFormed, print, entries, take-all, fields_of-print, read_fields-pieces, chop-fields,
  chop-le,
}

-- What parse_msg reads of a text, with its last carriage return taken off.
read_fields-print :
    (fs : List Field)
    → All IsWellFormed fs
    → read_fields (take (length (print fs)) (chop (print fs) (length (print fs)))) ≡ entries fs
read_fields-print fs h =
    let text = print fs in
    ap read_fields
      (take-all (length text) (chop text (length text)) (chop-le text (length text) (omega arith)))
    ∙ (read_fields-pieces (chop text (length text))
        ∙ (ap fields_of (chop-fields text) ∙ fields_of-print fs h))

c_str-all : (s : Bytes) → HasNoNul s → c_str s ≡ s
c_str-all [] h = refl
c_str-all (c ∷ s) (more, h) = rw more (ap (λ l. c ∷ l) (c_str-all s h))

set_body-parse :
    (max_len : ℕ) (m : QModeMsg) (text : Bytes)
    → HasNoNul text
    → length text < max_len
    → set_body max_len m text ≡ parse_msg (record m { body = text; body_len = length text })
unfolding set_body
set_body-parse max_len m text h short =
    let size : min max_len (length text) ≡ length text = omega arith in
    rw (c_str-all text h, take-all (max_len - 1) text (omega arith), size) refl

-- The values that a message has for its fields.
pub record Carries (m : QModeMsg) (es : List (Bytes × Bytes)) : Type 0 where
  pub values : (k : Bytes) → value_of k m.msg_map ≡ last_or_empty k es
  pub cmd : m.cmd ≡ to_u32 (atoi (last_or_empty cmd_name es))
  pub uin : m.uin ≡ to_unsigned (last_or_empty uin_name es)
  pub rflag : m.rflag ≡ to_u32 (atoi (last_or_empty rflag_name es))

parse_msg-Carries :
    (m : QModeMsg) (es : List (Bytes × Bytes))
    → read_fields (take m.body_len (chop m.body m.body_len)) ≡ es
    → Carries (parse_msg m) es
unfolding parse_msg
parse_msg-Carries m es e =
    let fields = insert_all lex es [] in
    rw (parse_msg, e)
      (record {
        values = λ k.
            value_of-touch k rflag_name (touch uin_name (touch cmd_name fields))
            ∙ (value_of-touch k uin_name (touch cmd_name fields)
                ∙ (value_of-touch k cmd_name fields ∙ value_of-insert_all k es));
        cmd = ap (λ v. to_u32 (atoi v)) (value_of-insert_all cmd_name es);
        uin =
            ap to_unsigned
              (value_of-touch uin_name cmd_name fields ∙ value_of-insert_all uin_name es);
        rflag =
            ap (λ v. to_u32 (atoi v))
              (value_of-touch rflag_name uin_name (touch cmd_name fields)
                ∙ (value_of-touch rflag_name cmd_name fields ∙ value_of-insert_all rflag_name es));
      })

-- A text of well-formed fields, shorter than the buffer and with no NUL inside, is parsed as these
-- fields: every name has the value that stands last for it, or the empty one, and the command, the uin
-- and the flag are the numbers of their fields.
pub set_body-print :
    (max_len : ℕ) (m : QModeMsg) (fs : List Field)
    → All IsWellFormed fs
    → HasNoNul (print fs)
    → length (print fs) < max_len
    → Carries (set_body max_len m (print fs)) (entries fs)
set_body-print max_len m fs good plain short =
    subst (λ n. Carries n (entries fs)) (sym (set_body-parse max_len m (print fs) plain short))
      (parse_msg-Carries (record m { body = print fs; body_len = length (print fs) }) (entries fs)
        (read_fields-print fs good))
