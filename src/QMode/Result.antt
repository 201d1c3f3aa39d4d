-- ===== src/QMode/Result.antt =====
-- get_result: the word is looked for in the whole text, the value under the field's name.
use teaf.Prelude.{
  HasNoNul, ℕ, ◌<◌, ◌≡◌, ◌∙◌, refl, ap, none, some, List, All, Bytes, length, ℤ, pos,
}
use teaf.Util.Numbers.{atoi}
use teaf.Util.Replace.{find}
use teaf.QMode.{QModeMsg, result_name, set_body, get_result}
use teaf.QMode.Fields.{last_value, last_or_empty}
use teaf.QMode.Written.{Field, IsWellFormed, print, entries}
use teaf.QMode.Parse.{Carries, set_body-print}

get_result-Carries :
    (no_field : ℤ) (m : QModeMsg) (es : List (Bytes × Bytes)) (parts : Bytes × Bytes)
    → Carries m es
    → find result_name m.body ≡ some parts
    → (get_result no_field m).1 ≡ atoi (last_or_empty result_name es)
unfolding get_result
get_result-Carries no_field m es parts c found =
    rw (get_result, found) (ap atoi (c.values result_name))

-- Of a text of well-formed fields that holds the word result, for example in a value, but has no
-- field of this name, get_result answers 0, success, and not that the field is missing.
pub get_result-missing :
    (max_len : ℕ) (no_field : ℤ) (m : QModeMsg) (fs : List Field) (parts : Bytes × Bytes)
    → All IsWellFormed fs
    → HasNoNul (print fs)
    → length (print fs) < max_len
    → last_value result_name (entries fs) ≡ none
    → find result_name (set_body max_len m (print fs)).body ≡ some parts
    → (get_result no_field (set_body max_len m (print fs))).1 ≡ pos 0
unfolding atoi
get_result-missing max_len no_field m fs parts good plain short missing found =
    get_result-Carries no_field (set_body max_len m (print fs)) (entries fs) parts
      (set_body-print max_len m fs good plain short) found
    ∙ rw missing refl
