-- ===== src/Tests/QMode.antt =====
-- comm/qmode_msg.cpp: the message "cmd=101&uin=10000&info=result\r\n".
use teaf.Prelude.{HasNoNul, ◌≡◌, refl, some, List, [], ◌∷◌, All, arith, pos, negsuc}
use teaf.Util.Split.{break_at, skip_all, split_ign, split_ign_loop}
use teaf.Util.Numbers.{digits_value, atoi}
use teaf.Util.Maps.Dict.{insert, insert_all, lookup}
use teaf.Util.Replace.{find, strip_prefix}
use teaf.QMode.{
  QModeMsg, fresh_msg, read_fields, parse_msg, set_body, get_result, result_name, cmd_name,
}
use teaf.QMode.Written.{Field, IsWellFormed, print, entries}
use teaf.QMode.Parse.{Carries, set_body-print}
use teaf.QMode.Result.{get_result-missing}

abbrev fields : List Field
fields =
    record { name = cmd_name; value = b'1' ∷ b'0' ∷ b'1' ∷ []; ending = b'&' }
    ∷ record { name = b'i' ∷ b'n' ∷ b'f' ∷ b'o' ∷ []; value = result_name; ending = 13 }
    ∷ []

abbrev parsed : QModeMsg
parsed = set_body 8400 fresh_msg (print fields)

cmd_of_parsed : parsed.cmd ≡ 101
unfolding set_body parse_msg read_fields split_ign split_ign_loop skip_all break_at insert
    insert_all lookup atoi digits_value
cmd_of_parsed = refl

fields-AreWellFormed : All IsWellFormed fields
fields-AreWellFormed = (
  record {
    plain_name = (refl, (refl, (refl, tt)));
    no_equals = (refl, (refl, (refl, tt)));
    short_name = omega arith;
    plain_value = (refl, (refl, (refl, tt)));
    ended = refl;
  },
  (
    record {
      plain_name = (refl, (refl, (refl, (refl, tt))));
      no_equals = (refl, (refl, (refl, (refl, tt))));
      short_name = omega arith;
      plain_value = (refl, (refl, (refl, (refl, (refl, (refl, tt))))));
      ended = refl;
    },
    tt,
  ),
)

fields-HasNoNul : HasNoNul (print fields)
fields-HasNoNul = (search (tt))

set_body-print_example : Carries (set_body 8400 fresh_msg (print fields)) (entries fields)
set_body-print_example =
    set_body-print 8400 fresh_msg fields fields-AreWellFormed fields-HasNoNul (omega arith)

found :
    find result_name parsed.body
    ≡ some (
      b'c' ∷ b'm' ∷ b'd' ∷ b'=' ∷ b'1' ∷ b'0' ∷ b'1' ∷ b'&' ∷ b'i' ∷ b'n' ∷ b'f' ∷ b'o' ∷ b'=' ∷ [],
      [],
    )
unfolding set_body parse_msg find strip_prefix
found = refl

get_result-missing_example :
    (get_result (negsuc 0) (set_body 8400 fresh_msg (print fields))).1 ≡ pos 0
get_result-missing_example =
    get_result-missing 8400 (negsuc 0) fresh_msg fields _ fields-AreWellFormed fields-HasNoNul
      (omega arith) refl found
