-- ===== src/Ibc/Encode/Fits.antt =====
-- The text of an answer that fits.
use teaf.Prelude.{
  ℕ, zero, suc, ◌+◌, ◌-◌, ◌*◌, ◌≤◌, ◌<◌, ◌≡◌, refl, sym, ap, subst, ◌∙◌, Bool, false, List, [], ◌∷◌,
  ◌++◌, ◌&&◌, arith, ltb, leb, ◌==◌, if◌then◌else◌, Bytes, length, length-append, take, take-append,
  drop, u32_mod, add32, to_u32, Bool-cases, inl, inr,
}
use mathlib.Core.List.{append_assoc, append-nil}
use teaf.Util.Url.{c_str}
use teaf.Util.Numbers.{decimal}
use teaf.QMode.Written.{Field, print}
use teaf.Ibc.Records.{Value}
use teaf.Ibc.Encode.{
  Config, Buffer, signed, print_at, room_for, front_text, head_text, info_text, zeros, is_nonempty,
  front_part, items_loop, info_part, end_part, encode_text,
}

-- The bytes of `b` up to its length are `s`.
record Holds (b : Buffer) (s : Bytes) : Type 0 where
  held : take b.1 b.0 ≡ s
  size : length s ≡ b.1

take_all : (n : ℕ) (s : Bytes) → length s ≤ n → take n s ≡ s
take_all zero [] h = refl
take_all zero (c ∷ s) h = absurd (omega arith)
take_all (suc n) [] h = refl
take_all (suc n) (c ∷ s) h = ap (λ l. c ∷ l) (take_all n s (omega arith))

take-prefix : (s rest : Bytes) → take (length s) (s ++ rest) ≡ s
take-prefix s rest =
    take-append (length s) s rest (omega arith) ∙ take_all (length s) s (omega arith)

written :
    (room : ℕ) (text s rest : Bytes)
    → length text < room
    → s ++ ((take (room - 1) text ++ (0 ∷ [])) ++ rest) ≡ (s ++ text) ++ ((0 ∷ []) ++ rest)
written room text s rest fits = rw (take_all (room - 1) text (omega arith)) (
    ap (λ t. s ++ t) (append_assoc text (0 ∷ []) rest)
    ∙ sym (append_assoc s text ((0 ∷ []) ++ rest)))

print_at-Holds :
    (room : ℕ) (text : Bytes) (b : Buffer) (s : Bytes)
    → Holds b s
    → length text < room
    → b.1 + length text < u32_mod
    → Holds (print_at room text b) (s ++ text)
print_at-Holds room text (buf, len) s h fits small =
    let sum = length-append s text in
    let size = h.size in
    let total : add32 len (length text) ≡ length (s ++ text) = omega arith in
    let some_room : (room == 0) ≡ false = ground arith in
    let rest = drop (len + length (take (room - 1) text ++ (0 ∷ []))) buf in
    record {
      held =
          rw (total, some_room, h.held)
            (ap (take (length (s ++ text))) (written room text s rest fits)
              ∙ take-prefix (s ++ text) ((0 ∷ []) ++ rest));
      size = sym total;
    }

room_for-fits :
    (c : Config) (res len : ℕ)
    → len + res ≤ c.max_len
    → c.max_len < u32_mod
    → room_for c res len ≡ c.max_len - (len + res)
room_for-fits c res len fits small = omega arith

prints-Holds :
    (c : Config) (res : ℕ) (text : Bytes) (b : Buffer) (s : Bytes)
    → Holds b s
    → length s + length text + res < c.max_len
    → c.max_len < u32_mod
    → Holds (print_at (room_for c res b.1) text b) (s ++ text)
prints-Holds c res text b s h fits small =
    let size = h.size in
    let room = room_for-fits c res b.1 (omega arith) small in
    print_at-Holds (room_for c res b.1) text b s h (omega arith) (omega arith)

-- The records of a list, each with a bar behind.
abbrev pub bars : List Bytes → Bytes
bars [] = []
bars (i ∷ is) = c_str i ++ (b'|' ∷ bars is)

-- The value of the field info.
abbrev pub results : Value → Bytes
results v = if is_nonempty v.msg_list then bars v.msg_list else c_str v.msg

abbrev pub no_front : Value → Bool
no_front v = v.front_sock_fd == 0 && v.front_sock_seq == 0 && v.front_msg_seq == 0

abbrev sent_field : Bytes → Bytes → Field
sent_field name value = record { name = name; value = value; ending = b'&' }

-- The fields that take the answer on, if another gateway stands in front.
abbrev pub front_fields : Value → List Field
front_fields v =
    sent_field (b'_' ∷ b's' ∷ b'o' ∷ b'c' ∷ b'k' ∷ b'f' ∷ b'd' ∷ []) (signed v.front_sock_fd)
    ∷ sent_field (b'_' ∷ b's' ∷ b'o' ∷ b'c' ∷ b'k' ∷ b'_' ∷ b's' ∷ b'e' ∷ b'q' ∷ [])
        (signed v.front_sock_seq)
    ∷ sent_field (b'_' ∷ b'm' ∷ b's' ∷ b'g' ∷ b'_' ∷ b's' ∷ b'e' ∷ b'q' ∷ [])
        (signed v.front_msg_seq)
    ∷ sent_field (b'_' ∷ b'p' ∷ b'r' ∷ b'o' ∷ b't' ∷ []) (signed v.front_prot)
    ∷ sent_field (b'_' ∷ b't' ∷ b'i' ∷ b'm' ∷ b'e' ∷ []) (signed v.front_time)
    ∷ sent_field (b'_' ∷ b'r' ∷ b'f' ∷ b'l' ∷ b'a' ∷ b'g' ∷ []) (signed (to_u32 v.front_rflag))
    ∷ []

-- The fields of every answer before info.
abbrev pub answer_fields : Value → List Field
answer_fields v =
    sent_field (b'c' ∷ b'm' ∷ b'd' ∷ []) (signed v.cmd)
    ∷ sent_field (b'r' ∷ b'e' ∷ b's' ∷ b'u' ∷ b'l' ∷ b't' ∷ []) (b'0' ∷ [])
    ∷ sent_field (b'u' ∷ b'i' ∷ b'n' ∷ []) (decimal v.uin)
    ∷ sent_field (b't' ∷ b'o' ∷ b't' ∷ b'a' ∷ b'l' ∷ []) (signed v.total)
    ∷ sent_field (b'c' ∷ b'n' ∷ b'u' ∷ b'm' ∷ []) (signed v.cnum)
    ∷ sent_field (b's' ∷ b'n' ∷ b'u' ∷ b'm' ∷ []) (signed v.snum)
    ∷ []

-- The answer without the separator.
abbrev pub reply_body : Value → Bytes
reply_body v =
    (if no_front v then [] else print (front_fields v))
    ++ (print (answer_fields v) ++ (b'i' ∷ b'n' ∷ b'f' ∷ b'o' ∷ b'=' ∷ results v))

-- Texts, each with an ampersand behind, as the source puts them together.
abbrev amps : List Bytes → Bytes → Bytes
amps [] r = r
amps (a ∷ ts) r = a ++ (b'&' ∷ amps ts r)

amps-append : (ts : List Bytes) (r t : Bytes) → amps ts r ++ t ≡ amps ts (r ++ t)
amps-append [] r t = refl
amps-append (a ∷ ts) r t =
    append_assoc a (b'&' ∷ amps ts r) t ∙ ap (λ x. a ++ (b'&' ∷ x)) (amps-append ts r t)

abbrev assigned : List Field → List Bytes
assigned [] = []
assigned (f ∷ fs) = (f.name ++ (b'=' ∷ f.value)) ∷ assigned fs

abbrev last_count : Value → Bytes
last_count v = b's' ∷ b'n' ∷ b'u' ∷ b'm' ∷ b'=' ∷ signed v.snum

head_text-print : (v : Value) (t : Bytes) → head_text v ++ (b'&' ∷ t) ≡ print (answer_fields v) ++ t
unfolding head_text
head_text-print v t =
    amps-append (assigned (take 5 (answer_fields v))) (last_count v) (b'&' ∷ t)
    ∙ sym (amps-append (assigned (answer_fields v)) [] t)

front_part-Holds :
    (c : Config) (v : Value)
    → length (if no_front v then [] else print (front_fields v)) < c.max_len
    → c.max_len < u32_mod
    → Holds
        (front_part c v (zeros (suc c.max_len), 0))
        (if no_front v then [] else print (front_fields v))
unfolding front_part front_text
front_part-Holds c v fits small = elim (Bool-cases (no_front v)) [
  | inl none ↦ rw none (record { held = refl; size = refl })
  | inr some_front ↦
      let short : length (print (front_fields v)) < c.max_len =
        subst (λ b. length (if b then [] else print (front_fields v)) < c.max_len) some_front
          fits in
      rw some_front (
        prints-Holds c 0 (front_text v) (zeros (suc c.max_len), 0) []
          (record { held = refl; size = refl }) (omega arith) small)
]

items_loop-Holds :
    (c : Config) (is : List Bytes) (b : Buffer) (s : Bytes)
    → Holds b s
    → length s + length (bars is) + c.res_len * 4 < c.max_len
    → c.max_len < u32_mod
    → Holds (items_loop c is b) (s ++ bars is)
unfolding items_loop
items_loop-Holds c [] b s h fits small = subst (Holds b) (sym (append-nil s)) h
items_loop-Holds c (i ∷ is) b s h fits small =
    let size = h.size in
    let item = length-append (c_str i) (b'|' ∷ bars is) in
    let mark = length-append (c_str i) (b'|' ∷ []) in
    let more : leb c.max_len (add32 b.1 (c.res_len * 4)) ≡ false = ground arith in
    let printed = prints-Holds c c.res_len (c_str i ++ (b'|' ∷ [])) b s h (omega arith) small in
    let sum = length-append s (c_str i ++ (b'|' ∷ [])) in
    let rest =
      items_loop-Holds c is _ (s ++ (c_str i ++ (b'|' ∷ []))) printed (omega arith) small in
    rw more (
      subst (Holds _)
        (append_assoc s (c_str i ++ (b'|' ∷ [])) (bars is)
          ∙ ap (λ t. s ++ t) (append_assoc (c_str i) (b'|' ∷ []) (bars is)))
        rest)

info_part-Holds :
    (c : Config) (v : Value) (b : Buffer) (s : Bytes)
    → Holds b s
    → length s + (6 + length (results v)) + c.res_len * 4 < c.max_len
    → c.max_len < u32_mod
    → Holds (info_part c v b) (s ++ (info_text ++ results v))
unfolding info_part
info_part-Holds c v b s h fits small = elim (Bool-cases (is_nonempty v.msg_list)) [
  | inl listed ↦
      let short : length s + (6 + length (bars v.msg_list)) + c.res_len * 4 < c.max_len =
        rw listed at fits in
      let sum = length-append s info_text in
      rw (info_part, listed)
        (subst (Holds _) (append_assoc s info_text (bars v.msg_list)) (
          items_loop-Holds c v.msg_list _ (s ++ info_text)
            (prints-Holds c c.res_len info_text b s h (omega arith) small) (omega arith) small))
  | inr unlisted ↦
      let short : length s + (6 + length (c_str v.msg)) + c.res_len * 4 < c.max_len =
        rw unlisted at fits in
      rw (info_part, unlisted)
        (prints-Holds c c.res_len (info_text ++ c_str v.msg) b s h (omega arith) small)
]

end_part-Holds :
    (c : Config) (b : Buffer) (s : Bytes)
    → Holds b s
    → length s + suc (length c.separator) < c.max_len
    → c.max_len < u32_mod
    → Holds (end_part c b) (s ++ c.separator)
unfolding end_part
end_part-Holds c (buf, len) s h fits small =
    let size = h.size in
    let short : ltb (c.max_len - suc (length c.separator)) len ≡ false = ground arith in
    rw short (prints-Holds c 0 c.separator (buf, len) s h (omega arith) small)

-- An answer that fits the message with the reserve that the code keeps for it is: the fields for the
-- gateway in front, if there is one; the command, a result of 0, the uin and the three counts, each
-- under its name; the field info with the results, those of the list with a bar behind each if there is
-- a list; and the separator, which is shorter than the reserve.
pub encode_text-fits :
    (c : Config) (v : Value)
    → c.max_len < u32_mod
    → length c.separator < c.res_len
    → length (reply_body v) + c.res_len * 4 < c.max_len
    → take (encode_text c v).1 (encode_text c v).0 ≡ reply_body v ++ c.separator
unfolding encode_text
encode_text-fits c v small reserve fits =
    let info = b'i' ∷ b'n' ∷ b'f' ∷ b'o' ∷ b'=' ∷ results v in
    let pre : Bytes = if no_front v then [] else print (front_fields v) in
    let same : (pre ++ head_text v) ++ (info_text ++ results v) ≡ reply_body v =
      append_assoc pre (head_text v) (info_text ++ results v)
      ∙ ap (λ t. pre ++ t) (head_text-print v info) in
    let whole = ap length same in
    let outer = length-append (pre ++ head_text v) (info_text ++ results v) in
    let inner = length-append pre (head_text v) in
    let front = front_part-Holds c v (omega arith) small in
    let head = prints-Holds c 0 (head_text v) _ pre front (omega arith) small in
    let told = info_part-Holds c v _ (pre ++ head_text v) head (omega arith) small in
    subst (λ t. take (encode_text c v).1 (encode_text c v).0 ≡ t ++ c.separator) same
      (end_part-Holds c _ ((pre ++ head_text v) ++ (info_text ++ results v)) told (omega arith)
        small).held
