-- ===== src/Intf/Request/Access.antt =====
-- `is_auth` looks for the address as a part of the list.
use mathlib.Core.Option
use teaf.Prelude.{
  ◌≡◌, refl, ap, true, some, [], ◌∷◌, ◌++◌, arith, ◌==◌, Bytes, ℤ, pos, ◌==ℤ◌, if_intro,
  Option-cases, inl, inr,
}
use teaf.Util.Replace.{strip_prefix, find}
use teaf.Intf.Request.{is_auth}

strip_prefix_self : (needle t : Bytes) → strip_prefix needle (needle ++ t) ≡ some t
unfolding strip_prefix
strip_prefix_self [] t = refl
strip_prefix_self (x ∷ xs) t =
    let same : (x == x) ≡ true = ground arith in rw (strip_prefix, same) (strip_prefix_self xs t)

find-prefix : (needle s r : Bytes) → strip_prefix needle s ≡ some r → find needle s ≡ some ([], r)
unfolding find
find-prefix needle [] r h = ap (Option.map (λ l. ([], l))) h
find-prefix needle (c ∷ s) r h = rw (find, h) refl

find-inside :
    (pre needle post : Bytes)
    → (parts : Bytes × Bytes) × (find needle (pre ++ (needle ++ post)) ≡ some parts)
unfolding find
find-inside [] needle post =
    (([], post), find-prefix needle (needle ++ post) post (strip_prefix_self needle post))
find-inside (c ∷ pre) needle post =
    elim (Option-cases (strip_prefix needle (c ∷ (pre ++ (needle ++ post))))) [
      | inr (r, present) ↦ (([], r), rw (find, present) refl)
      | inl absent ↦
          let ((b, r), later) = find-inside pre needle post in
          ((c ∷ b, r), rw (find, absent, later) refl)
    ]

-- An address is admitted as soon as it is a part of the list of addresses, so also where it is only a
-- part of one that is allowed, such as 1.1.1.1 where 11.1.1.12 is.
pub is_auth-part :
    (allow_flag : ℤ) (pre host post : Bytes)
    → is_auth allow_flag (pre ++ (host ++ post)) host ≡ pos 0
unfolding is_auth
is_auth-part allow_flag pre host post =
    let (parts, present) = find-inside pre host post in
    if_intro (λ r. r ≡ pos 0) (allow_flag ==ℤ pos 0) refl (rw present refl)
