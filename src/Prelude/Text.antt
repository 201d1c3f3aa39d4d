-- ===== src/Prelude/Text.antt =====
-- Strings as lists of bytes, and facts about a byte that are checked for all 256 of them.
use Prim.Native.Nat.{ℕ, zero, suc, ◌<◌}
use mathlib.Core.Path.{◌≡◌}
use mathlib.Core.Bool.{Bool, true, false, ◌&&◌, ◌||◌}
use mathlib.Core.List.{List}
use native.Mathlib.Omega.{arith}
use teaf.Prelude.Tests.{leb, ◌==◌}
use teaf.Prelude.Lists.{All}

abbrev pub Bytes : Type 0
Bytes = List ℕ

abbrev pub AreBytes : Bytes → Type 0
AreBytes = All (λ c. c < 256)

-- A C string without a terminator inside.
abbrev pub HasNoNul : Bytes → Type 0
HasNoNul = All (λ c. (c == 0) ≡ false)

-- `p` holds at every number below `n`.
unfoldable pub each : (ℕ → Bool) → ℕ → Bool
each p zero = true
each p (suc n) = each p n && p n

pub each-at : (p : ℕ → Bool) (n x : ℕ) → each p n ≡ true → x < n → p x ≡ true
unfolding each
each-at p zero x all below = absurd (omega arith)
each-at p (suc n) x all below = ground (arith, each-at p n x)

-- `isdigit`, `isxdigit`, `toupper` and `tolower` in the C locale.
abbrev pub is_digit : ℕ → Bool
is_digit c = leb b'0' c && leb c b'9'

abbrev pub is_xdigit : ℕ → Bool
is_xdigit c = is_digit c || leb b'A' c && leb c b'F' || leb b'a' c && leb c b'f'
