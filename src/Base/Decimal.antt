-- ===== src/Base/Decimal.antt =====
-- `str(n)` and `f"{n:04d}"`, with the reading that undoes them.
use drift_mariadb_client.Base.Equality.{ltb, leb, if◌then◌else◌}
use drift_mariadb_client.Base.Lists.{length}
use drift_mariadb_client.Base.Texts.{Text}
use Prim.Native.Nat.{ℕ, zero, suc, ◌+◌, ◌-◌, ◌*◌, ◌/◌, ◌%◌, ◌≤◌, ◌<◌}
use mathlib.Core.Path.{◌≡◌, refl, sym, ap, ◌∙◌}
use mathlib.Core.Bool.{Bool, ◌&&◌}
use mathlib.Core.List.{[], ◌∷◌, ◌++◌}
use native.Mathlib.Omega.{arith}

-- The digits of `n` before `out`; `n` rounds are enough.
show_loop : ℕ → ℕ → Text → Text
show_loop zero n out = (b'0' + n % 10) ∷ out
show_loop (suc fuel) n out =
    let rest = show_loop fuel (n / 10) ((b'0' + n % 10) ∷ out) in
    if ltb n 10 then (b'0' + n % 10) ∷ out else rest

unfoldable pub decimal : ℕ → Text
unfolding show_loop
decimal n = show_loop n n []

pad_zeros : ℕ → Text → Text
pad_zeros zero s = s
pad_zeros (suc k) s = b'0' ∷ pad_zeros k s

-- `f"{n:04d}"`: at least four digits.
unfoldable pub decimal4 : ℕ → Text
unfolding pad_zeros decimal
decimal4 n = pad_zeros (4 - length (decimal n)) (decimal n)

abbrev is_digit : ℕ → Bool
is_digit c = leb b'0' c && leb c b'9'

-- The number that the leading digits make, read on from `acc`.
unfoldable pub read_number : ℕ → Text → ℕ
read_number acc [] = acc
read_number acc (c ∷ s) =
    let more = read_number (acc * 10 + (c - b'0')) s in if is_digit c then more else acc

read_digit :
    (acc d : ℕ) (s : Text)
    → d < 10
    → read_number acc ((b'0' + d) ∷ s) ≡ read_number (acc * 10 + d) s
unfolding read_number
read_digit acc d s h = let e : b'0' + d - b'0' ≡ d = omega arith in rw e (ground arith)

read_number-show_loop :
    (fuel n : ℕ) (out : Text) → n ≤ fuel → read_number 0 (show_loop fuel n out) ≡ read_number n out
unfolding show_loop
read_number-show_loop zero n out h = ground (arith, read_digit 0 (n % 10) out)
read_number-show_loop (suc fuel) n out h = ground (
  arith,
  read_number-show_loop fuel (n / 10) ((b'0' + n % 10) ∷ out),
  read_digit (n / 10) (n % 10) out,
  read_digit 0 (n % 10) out,
)

show_loop-append :
    (fuel n : ℕ) (out more : Text) → show_loop fuel n (out ++ more) ≡ show_loop fuel n out ++ more
unfolding show_loop
show_loop-append zero n out more = refl
show_loop-append (suc fuel) n out more =
    ground (arith, show_loop-append fuel (n / 10) ((b'0' + n % 10) ∷ out) more)

read_number-pad_zeros :
    (k : ℕ) (s more : Text) → read_number 0 (pad_zeros k s ++ more) ≡ read_number 0 (s ++ more)
unfolding pad_zeros
read_number-pad_zeros zero s more = refl
read_number-pad_zeros (suc k) s more =
    read_digit 0 0 (pad_zeros k s ++ more) (omega arith) ∙ read_number-pad_zeros k s more

-- The number is read back whatever text follows it.
pub read_number-decimal4 :
    (n : ℕ) (more : Text) → read_number 0 (decimal4 n ++ more) ≡ read_number n more
unfolding decimal4
read_number-decimal4 n more =
    read_number-pad_zeros (4 - length (decimal n)) (decimal n) more
    ∙ ap (read_number 0) (sym (show_loop-append n n [] more))
    ∙ read_number-show_loop n n more (omega arith)
