-- ===== src/Base/Text.antt =====
-- Text as the list of its code points, with the parts of Go's package `strings` that are used.
use Prim.Native.Char.{code}
use Prim.Native.Nat.{ℕ, ◌+◌}
use Prim.Native.String.{String}
use mathlib.Core.Path.{◌≡◌, refl}
use mathlib.Core.Bool.{Bool, true, false, ◌||◌, ◌&&◌}
use native.Mathlib.Omega.{arith}
use mathlib.Core.List.{List, [], ◌∷◌}
use operator_sdk.Base.Tests.{leb, nat_beq, if◌then◌else◌}

abbrev pub codes : String → List ℕ
codes String.[] = []
codes (String.◌∷◌ c s) = code c ∷ codes s

-- `unicode.IsSpace`
unfoldable pub is_space : ℕ → Bool
is_space c =
    (leb 9 c && leb c 13)
    || (nat_beq c 32
        || (nat_beq c 133
            || (nat_beq c 160
                || (nat_beq c 5760
                    || ((leb 8192 c && leb c 8202)
                        || (nat_beq c 8232
                            || (nat_beq c 8233
                                || (nat_beq c 8239 || (nat_beq c 8287 || nat_beq c 12288)))))))))

unfoldable pub trim_left : List ℕ → List ℕ
unfolding is_space
trim_left [] = []
trim_left (c ∷ cs) = let rest = trim_left cs in if is_space c then rest else c ∷ cs

-- Spaces at the end go with what follows them.
unfoldable pub trim_right : List ℕ → List ℕ
unfolding is_space
trim_right [] = []
trim_right (c ∷ cs) = elim (trim_right cs) [
  | [] ↦ if is_space c then [] else c ∷ []
  | d ∷ ds ↦ c ∷ d ∷ ds
]

-- `strings.TrimSpace`
unfoldable pub trim_space : List ℕ → List ℕ
unfolding trim_left trim_right
trim_space s = trim_right (trim_left s)

-- `unicode.ToLower`, for what it makes an ASCII letter: the capitals, İ and the Kelvin sign. A
-- comparison with ASCII text needs no more.
unfoldable pub lower_ascii : ℕ → ℕ
lower_ascii c =
    if leb 65 c && leb c 90
    then c + 32
    else if nat_beq c 304
    then 105
    else if nat_beq c 8490
    then 107
    else c

unfoldable pub to_lower : List ℕ → List ℕ
unfolding lower_ascii
to_lower [] = []
to_lower (c ∷ cs) = lower_ascii c ∷ to_lower cs

abbrev pub same : List ℕ → List ℕ → Bool
same [] [] = true
same (c ∷ cs) (d ∷ ds) = nat_beq c d && same cs ds
same _ _ = false

pub same-eq : (cs ds : List ℕ) → same cs ds ≡ true → cs ≡ ds
same-eq [] [] h = refl
same-eq [] (d ∷ ds) h = cc
same-eq (c ∷ cs) [] h = cc
same-eq (c ∷ cs) (d ∷ ds) h = ground (arith, same-eq cs ds)

pub same_self : (cs : List ℕ) → same cs cs ≡ true
same_self [] = refl
same_self (c ∷ cs) = ground (arith, same_self cs)
