-- ===== src/Prelude/Bytes.antt =====
-- Little-endian words in byte sequences (`encoding/binary`, used throughout the disk code).
use Prim.Native.Nat.{ℕ, zero, suc, ◌+◌, ◌-◌, ◌*◌, ◌/◌, ◌%◌, ◌^◌, ◌<◌}
use mathlib.Core.Path.{◌≡◌, ◌∙◌, subst}
use mathlib.Core.List.{List, [], ◌∷◌}
use native.Mathlib.Nat.{pow-suc, mul_comm}
use native.Mathlib.Omega.{arith}
use quarantine_lab.Prelude.Lists.{take, drop}

-- raw[a:b]
abbrev pub slice {ℓ} : {A : Type ℓ} → ℕ → ℕ → List A → List A
slice a b xs = take (b - a) (drop a xs)

abbrev pub le_value : List ℕ → ℕ
le_value [] = 0
le_value (b ∷ bs) = b + 256 * le_value bs

-- The `n` low bytes of a word, the lowest first.
abbrev pub le_bytes : ℕ → ℕ → List ℕ
le_bytes zero x = []
le_bytes (suc n) x = x % 256 ∷ le_bytes n (x / 256)

pub le_value-le_bytes : (n x : ℕ) → x < 256 ^ n → le_value (le_bytes n x) ≡ x
le_value-le_bytes zero x h = omega arith
le_value-le_bytes (suc n) x h =
    let below : x < 256 * 256 ^ n =
      subst (λ (p : ℕ). x < p) (pow-suc 256 n ∙ mul_comm (256 ^ n) 256) h in
    omega (arith, le_value-le_bytes n (x / 256) (omega arith))
