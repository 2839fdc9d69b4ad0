-- ===== src/Base/Endian.antt =====
-- Byte strings, and unsigned integers as big-endian bytes (`to_be_bytes`, `from_be_bytes`).
use Prim.Native.Nat.{ℕ, zero, suc, ◌+◌, ◌*◌, ◌/◌, ◌%◌, ◌^◌, ◌<◌}
use mathlib.Core.Path.{◌≡◌, refl, ap, ◌∙◌}
use mathlib.Core.List.{List, [], ◌∷◌, ◌++◌, append_assoc, append-nil}
use native.Mathlib.Omega.{arith}
use native.Mathlib.Nat.{pow-suc}
use co_net_l0d.Base.Lists.{length, length-append, All, All-append}

abbrev pub Bytes : Type 0
Bytes = List ℕ

abbrev pub IsBytes : Bytes → Type 0
IsBytes bs = All (λ b. b < 256) bs

-- The lowest `n` bytes of a number, the highest first.
unfoldable pub be_bytes : ℕ → ℕ → Bytes
be_bytes zero v = []
be_bytes (suc n) v = be_bytes n (v / 256) ++ (v % 256) ∷ []

unfoldable pub from_be_onto : ℕ → Bytes → ℕ
from_be_onto acc [] = acc
from_be_onto acc (b ∷ bs) = from_be_onto (acc * 256 + b) bs

unfoldable pub from_be : Bytes → ℕ
unfolding from_be_onto
from_be bs = from_be_onto 0 bs

pub length-be_bytes : (n v : ℕ) → length (be_bytes n v) ≡ n
unfolding be_bytes
length-be_bytes zero v = refl
length-be_bytes (suc n) v =
    omega
      (arith, length-append (be_bytes n (v / 256)) ((v % 256) ∷ []), length-be_bytes n (v / 256))

pub be_bytes-IsBytes : (n v : ℕ) → IsBytes (be_bytes n v)
unfolding be_bytes
be_bytes-IsBytes zero v = tt
be_bytes-IsBytes (suc n) v =
    All-append (λ b. b < 256) (be_bytes n (v / 256)) _ (be_bytes-IsBytes n (v / 256)) (omega arith)

from_be_onto-append :
    (acc : ℕ) (xs ys : Bytes) → from_be_onto acc (xs ++ ys) ≡ from_be_onto (from_be_onto acc xs) ys
unfolding from_be_onto
from_be_onto-append acc [] ys = refl
from_be_onto-append acc (x ∷ xs) ys = from_be_onto-append (acc * 256 + x) xs ys

-- A number that fits is read back from its bytes.
pub from_be-be_bytes : (n v : ℕ) → v < 256 ^ n → from_be (be_bytes n v) ≡ v
unfolding be_bytes from_be
from_be-be_bytes zero v h = omega arith
from_be-be_bytes (suc n) v h =
    from_be_onto-append 0 (be_bytes n (v / 256)) ((v % 256) ∷ [])
    ∙ omega (arith, from_be-be_bytes n (v / 256) (omega (arith, pow-suc 256 n)))

be_bytes-from_be_onto :
    (n k acc : ℕ) (bs : Bytes)
    → n ≡ length bs + k
    → IsBytes bs
    → be_bytes n (from_be_onto acc bs) ≡ be_bytes k acc ++ bs
unfolding be_bytes from_be_onto
be_bytes-from_be_onto n k acc [] e h =
    rw append-nil (ap (λ m. be_bytes m acc) (let same : n ≡ k = omega arith in same))
be_bytes-from_be_onto n k acc (b ∷ bs) e (p, h) =
    let high : (acc * 256 + b) / 256 ≡ acc = omega arith in
    let low : (acc * 256 + b) % 256 ≡ b = omega arith in
    be_bytes-from_be_onto n (suc k) (acc * 256 + b) bs (omega arith) h
    ∙ append_assoc (be_bytes k ((acc * 256 + b) / 256)) (((acc * 256 + b) % 256) ∷ []) bs
    ∙ rw (high, low) refl

-- And every byte string is the bytes of the number that it reads as.
pub be_bytes-from_be : (bs : Bytes) → IsBytes bs → be_bytes (length bs) (from_be bs) ≡ bs
unfolding be_bytes from_be
be_bytes-from_be bs h = be_bytes-from_be_onto (length bs) 0 0 bs (omega arith) h
