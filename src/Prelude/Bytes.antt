-- ===== src/Prelude/Bytes.antt =====
-- Little-endian words, and `[u8; 8]` tokens.
use Prim.Native.Nat.{ℕ, zero, suc, ◌+◌, ◌*◌, ◌/◌, ◌%◌, ◌^◌, ◌<◌}
use native.Mathlib.Nat.{pow-suc}
use mathlib.Core.Path.{◌≡◌, refl}
use mathlib.Core.List.{List, [], ◌∷◌}
use mathlib.Core.Option.{Option, none, some}
use native.Mathlib.Omega.{arith}
use gridpool_sv2_pool.Prelude.Tests.{◌==◌, if◌then◌else◌}
use gridpool_sv2_pool.Prelude.Lists.{length}

-- `from_le_bytes`
unfoldable pub from_le_bytes : List ℕ → ℕ
from_le_bytes [] = 0
from_le_bytes (b ∷ bytes) = b + 256 * from_le_bytes bytes

-- `to_le_bytes` of a word of the given number of bytes
unfoldable pub to_le_bytes : ℕ → ℕ → List ℕ
to_le_bytes zero n = []
to_le_bytes (suc size) n = n % 256 ∷ to_le_bytes size (n / 256)

-- `try_as_array::<8>` and `u64::from_le_bytes`
unfoldable pub parse_token : List ℕ → Option ℕ
unfolding from_le_bytes
parse_token bytes = if length bytes == 8 then some (from_le_bytes bytes) else none

pub length-to_le_bytes : (size n : ℕ) → length (to_le_bytes size n) ≡ size
unfolding to_le_bytes
length-to_le_bytes zero n = refl
length-to_le_bytes (suc size) n = omega (arith, length-to_le_bytes size (n / 256))

pub from_le_bytes-to_le_bytes :
    (size n : ℕ) → n < 256 ^ size → from_le_bytes (to_le_bytes size n) ≡ n
unfolding from_le_bytes to_le_bytes
from_le_bytes-to_le_bytes zero n h = omega arith
from_le_bytes-to_le_bytes (suc size) n h =
    omega (arith, from_le_bytes-to_le_bytes size (n / 256) (omega (arith, pow-suc 256 size)))

-- A token that is written as eight bytes reads back.
pub parse_token-to_le_bytes : (n : ℕ) → n < 2 ^ 64 → parse_token (to_le_bytes 8 n) ≡ some n
unfolding parse_token
parse_token-to_le_bytes n h = ground (arith, length-to_le_bytes 8 n, from_le_bytes-to_le_bytes 8 n)
