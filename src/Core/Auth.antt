-- ===== src/Core/Auth.antt =====
-- `UserAuth` and `AuthHandle` of crates/donut-core/src/id.rs: the set of accepted users, and the
-- handle through which the server swaps it.
pub mod Membership
use Prim.Native.Nat.{bit_or, bit_xor}
use hold_the_donut.Prelude.{ℕ, ◌+◌, ◌/◌, ◌%◌, Bool, not, List, [], ◌∷◌, length, ◌==◌}
use hold_the_donut.Core.Id.{UserId}

pub record UserAuth : Type 0 where
  pub users : List UserId

-- `for i in 0..16 { diff |= a[i] ^ cand[i]; }`
unfoldable pub diff_loop : List ℕ → List ℕ → ℕ → ℕ
diff_loop (x ∷ a) (y ∷ cand) diff = diff_loop a cand (bit_or diff (bit_xor x y))
diff_loop _ _ diff = diff

-- `((diff as u16).wrapping_sub(1) >> 8) as u8`
unfoldable pub match_mask : ℕ → ℕ
match_mask diff = (diff + 65535) % 65536 / 256 % 256

-- The loop over all users, which never stops early.
unfoldable pub found_loop : List UserId → UserId → ℕ → ℕ
unfolding diff_loop match_mask
found_loop [] cand found = found
found_loop (u ∷ users) cand found =
    found_loop users cand (bit_or found (match_mask (diff_loop u cand 0)))

-- `UserAuth::is_authorized`
unfoldable pub is_authorized : UserAuth → UserId → Bool
unfolding found_loop
is_authorized auth cand = not (found_loop auth.users cand 0 == 0)

-- `AuthHandle`: the current snapshot.
pub record AuthHandle : Type 0 where
  pub snapshot : UserAuth

unfoldable pub store : AuthHandle → UserAuth → AuthHandle
store h auth = record { snapshot = auth }

unfoldable pub handle_is_authorized : AuthHandle → UserId → Bool
unfolding is_authorized
handle_is_authorized h cand = is_authorized h.snapshot cand
