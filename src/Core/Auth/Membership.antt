-- ===== src/Core/Auth/Membership.antt =====
-- The constant-time test of `UserAuth::is_authorized` decides plain membership.
use Prim.Native.Nat.{bit_or, bit_xor}
use hold_the_donut.Prelude.{
  ℕ, ◌<◌, ◌≡◌, ◌≢◌, ◌↔◌, ◌⊎◌, refl, true, false, List, [], ◌∷◌, length, All, IsByte,
}
use hold_the_donut.Prelude.{arith, any, bytes_eq, bytes_eq_refl, bytes_eq→eq, Bool-cases, inl, inr}
use hold_the_donut.Prelude.Bits.{
  bit_or-zero, bit_or-eq_zero, bit_xor-eq_zero, bit_xor_self, bit_or-lt, bit_xor-lt,
}
use hold_the_donut.Core.Id.{UserId, IsUserId}
use hold_the_donut.Core.Auth.{diff_loop, match_mask, found_loop, is_authorized}

diff_loop_self : (a : List ℕ) → diff_loop a a 0 ≡ 0
unfolding diff_loop
diff_loop_self [] = refl
diff_loop_self (x ∷ a) = rw bit_xor_self (diff_loop_self a)

-- A difference once seen is never lost.
diff_loop_start : (a b : List ℕ) (d : ℕ) → diff_loop a b d ≡ 0 → d ≡ 0
unfolding diff_loop
diff_loop_start [] b d h = h
diff_loop_start (x ∷ a) [] d h = h
diff_loop_start (x ∷ a) (y ∷ b) d h =
    (bit_or-eq_zero d (bit_xor x y) (diff_loop_start a b (bit_or d (bit_xor x y)) h)).0

diff_loop-eq_zero : (a b : List ℕ) (d : ℕ) → length a ≡ length b → diff_loop a b d ≡ 0 → a ≡ b
unfolding diff_loop
diff_loop-eq_zero [] [] d e h = refl
diff_loop-eq_zero [] (y ∷ b) d e h = absurd (omega arith)
diff_loop-eq_zero (x ∷ a) [] d e h = absurd (omega arith)
diff_loop-eq_zero (x ∷ a) (y ∷ b) d e h =
    let both = bit_or-eq_zero d (bit_xor x y) (diff_loop_start a b (bit_or d (bit_xor x y)) h) in
    cc (bit_xor-eq_zero x y both.1, diff_loop-eq_zero a b (bit_or d (bit_xor x y)) (omega arith) h)

diff_loop-byte :
    (a b : List ℕ) (d : ℕ) → All IsByte a → All IsByte b → d < 256 → diff_loop a b d < 256
unfolding diff_loop
diff_loop-byte [] b d p q h = h
diff_loop-byte (x ∷ a) [] d p q h = h
diff_loop-byte (x ∷ a) (y ∷ b) d (px, p) (qy, q) h =
    diff_loop-byte a b (bit_or d (bit_xor x y)) p q
      (bit_or-lt 8 d (bit_xor x y) h (bit_xor-lt 8 x y px qy))

mask_of_zero : match_mask 0 ≡ 255
unfolding match_mask
mask_of_zero = refl

mask_of_byte : (d : ℕ) → d < 256 → d ≢ 0 → match_mask d ≡ 0
unfolding match_mask
mask_of_byte d h n = omega arith

mask_decides :
    (u cand : UserId)
    → IsUserId u
    → IsUserId cand
    → ((bytes_eq u cand ≡ true) × (match_mask (diff_loop u cand 0) ≡ 255))
      ⊎ ((bytes_eq u cand ≡ false) × (match_mask (diff_loop u cand 0) ≡ 0))
mask_decides u cand (lu, bu) (lc, bc) = elim (Bool-cases (bytes_eq u cand)) [
  | inl same ↦ inl (same, rw (bytes_eq→eq u cand same) (rw diff_loop_self mask_of_zero))
  | inr other ↦ inr (
    other,
    mask_of_byte _ (diff_loop-byte u cand 0 bu bc (omega arith))
        λ z. cc (other, bytes_eq_refl u, diff_loop-eq_zero u cand 0 (omega arith) z),
  )
]

-- `found` stays 0 exactly while no user matched.
found_loop-any :
    (users : List UserId) (cand : UserId) (found : ℕ)
    → All IsUserId users
    → IsUserId cand
    → (found_loop users cand found ≡ 0) ↔ ((found ≡ 0) × (any (λ u. bytes_eq u cand) users ≡ false))
unfolding found_loop any
found_loop-any [] cand found us c = (λ h. (h, refl), λ h. h.0)
found_loop-any (u ∷ users) cand found (hu, us) c = elim (mask_decides u cand hu c) [
  | inl (same, mask) ↦
      rw (same, mask)
        (
          λ h. absurd (
              omega (
                arith,
                bit_or-eq_zero found 255
                    ((found_loop-any users cand (bit_or found 255) us c).0 h).0,
              )),
          λ h. cc (h.1),
        )
  | inr (other, mask) ↦ rw (other, mask, bit_or-zero found) (found_loop-any users cand found us c)
]

-- For any list of user ids and any candidate, all of 16 bytes, the branch-free test over every
-- configured user answers true exactly if the candidate is one of them.
pub is_authorized-any :
    (users : List UserId) (cand : UserId)
    → All IsUserId users
    → IsUserId cand
    → is_authorized (record { users = users }) cand ≡ any (λ u. bytes_eq u cand) users
unfolding is_authorized
is_authorized-any users cand us c = elim (Bool-cases (any (λ u. bytes_eq u cand) users)) [
  | inl found ↦ rw found (
      ground
        (arith, λ (z : found_loop users cand 0 ≡ 0). ((found_loop-any users cand 0 us c).0 z).1))
  | inr none_found ↦ rw (none_found, (found_loop-any users cand 0 us c).1 (refl, none_found))
]
