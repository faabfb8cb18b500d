-- ===== src/Base/Int.antt =====
-- The integers, for the places where the source's numbers go below 0.
use agent_os.Base.{ℕ, suc, ◌+◌, ◌-◌, ◌≤◌, Bool, true, ltb, leb, if◌then◌else◌, ◌≡◌, arith}

-- `negsuc n` is -(n + 1).
pub data ℤ : Type 0 where
  pos : ℕ → ℤ
  negsuc : ℕ → ℤ

abbrev pub pos_part : ℤ → ℕ
pos_part (pos n) = n
pos_part (negsuc n) = 0

abbrev pub neg_part : ℤ → ℕ
neg_part (pos n) = 0
neg_part (negsuc n) = suc n

-- a - b, as an integer.
abbrev pub sub_ℕ : ℕ → ℕ → ℤ
sub_ℕ a b = if leb b a then pos (a - b) else negsuc (b - a - 1)

infixl 65 ◌+ℤ◌
unfoldable pub ◌+ℤ◌ : ℤ → ℤ → ℤ
a +ℤ b = sub_ℕ (pos_part a + pos_part b) (neg_part a + neg_part b)

unfoldable pub ltb_ℤ : ℤ → ℤ → Bool
ltb_ℤ a b = ltb (pos_part a + neg_part b) (pos_part b + neg_part a)

unfoldable pub min_ℤ : ℤ → ℤ → ℤ
unfolding ltb_ℤ
min_ℤ a b = if ltb_ℤ b a then b else a

-- A sum with a number that is not negative, and with one that is not positive.
pub +ℤ-sub_ℕ : (n a b : ℕ) → b ≤ a → pos n +ℤ sub_ℕ a b ≡ pos (n + (a - b))
unfolding ◌+ℤ◌
+ℤ-sub_ℕ n a b le = ground arith

pub ltb_ℤ-+ℤ :
    (z : ℤ) (a b n : ℕ) → a ≤ b → ltb_ℤ z (pos n) ≡ true → ltb_ℤ (z +ℤ sub_ℕ a b) (pos n) ≡ true
unfolding ◌+ℤ◌ ltb_ℤ
ltb_ℤ-+ℤ (pos m) a b n le lt = ground arith
ltb_ℤ-+ℤ (negsuc m) a b n le lt = ground arith
