-- ===== src/IntervalTree/Balance.antt =====
-- The tests of src/data_structures/interval_tree.cpp on a balance factor.
use packet_classifier.Prelude.{ℕ, ◌+◌, ◌≤◌, ◌<◌, true, false, ◌≡◌, arith}
use packet_classifier.Prelude.Int.{pos, negsuc, sub_ℕ, ltb_ℤ, leb_ℤ}

-- The tests on a balance factor, as tests on the two heights.
pub left_heavy : (a b : ℕ) → b + 1 < a → ltb_ℤ (pos 1) (sub_ℕ a b) ≡ true
left_heavy a b h = ground arith

pub not_left_heavy : (a b : ℕ) → a ≤ b + 1 → ltb_ℤ (pos 1) (sub_ℕ a b) ≡ false
not_left_heavy a b h = ground arith

pub right_heavy : (a b : ℕ) → a + 1 < b → ltb_ℤ (sub_ℕ a b) (negsuc 0) ≡ true
right_heavy a b h = ground arith

pub not_right_heavy : (a b : ℕ) → b ≤ a + 1 → ltb_ℤ (sub_ℕ a b) (negsuc 0) ≡ false
not_right_heavy a b h = ground arith

pub leans_left : (a b : ℕ) → b ≤ a → leb_ℤ (pos 0) (sub_ℕ a b) ≡ true
leans_left a b h = ground arith

pub leans_right : (a b : ℕ) → a ≤ b → leb_ℤ (sub_ℕ a b) (pos 0) ≡ true
leans_right a b h = ground arith

pub not_leans_left : (a b : ℕ) → a < b → leb_ℤ (pos 0) (sub_ℕ a b) ≡ false
not_leans_left a b h = ground arith

pub not_leans_right : (a b : ℕ) → b < a → leb_ℤ (sub_ℕ a b) (pos 0) ≡ false
not_leans_right a b h = ground arith

pub below_zero : (a b : ℕ) → a < b → ltb_ℤ (sub_ℕ a b) (pos 0) ≡ true
below_zero a b h = ground arith

pub above_zero : (a b : ℕ) → b < a → ltb_ℤ (pos 0) (sub_ℕ a b) ≡ true
above_zero a b h = ground arith
