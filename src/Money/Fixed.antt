-- ===== src/Money/Fixed.antt =====
-- Decimal numbers with four places, which meet the laws: they let the model run, and show that
-- what theorems assume of float64 can hold.
use mathlib.Core.Path.{ap₂}
use invoicing_be.Base.{
  ℕ, suc, ◌+◌, ◌-◌, ◌*◌, ◌/◌, ◌^◌, ◌≤◌, ◌<◌, ◌≡◌, refl, ap, ◌∙◌, true, not, ◌&&◌, arith, leb, ltb,
  leb→le, le→leb, if◌then◌else◌,
}
use invoicing_be.Money.Interface.{Float, IsOrdered, IsCents, round2}

-- `negsuc n` is -(n + 1) / 10000, and `pos n` is n / 10000.
pub data ℤ : Type 0 where
  pos : ℕ → ℤ
  negsuc : ℕ → ℤ

abbrev pub pos_part : ℤ → ℕ
pos_part (pos n) = n
pos_part (negsuc n) = 0

abbrev pub neg_part : ℤ → ℕ
neg_part (pos n) = 0
neg_part (negsuc n) = suc n

abbrev pub sub_ℕ : ℕ → ℕ → ℤ
sub_ℕ a b = if leb b a then pos (a - b) else negsuc (b - a - 1)

-- A number of the given size, with the sign of a product.
abbrev signed : ℤ → ℤ → ℕ → ℤ
signed (pos a) (pos b) n = pos n
signed (pos a) (negsuc b) n = sub_ℕ 0 n
signed (negsuc a) (pos b) n = sub_ℕ 0 n
signed (negsuc a) (negsuc b) n = pos n

abbrev size : ℤ → ℕ
size (pos n) = n
size (negsuc n) = suc n

instance abbrev pub fixed : Float ℤ
fixed = record {
  nought = pos 0;
  one = pos 10_000;
  hundred = pos 1_000_000;
  epsilon = pos 1;
  plus = λ a b. sub_ℕ (pos_part a + pos_part b) (neg_part a + neg_part b);
  minus = λ a b. sub_ℕ (pos_part a + neg_part b) (neg_part a + pos_part b);
  times = λ a b. signed a b (size a * size b / 10_000);
  over = λ a b. signed a b (size a * 10_000 / size b);
  le = λ a b. leb (pos_part a + neg_part b) (pos_part b + neg_part a);
  lt = λ a b. ltb (pos_part a + neg_part b) (pos_part b + neg_part a);
  round = λ a. signed a (pos 0) ((size a + 5000) / 10_000 * 10_000);
  abs = λ a. pos (size a);
}

lt-eq_fixed : (a b : ℤ) → fixed.lt a b ≡ (fixed.le a b && not (fixed.le b a))
lt-eq_fixed a b = ground arith

le_trans_fixed : (a b c : ℤ) → fixed.le a b ≡ true → fixed.le b c ≡ true → fixed.le a c ≡ true
le_trans_fixed a b c h k = le→leb _ _ (omega (arith, leb→le _ _ h, leb→le _ _ k))

pub fixed-IsOrdered : IsOrdered ℤ
fixed-IsOrdered = record { lt-eq = lt-eq_fixed; le_trans = le_trans_fixed }

-- n cents
abbrev pub of_cents : ℕ → ℤ
of_cents n = pos (n * 100)

round2-cents : (n : ℕ) → round2 (of_cents n) ≡ of_cents n
unfolding round2
round2-cents n = ap pos (omega arith)

pub round2-plus_fixed : (a b : ℕ) → round2 (fixed.plus (of_cents a) (of_cents b)) ≡ of_cents (a + b)
round2-plus_fixed a b =
    let e : fixed.plus (of_cents a) (of_cents b) ≡ of_cents (a + b) = ground arith in
    ap round2 e ∙ round2-cents (a + b)

pub round2-minus_fixed :
    (a b : ℕ) → b ≤ a → round2 (fixed.minus (of_cents a) (of_cents b)) ≡ of_cents (a - b)
round2-minus_fixed a b h =
    let e : fixed.minus (of_cents a) (of_cents b) ≡ of_cents (a - b) = ground arith in
    ap round2 e ∙ round2-cents (a - b)

sub_ℕ-zero : (n : ℕ) → sub_ℕ 0 (suc n) ≡ negsuc n
sub_ℕ-zero n = ground arith

-- The difference of cents where it is below 0: `k` + 1 cents.
round2_negative : (k : ℕ) → round2 (negsuc (k * 100 + 99)) ≡ negsuc (k * 100 + 99)
unfolding round2
round2_negative k =
    let up : fixed.times (negsuc (k * 100 + 99)) fixed.hundred ≡ negsuc (k * 10_000 + 9999) =
      ap (sub_ℕ 0) (omega arith) ∙ sub_ℕ-zero (k * 10_000 + 9999) in
    let whole : fixed.round (negsuc (k * 10_000 + 9999)) ≡ negsuc (k * 10_000 + 9999) =
      ap (sub_ℕ 0) (omega arith) ∙ sub_ℕ-zero (k * 10_000 + 9999) in
    let down : fixed.over (negsuc (k * 10_000 + 9999)) fixed.hundred ≡ negsuc (k * 100 + 99) =
      ap (sub_ℕ 0) (omega arith) ∙ sub_ℕ-zero (k * 100 + 99) in
    ap (λ x. fixed.over (fixed.round x) fixed.hundred) up
    ∙ (ap (λ x. fixed.over x fixed.hundred) whole ∙ down)

minus_negative_fixed :
    (a b c : ℕ)
    → a < b
    → fixed.lt (round2 (fixed.minus (of_cents a) (of_cents b))) (of_cents c) ≡ true
minus_negative_fixed a b c h =
    let e : fixed.minus (of_cents a) (of_cents b) ≡ negsuc ((b - a - 1) * 100 + 99) =
      ground arith in
    rw (e, round2_negative (b - a - 1)) (ground arith)

abbrev pub cents : ℤ → ℕ
cents a = pos_part a / 100

abbrev pub most_cents : ℕ
most_cents = 10 ^ 15

abbrev pub IsAmount : ℤ → Type 0
IsAmount a = (a ≡ of_cents (cents a)) × (cents a ≤ most_cents)

pub of_cents-IsAmount : (n : ℕ) → n ≤ most_cents → IsAmount (of_cents n)
of_cents-IsAmount n h = (ap pos (omega arith), omega arith)

pub cents-of_cents : (n : ℕ) → cents (of_cents n) ≡ n
cents-of_cents n = omega arith

pub plus-eq :
    (a b : ℤ) → IsAmount a → IsAmount b → round2 (fixed.plus a b) ≡ of_cents (cents a + cents b)
plus-eq a b h k =
    ap₂ (λ x y. round2 (fixed.plus x y)) h.0 k.0 ∙ round2-plus_fixed (cents a) (cents b)

pub minus-eq :
    (a b : ℤ)
    → IsAmount a
    → IsAmount b
    → cents b ≤ cents a
    → round2 (fixed.minus a b) ≡ of_cents (cents a - cents b)
minus-eq a b h k m =
    ap₂ (λ x y. round2 (fixed.minus x y)) h.0 k.0 ∙ round2-minus_fixed (cents a) (cents b) m

pub minus_negative-eq :
    (a b c : ℤ)
    → IsAmount a
    → IsAmount b
    → IsAmount c
    → cents a < cents b
    → fixed.lt (round2 (fixed.minus a b)) c ≡ true
minus_negative-eq a b c h k l m =
    ap₃ a b c h.0 k.0 l.0 ∙ minus_negative_fixed (cents a) (cents b) (cents c) m
  where
    ap₃ :
        (x y z : ℤ) {x' y' z' : ℤ}
        → x ≡ x'
        → y ≡ y'
        → z ≡ z'
        → fixed.lt (round2 (fixed.minus x y)) z ≡ fixed.lt (round2 (fixed.minus x' y')) z'
    ap₃ x y z p q r = λ i. fixed.lt (round2 (fixed.minus (p i) (q i))) (r i)

unfoldable pub fixed-IsCents : IsCents ℤ
fixed-IsCents = record {
  IsAmount = IsAmount;
  cents = cents;
  limit = most_cents;
  amount-le-limit = λ a h. h.1;
  nought-IsAmount = (refl, omega arith);
  cents-nought = refl;
  le-eq = λ a b h k. ground arith;
  lt-eq = λ a b h k. ground arith;
  plus-IsAmount = λ a b h k m. rw (plus-eq a b h k) (of_cents-IsAmount (cents a + cents b) m);
  cents-plus = λ a b h k m. rw (plus-eq a b h k) (cents-of_cents (cents a + cents b));
  minus-IsAmount =
      λ a b h k m. rw (minus-eq a b h k m) (of_cents-IsAmount (cents a - cents b) (omega arith));
  cents-minus = λ a b h k m. rw (minus-eq a b h k m) (cents-of_cents (cents a - cents b));
  minus_negative = minus_negative-eq;
}
