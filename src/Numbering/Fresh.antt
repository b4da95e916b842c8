-- ===== src/Numbering/Fresh.antt =====
-- An automatic number and the numbers that its query found.
use mathlib.Core.List.{append_assoc}
use invoicing_be.Base.{
  ℕ, ◌+◌, ◌^◌, ◌≤◌, ◌<◌, ◌≡◌, ◌≢◌, ◌∙◌, ap, true, false, Option, none, some, List, [], ◌∷◌, ◌++◌,
  arith, All,
}
use invoicing_be.Text.{Text}
use invoicing_be.Numbering.{
  split, last, atoi, MachineInt, larger, max_seq, decimal, padded, next_text, prefix, generate,
}
use invoicing_be.Numbering.Digits.{digits_value-padded, atoi-padded, last-split}

-- The sequence number of a text, as the scan reads it.
abbrev pub sequence : Text → Option MachineInt
sequence ref = atoi (last (split b'/' ref))

le-larger : (o : Option MachineInt) (m : ℕ) → m ≤ larger o m
le-larger none m = omega arith
le-larger (some (true, n)) m = ground arith
le-larger (some (false, n)) m = ground arith

le-max_seq : (m : ℕ) (refs : List Text) → m ≤ max_seq m refs
unfolding max_seq
le-max_seq m [] = omega arith
le-max_seq m (ref ∷ refs) =
    omega (arith, le-larger (sequence ref) m, le-max_seq (larger (sequence ref) m) refs)

-- No number found has a greater sequence number than the scan's result.
abbrev pub IsBelow : ℕ → Text → Type 0
IsBelow m ref = (n : ℕ) → sequence ref ≡ some (false, n) → n ≤ m

le-larger-some : (o : Option MachineInt) (m n : ℕ) → o ≡ some (false, n) → n ≤ larger o m
le-larger-some none m n e = cc
le-larger-some (some (true, k)) m n e = cc
le-larger-some (some (false, k)) m n e = ground arith

pub max_seq-IsBelow : (m : ℕ) (refs : List Text) → All (IsBelow (max_seq m refs)) refs
unfolding max_seq
max_seq-IsBelow m [] = tt
max_seq-IsBelow m (ref ∷ refs) = (
  λ n e.
      omega (arith, le-larger-some (sequence ref) m n e, le-max_seq (larger (sequence ref) m) refs),
  max_seq-IsBelow (larger (sequence ref) m) refs,
)

next_text-eq : (m : ℕ) → m + 1 < 2 ^ 63 → next_text m ≡ padded (m + 1)
unfolding next_text
next_text-eq m h = ground arith

prefix-append :
    (label : Text) (year : ℕ) (d : Text)
    → prefix label year ++ d ≡ (label ++ (b'/' ∷ decimal year)) ++ (b'/' ∷ d)
unfolding prefix
prefix-append label year d = simp append_assoc

-- The number after `m` is read back from the end of the text.
sequence-next_text :
    (label : Text) (year m : ℕ)
    → m + 1 < 2 ^ 63
    → sequence (prefix label year ++ next_text m) ≡ some (false, m + 1)
sequence-next_text label year m h =
    rw (next_text-eq m h, prefix-append label year (padded (m + 1)))
      (ap atoi (
          last-split (label ++ (b'/' ∷ decimal year)) (padded (m + 1))
            (digits_value-padded (m + 1)).1)
        ∙ atoi-padded (m + 1) h)

All-ne :
    (m : ℕ) (s : Text) (refs : List Text)
    → sequence s ≡ some (false, m + 1)
    → All (IsBelow m) refs
    → All (λ ref. ref ≢ s) refs
All-ne m s [] e h = tt
All-ne m s (ref ∷ refs) e (low, rest) =
    (λ same. absurd (omega (arith, low (m + 1) (ap sequence same ∙ e))), All-ne m s refs e rest)

-- When the greatest sequence number that was scanned is below the greatest int, the scan reads
-- the sequence number of a generated number back, and it is one more than the greatest that was
-- scanned.
pub sequence-generate :
    (label : Text) (year : ℕ) (numbers : List Text)
    → max_seq 0 numbers + 1 < 2 ^ 63
    → sequence (generate label year numbers) ≡ some (false, max_seq 0 numbers + 1)
unfolding generate
sequence-generate label year numbers h = sequence-next_text label year (max_seq 0 numbers) h

-- When the greatest sequence number that was scanned is below the greatest int, the number that
-- is generated differs from every number that was scanned.
pub generate_fresh :
    (label : Text) (year : ℕ) (numbers : List Text)
    → max_seq 0 numbers + 1 < 2 ^ 63
    → All (λ number. number ≢ generate label year numbers) numbers
unfolding generate
generate_fresh label year numbers h =
    All-ne (max_seq 0 numbers) _ numbers (sequence-next_text label year (max_seq 0 numbers) h)
      (max_seq-IsBelow 0 numbers)
