-- ===== src/Sales/Books/Sums.antt =====
-- Sums over the rows of allocations: how they change with the rows of one receipt.
use invoicing_be.Base.{
  ◌+◌, ◌≡◌, refl, ap, inl, inr, Bool, true, false, List, [], ◌∷◌, ◌++◌, arith, All, Bool-cases,
}
use invoicing_be.Text.{Text, ◌≐◌, ≐_iff, less}
use invoicing_be.Money.{Float, IsCents}
use invoicing_be.Sales.Model.{SalesReceiptAllocation}
use invoicing_be.Sales.Receipt.{
  AllocationDto, insert_row, insert_allocation, sort_allocations, rows_of, without_rows_of,
  allocation_rows,
}
use invoicing_be.Sales.Receipt.Ledger.{given_to, booked_to, IsPayment, IsBooked}
use invoicing_be.Sales.Books.{allocated}

module _ {ℓ} {W : Type ℓ} ⦃f : Float W⦄ (laws : IsCents W) where
  open laws use {IsAmount, cents}

  given_to-insert :
      (id : Text) (a : AllocationDto W) (as' : List (AllocationDto W))
      → given_to laws id (insert_allocation a as') ≡ given_to laws id (a ∷ as')
  unfolding insert_allocation
  given_to-insert id a [] = refl
  given_to-insert id a (b ∷ as') = ground (arith, given_to-insert id a as')

  -- Sorting changes no sum.
  pub given_to-sort :
      (id : Text) (as' : List (AllocationDto W))
      → given_to laws id (sort_allocations as') ≡ given_to laws id as'
  unfolding sort_allocations
  given_to-sort id [] = refl
  given_to-sort id (a ∷ as') =
      ground (arith, given_to-insert id a (sort_allocations as'), given_to-sort id as')

  All-insert :
      (a : AllocationDto W) (as' : List (AllocationDto W))
      → IsPayment laws a
      → All (IsPayment laws) as'
      → All (IsPayment laws) (insert_allocation a as')
  unfolding insert_allocation
  All-insert a [] p ps = (p, tt)
  All-insert a (b ∷ as') p (q, qs) =
      elim (Bool-cases (less b.sales_invoice_id a.sales_invoice_id)) [
        | inl after ↦ rw after (q, All-insert a as' p qs)
        | inr here ↦ rw here (p, (q, qs))
      ]

  pub All-sort :
      (as' : List (AllocationDto W))
      → All (IsPayment laws) as'
      → All (IsPayment laws) (sort_allocations as')
  unfolding sort_allocations
  All-sort [] ps = tt
  All-sort (a ∷ as') (p, ps) = All-insert a (sort_allocations as') p (All-sort as' ps)

  pub allocated-append :
      (live : Text → Bool) (xs ys : List (SalesReceiptAllocation W)) (id : Text)
      → allocated laws live (xs ++ ys) id ≡ allocated laws live xs id + allocated laws live ys id
  allocated-append live [] ys id = omega arith
  allocated-append live (x ∷ xs) ys id = ground (arith, allocated-append live xs ys id)

  -- The rows of a live receipt count by what its allocations give.
  pub allocated-rows :
      (live : Text → Bool) (company receipt : Text) (as' : List (AllocationDto W)) (id : Text)
      → live receipt ≡ true
      → allocated laws live (allocation_rows company receipt as') id ≡ given_to laws id as'
  unfolding allocation_rows
  allocated-rows live company receipt [] id h = refl
  allocated-rows live company receipt (a ∷ as') id h =
      ground (arith, allocated-rows live company receipt as' id h)

  pub IsBooked-rows :
      (company receipt : Text) (as' : List (AllocationDto W))
      → All (IsPayment laws) as'
      → All (IsBooked laws) (allocation_rows company receipt as')
  unfolding allocation_rows
  IsBooked-rows company receipt [] ps = tt
  IsBooked-rows company receipt (a ∷ as') (p, ps) = (p, IsBooked-rows company receipt as' ps)

  booked_to-insert :
      (id : Text) (a : SalesReceiptAllocation W) (as' : List (SalesReceiptAllocation W))
      → booked_to laws id (insert_row a as') ≡ booked_to laws id (a ∷ as')
  unfolding insert_row
  booked_to-insert id a [] = refl
  booked_to-insert id a (b ∷ as') = ground (arith, booked_to-insert id a as')

  -- The rows of a live receipt, and the other rows, make up the sum.
  pub allocated_split :
      (live : Text → Bool) (receipt : Text) (as' : List (SalesReceiptAllocation W)) (id : Text)
      → live receipt ≡ true
      → allocated laws live as' id
        ≡ allocated laws live (without_rows_of receipt as') id
          + booked_to laws id (rows_of receipt as')
  unfolding without_rows_of rows_of
  allocated_split live receipt [] id h = omega arith
  allocated_split live receipt (a ∷ as') id h = elim (Bool-cases (a.sales_receipt_id ≐ receipt)) [
    | inl mine ↦ rw mine (
        ground (
          arith,
          ap live ((≐_iff a.sales_receipt_id receipt).0 mine),
          booked_to-insert id a (rows_of receipt as'),
          allocated_split live receipt as' id h,
        ))
    | inr other ↦ rw other (ground (arith, allocated_split live receipt as' id h))
  ]

  -- Of the other rows the receipt's own state is not asked.
  pub allocated_others :
      (live live' : Text → Bool) (receipt : Text) (as' : List (SalesReceiptAllocation W))
      (id : Text)
      → ((j : Text) → (j ≐ receipt) ≡ false → live' j ≡ live j)
      → allocated laws live' (without_rows_of receipt as') id
        ≡ allocated laws live (without_rows_of receipt as') id
  unfolding without_rows_of
  allocated_others live live' receipt [] id h = refl
  allocated_others live live' receipt (a ∷ as') id h =
      ground (arith, h a.sales_receipt_id, allocated_others live live' receipt as' id h)

  -- The rows of a receipt that is not live do not count.
  pub allocated_dead :
      (live : Text → Bool) (receipt : Text) (as' : List (SalesReceiptAllocation W)) (id : Text)
      → live receipt ≡ false
      → allocated laws live as' id ≡ allocated laws live (without_rows_of receipt as') id
  unfolding without_rows_of
  allocated_dead live receipt [] id h = refl
  allocated_dead live receipt (a ∷ as') id h = elim (Bool-cases (a.sales_receipt_id ≐ receipt)) [
    | inl mine ↦ rw mine (
        ground (
          arith,
          ap live ((≐_iff a.sales_receipt_id receipt).0 mine),
          allocated_dead live receipt as' id h,
        ))
    | inr other ↦ rw other (ground (arith, allocated_dead live receipt as' id h))
  ]

  IsBooked-insert :
      (a : SalesReceiptAllocation W) (as' : List (SalesReceiptAllocation W))
      → IsBooked laws a
      → All (IsBooked laws) as'
      → All (IsBooked laws) (insert_row a as')
  unfolding insert_row
  IsBooked-insert a [] p ps = (p, tt)
  IsBooked-insert a (b ∷ as') p (q, qs) =
      elim (Bool-cases (less b.sales_invoice_id a.sales_invoice_id)) [
        | inl after ↦ rw after (q, IsBooked-insert a as' p qs)
        | inr here ↦ rw here (p, (q, qs))
      ]

  pub IsBooked-rows_of :
      (receipt : Text) (as' : List (SalesReceiptAllocation W))
      → All (IsBooked laws) as'
      → All (IsBooked laws) (rows_of receipt as')
        × All (IsBooked laws) (without_rows_of receipt as')
  unfolding rows_of without_rows_of
  IsBooked-rows_of receipt [] ps = (tt, tt)
  IsBooked-rows_of receipt (a ∷ as') (p, ps) =
      let (mine, others) = IsBooked-rows_of receipt as' ps in
      elim (Bool-cases (a.sales_receipt_id ≐ receipt)) [
        | inl e ↦ rw e (IsBooked-insert a (rows_of receipt as') p mine, others)
        | inr e ↦ rw e (mine, (p, others))
      ]

  pub All-append-IsBooked :
      (xs ys : List (SalesReceiptAllocation W))
      → All (IsBooked laws) xs
      → All (IsBooked laws) ys
      → All (IsBooked laws) (xs ++ ys)
  All-append-IsBooked [] ys ps qs = qs
  All-append-IsBooked (x ∷ xs) ys (p, ps) qs = (p, All-append-IsBooked xs ys ps qs)
