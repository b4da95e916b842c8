-- ===== src/LineCalc/Stored.antt =====
-- The rows that a document's computed lines are stored as: buildSalesInvoiceLines and
-- buildSalesInvoiceLineTaxes of app/repository/sales_invoice.repository.go, and their likes for bills
-- and orders. gorm refuses to insert an empty list of rows (ErrEmptySlice).
use invoicing_be.Base.{Bool, true, false, List, [], ◌∷◌, if◌then◌else◌}
use invoicing_be.Text.{Text, is_empty, trim_space}
use invoicing_be.LineCalc.{LineResult}

abbrev pub is_nil {ℓ} : {A : Type ℓ} → List A → Bool
is_nil [] = true
is_nil (x ∷ xs) = false

-- The taxes of one line.
unfoldable pub stored_taxes : List Text → List Text
stored_taxes [] = []
stored_taxes (id ∷ ids) =
    let rest = stored_taxes ids in if is_empty (trim_space id) then rest else trim_space id ∷ rest

unfoldable pub stored_lines {ℓ} : {W : Type ℓ} → List (LineResult W) → List (LineResult W)
stored_lines [] = []
stored_lines (l ∷ ls) = (record l { tax_ids = stored_taxes l.tax_ids }) ∷ stored_lines ls
