-- ===== src/Document/Template.antt =====
-- app/repository/document_template.repository.go: the layout that a new document prints with, which
-- is asked for or else the company's default for the kind of document.
use invoicing_be.Base.{Bool, ◌&&◌, ◌||◌, List, [], ◌∷◌, if◌then◌else◌}
use invoicing_be.Text.{Text, lit, ◌≐◌, is_empty, trim_space}

unfoldable pub is_valid_sales_invoice_template : Text → Bool
is_valid_sales_invoice_template v =
    (v ≐ lit "template_1")
    || (v ≐ lit "template_2")
    || (v ≐ lit "template_3")
    || (v ≐ lit "template_4")
    || (v ≐ lit "template_5")
    || (v ≐ lit "template_6")
    || (v ≐ lit "template_7")

pub record DocumentTemplateDefault : Type 0 where
  pub company_id : Text
  pub doc_type : Text
  pub template : Text

-- DefaultSalesInvoiceTemplate
abbrev pub default_template : Text
default_template = lit "template_1"

unfoldable pub document_template_for : List DocumentTemplateDefault → Text → Text → Text
document_template_for [] company doc_type = default_template
document_template_for (row ∷ rows) company doc_type =
    let rest = document_template_for rows company doc_type in
    if (row.company_id ≐ company) && (row.doc_type ≐ doc_type)
    then (if is_valid_sales_invoice_template row.template then row.template else default_template)
    else rest

unfoldable pub template_for_doc : List DocumentTemplateDefault → Text → Text → Text → Text
template_for_doc defaults company doc_type explicit =
    let v = trim_space explicit in
    if is_empty v then document_template_for defaults company doc_type else v

-- DocumentTemplateDefaultTypes
unfoldable pub is_valid_document_template_type : Text → Bool
is_valid_document_template_type t =
    (t ≐ lit "sales_invoice")
    || (t ≐ lit "down_payment")
    || (t ≐ lit "sales_order")
    || (t ≐ lit "purchase_invoice")
    || (t ≐ lit "purchase_order")

-- DocumentTemplateRepository.Set: a new row, or the row of this company and kind changed.
unfoldable pub set_template_default :
    List DocumentTemplateDefault → Text → Text → Text → List DocumentTemplateDefault
set_template_default [] company doc_type template =
    record { company_id = company; doc_type = doc_type; template = template } ∷ []
set_template_default (row ∷ rows) company doc_type template =
    let rest = set_template_default rows company doc_type template in
    if (row.company_id ≐ company) && (row.doc_type ≐ doc_type)
    then (record row { template = template }) ∷ rows
    else row ∷ rest
