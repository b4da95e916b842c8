-- ===== src/Document/Tests.antt =====
-- The contact and the layout of a document, on concrete rows.
use invoicing_be.Base.{◌≡◌, refl, false, some, [], ◌∷◌, List}
use invoicing_be.Text.{lit, ◌≐◌, is_empty, trim_space, is_space}
use invoicing_be.Store.Table.{Table, find}
use invoicing_be.Document.Template.{is_valid_sales_invoice_template}
use invoicing_be.Document.Contact.{
  ContactPerson, ContactSnap, find_contact, copy_of, contact_snapshot,
}
use invoicing_be.Document.Template.{
  DocumentTemplateDefault, document_template_for, set_template_default,
}

abbrev people : Table ContactPerson
people =
    (
      lit "p",
      record {
        company_id = lit "c";
        mitra_id = lit "m";
        name = lit "Ani";
        position = lit "Buyer";
        phone = lit "1";
        email = lit "a@x";
        deleted = false;
      },
    )
    ∷ []

abbrev ani : ContactSnap
ani = record {
  contact = record {
    id = some (lit "p");
    name = lit "Ani";
    position = lit "Buyer";
    phone = lit "1";
    email = lit "a@x";
  };
  keep = false;
}

-- The contact is found, and copied.
copied : contact_snapshot people (lit "c") (lit "m") (some (lit " p")) (lit "") ≡ some ani
unfolding contact_snapshot find_contact copy_of find is_empty trim_space is_space ◌≐◌
copied = refl

abbrev defaults : List DocumentTemplateDefault
defaults =
    record { company_id = lit "c"; doc_type = lit "sales_invoice"; template = lit "template_2" }
    ∷ []

-- A default is replaced.
replaced :
    document_template_for
      (set_template_default defaults (lit "c") (lit "sales_invoice") (lit "template_3"))
      (lit "c")
      (lit "sales_invoice")
    ≡ lit "template_3"
unfolding is_valid_sales_invoice_template ◌≐◌ document_template_for set_template_default
replaced = refl
