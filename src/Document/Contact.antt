-- ===== src/Document/Contact.antt =====
-- app/repository/contact_person.repository.go: the contact that a document is saved with.
use invoicing_be.Base.{Bool, true, false, not, ◌&&◌, Option, none, some, if◌then◌else◌}
use invoicing_be.Text.{Text, lit, ◌≐◌, is_empty, trim_space}
use invoicing_be.Store.Table.{Table, find}

pub record ContactPerson : Type 0 where
  pub company_id : Text
  pub mitra_id : Text
  pub name : Text
  pub position : Text
  pub phone : Text
  pub email : Text
  pub deleted : Bool

-- The contact columns of a document: a reference, and a copy of the details.
pub record DocumentContact : Type 0 where
  pub id : Option Text
  pub name : Text
  pub position : Text
  pub phone : Text
  pub email : Text

pub record ContactSnap : Type 0 where
  pub contact : DocumentContact
  pub keep : Bool

abbrev pub no_contact : Option Text → DocumentContact
no_contact id = record { id = id; name = lit ""; position = lit ""; phone = lit ""; email = lit "" }

unfoldable pub deref_str : Option Text → Text
deref_str none = lit ""
deref_str (some p) = p

-- The contact with this ID, if it is this partner's in this company and not deleted.
unfoldable pub find_contact : Table ContactPerson → Text → Text → Text → Option ContactPerson
find_contact contacts company mitra id = elim (find contacts id) [
  | none ↦ none
  | some c ↦
      if (c.company_id ≐ company) && (c.mitra_id ≐ mitra) && not c.deleted then some c else none
]

-- A copy of a contact's details.
unfoldable pub copy_of : Text → Option ContactPerson → Option ContactSnap
copy_of id none = none
copy_of id (some c) = some (record {
  contact = record {
    id = some id;
    name = c.name;
    position = c.position;
    phone = c.phone;
    email = c.email;
  };
  keep = false;
})

-- contactSnapshot; `none` is errContactInvalid
unfoldable pub contact_snapshot :
    Table ContactPerson → Text → Text → Option Text → Text → Option ContactSnap
contact_snapshot contacts company mitra none current =
    some (record { contact = no_contact none; keep = false })
contact_snapshot contacts company mitra (some contact) current =
    let id = trim_space contact in
    if is_empty id
    then some (record { contact = no_contact none; keep = false })
    else if not (is_empty current) && (id ≐ current)
    then some (record { contact = no_contact (some id); keep = true })
    else copy_of id (find_contact contacts company mitra id)

-- What a document's contact columns become.
abbrev pub contact_after : ContactSnap → DocumentContact → DocumentContact
contact_after snap contact = if snap.keep then contact else snap.contact
