-- ===== src/Doc/Extension.antt =====
-- `MaExtension` of src/doc.rs: the builder of the `ma:` field. Its `BTreeMap` is the list of the
-- fields in the order of their keys.
use rust_ma_core.Common.{
  Str, codes, str_eq, str_eq_iff, Option, none, some, List, [], ◌∷◌, ◌≡◌, refl, ◌∙◌, Option-cases,
  arith, if◌then◌else◌, inl, inr,
}
use rust_ma_core.Acl.Sets.{str_lt}
use rust_ma_core.Doc.Types.{
  Document, Ipld, Items, Fields, null, text, list, map, nil, item, end, field,
}
use rust_ma_core.Doc.Operations.{set_ma}

-- `map.get(key)` and `map.insert(key, value)`.
unfoldable pub get : Str → Fields → Option Ipld
get key end = none
get key (field k v rest) = let later = get key rest in if str_eq k key then some v else later

unfoldable pub insert : Str → Ipld → Fields → Fields
unfolding str_lt
insert key value end = field key value end
insert key value (field k v rest) =
    let later = insert key value rest in
    if str_eq k key
    then field key value rest
    else if str_lt key k
    then field key value (field k v rest)
    else field k v later

pub record MaExtension : Type 0 where
  pub fields : Fields

abbrev pub type_key : Str
type_key = codes "type"

abbrev pub services_key : Str
services_key = codes "services"

unfoldable pub new : MaExtension
new = record { fields = end }

unfoldable pub kind : Str → MaExtension → MaExtension
unfolding insert
kind k ext = record { fields = insert type_key (text k) ext.fields }

unfoldable pub push_item : Items → Ipld → Items
push_item nil value = item value nil
push_item (item v rest) value = item v (push_item rest value)

-- A list gets one more entry; a value of another kind stays as it is.
unfoldable pub push_service : Ipld → Str → Ipld
unfolding push_item
push_service (list items) service = list (push_item items (text service))
push_service value service = value

-- `entry("services").or_insert_with(list)`, then the push.
unfoldable pub add_service : Str → MaExtension → MaExtension
unfolding insert push_service get
add_service service ext = elim (get services_key ext.fields) [
  | none ↦ record { fields = insert services_key (push_service (list nil) service) ext.fields }
  | some value ↦ record { fields = insert services_key (push_service value service) ext.fields }
]

abbrev pub texts : List Str → Items
texts [] = nil
texts (s ∷ rest) = item (text s) (texts rest)

unfoldable pub services : List Str → MaExtension → MaExtension
unfolding insert
services list_of ext = record { fields = insert services_key (list (texts list_of)) ext.fields }

unfoldable pub extra : Str → Ipld → MaExtension → MaExtension
unfolding insert
extra key value ext = record { fields = insert key value ext.fields }

abbrev build_fields : Fields → Ipld
build_fields end = null
build_fields (field k v rest) = map (field k v rest)

unfoldable pub build : MaExtension → Ipld
build ext = build_fields ext.fields

unfoldable pub set_ma_extension : MaExtension → Document → Document
unfolding build set_ma
set_ma_extension ext doc = set_ma (build ext) doc

get-insert :
    (key j : Str) (value : Ipld) (fields : Fields)
    → get j (insert key value fields) ≡ (if str_eq key j then some value else get j fields)
unfolding get insert
get-insert key j value end = refl
get-insert key j value (field k v rest) =
    ground (arith, get-insert key j value rest, str_eq_iff k key, str_eq_iff key j, str_eq_iff k j)

-- What a reader of the document's `ma:` field finds under a key.
abbrev pub ma_field : Str → Document → Option Ipld
ma_field key doc = elim doc.ma [
  | none ↦ none
  | some ma ↦ elim ma [ map fields ↦ get key fields | _ ↦ none ]
]

-- The service list that `add_service` leaves, by what stood under the key.
abbrev pub service_list : Option Ipld → Str → Ipld
service_list none service = push_service (list nil) service
service_list (some value) service = push_service value service

pub ma_field-set_ma_extension :
    (key : Str) (ext : MaExtension) (doc : Document)
    → ma_field key (set_ma_extension ext doc) ≡ get key ext.fields
unfolding set_ma_extension get
ma_field-set_ma_extension key ext doc = go ext.fields
  where
    go : (fields : Fields) → ma_field key (set_ma (build_fields fields) doc) ≡ get key fields
    go end = refl
    go (field k v rest) = refl

inserted :
    (k : Str) (value : Ipld) (key : Str) (ext : MaExtension) (doc : Document)
    → ma_field key (set_ma_extension (record { fields = insert k value ext.fields }) doc)
      ≡ (if str_eq k key then some value else get key ext.fields)
inserted k value key ext doc =
    ma_field-set_ma_extension key (record { fields = insert k value ext.fields }) doc
    ∙ get-insert k key value ext.fields

added :
    (service key : Str) (ext : MaExtension) (doc : Document)
    → ma_field key (set_ma_extension (add_service service ext) doc) ≡ (
        if str_eq services_key key
        then some (service_list (get services_key ext.fields) service)
        else get key ext.fields)
unfolding add_service
added service key ext doc = elim (Option-cases (get services_key ext.fields)) [
  | inl missing ↦
      rw (missing, add_service)
        (inserted services_key (push_service (list nil) service) key ext doc)
  | inr (value, found) ↦
      rw (found, add_service) (inserted services_key (push_service value service) key ext doc)
]

-- A document that is given a built extension shows under each key what was put there last: the
-- kind, the whole service list or the list with one more service, an extra value, and otherwise
-- what the extension had.
pub ma_field-built :
    (ext : MaExtension) (doc : Document) (key k : Str) (service : Str) (l : List Str) (value : Ipld)
    → (ma_field key (set_ma_extension (kind k ext) doc)
        ≡ (if str_eq type_key key then some (text k) else get key ext.fields))
      × (ma_field key (set_ma_extension (services l ext) doc)
          ≡ (if str_eq services_key key then some (list (texts l)) else get key ext.fields))
      × (ma_field key (set_ma_extension (add_service service ext) doc) ≡ (
          if str_eq services_key key
          then some (service_list (get services_key ext.fields) service)
          else get key ext.fields))
      × (ma_field key (set_ma_extension (extra k value ext) doc)
          ≡ (if str_eq k key then some value else get key ext.fields))
unfolding kind services extra
ma_field-built ext doc key k service l value = (
  inserted type_key (text k) key ext doc,
  inserted services_key (list (texts l)) key ext doc,
  added service key ext doc,
  inserted k value key ext doc,
)
