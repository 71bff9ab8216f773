-- ===== src/Transport/Tests.antt =====
-- The theorems on src/transport.rs at concrete strings.
use rust_ma_core.Common.{Str, codes, some, ◌≡◌, refl, trim}
use rust_ma_core.Transport.{text, array, entry, end, object, resolve_inbox_endpoint_id, item, nil}

abbrev first_id : Str
first_id = codes "ABCDEFAAAAAAAAAAAAAAAAAAAAAAAAAAAAAAAAAAAAAAAAAAAAAAAAAAAAAAAAAA"

abbrev second_id : Str
second_id = codes "0123456789abcdef0123456789abcdef0123456789abcdef0123456789abcdef"

abbrev inbox : Str
inbox = codes "/ma/inbox/0.0.1"

-- An object is read by its keys.
object_test :
    resolve_inbox_endpoint_id
      (some (array (item (object (entry (codes "iroh") (text second_id) end)) nil)))
    ≡ some second_id
unfolding resolve_inbox_endpoint_id trim
object_test = refl
