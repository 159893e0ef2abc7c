-- ===== src/AddressBookHash.antt =====
-- src/xmpp_p2p_chat/common/addressbook_hash.py: the content hash of an address book, and its
-- picture as a grid. The digest itself is a parameter.
pub mod Grid
pub mod Canonical
use Prim.Native.String.{[], ◌∷◌, ◌++◌ as append}
use serverless_xmpp.Base.{
  ℕ, zero, suc, ◌+◌, ◌-◌, ◌*◌, String, Char, code, Bool, true, false, ◌&&◌, Option, none, some,
  List, ◌∷◌, map, leb, if◌then◌else◌, text_leb, text_take, remove_prefix, starts_with,
}
use serverless_xmpp.Base.Outcome.{Result, ok, err, value_error, ◌>>=◌}
use serverless_xmpp.Base.Sorting.{sort_by}
use serverless_xmpp.Models.JsonData.{Json, Fields, str, end, field, get}

-- `dict(sorted(c.items()))`
unfoldable pub insert_field : String → Json → Fields → Fields
insert_field k v end = field k v end
insert_field k v (field j w d) =
    let rest = field j w (insert_field k v d) in
    if text_leb k j then field k v (field j w d) else rest

unfoldable pub sort_keys : Fields → Fields
unfolding insert_field
sort_keys end = end
sort_keys (field k v d) = insert_field k v (sort_keys d)

-- `c.get("id", "")`, where the ids are texts
abbrev pub id_or_empty : Option Json → String
id_or_empty (some (str s)) = s
id_or_empty _ = ""

abbrev pub id_of : Fields → String
id_of d = id_or_empty (get "id" d)

abbrev pub by_id : Fields → Fields → Bool
by_id c d = text_leb (id_of c) (id_of d)

-- `canonical_contacts_payload`, up to the printing as JSON
unfoldable pub canonical_contacts : List Fields → List Fields
unfolding sort_keys
canonical_contacts contacts = sort_by by_id (map sort_keys contacts)

-- `sha256` is the hexadecimal digest of the printed payload.
unfoldable pub compute_content_hash : (List Fields → String) → List Fields → String
unfolding canonical_contacts
compute_content_hash sha256 contacts = append "SHA256:" (sha256 (canonical_contacts contacts))

unfoldable pub hash_hex : String → String
hash_hex content_hash =
    if starts_with content_hash "SHA256:"
    then remove_prefix content_hash "SHA256:"
    else content_hash

-- `int(ch, 16)`, for the ASCII digits
unfoldable pub hex_digit : Char → Result ℕ
hex_digit ch =
    let c = code ch in
    if leb b'0' c && leb c b'9'
    then ok (c - b'0')
    else if leb b'a' c && leb c b'f'
    then ok (c - b'a' + 10)
    else if leb b'A' c && leb c b'F'
    then ok (c - b'A' + 10)
    else err value_error

unfoldable pub hex_digits : String → Result (List ℕ)
hex_digits [] = ok List.[]
hex_digits (ch ∷ s) = do n ← hex_digit ch; ns ← hex_digits s; ok (List.◌∷◌ n ns)

unfoldable pub hash_nibbles : String → ℕ → Result (List ℕ)
unfolding hex_digits hex_digit hash_hex
hash_nibbles content_hash limit = hex_digits (text_take limit (hash_hex content_hash))
