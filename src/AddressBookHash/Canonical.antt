-- ===== src/AddressBookHash/Canonical.antt =====
-- The content hash does not depend on the order of the contacts, and both of its spellings name it
-- (src/xmpp_p2p_chat/common/addressbook_hash.py).
use mathlib.Core.List.{Permᴰ}
use mathlib.Core.List.Permᴰ.{nil, cons, swap, trans}
use mathlib.Core.Path.{subst, subst₂, ap₂}
use Prim.Native.String.{◌++◌ as append}
use serverless_xmpp.Base.{
  remove_prefix-append, starts_with-append, some, String, List, [], ◌∷◌, ◌≡◌, ◌≢◌, refl, ap, ◌∙◌,
  true, none, arith, if◌then◌else◌, text_leb, text_leb_total, text_leb_trans, text_leb_antisymm,
  map, eq_iff, ◌==◌,
}
use serverless_xmpp.Base.Sorting.{sort_by, insert_by}
use serverless_xmpp.Base.Table
use serverless_xmpp.Models.JsonData.{Json, Fields, end, field, get}
use serverless_xmpp.AddressBookHash.{
  hash_hex, insert_field, by_id, id_of, sort_keys, canonical_contacts, compute_content_hash,
}

insert_by_comm :
    (x y : Fields) (l : List Fields)
    → id_of x ≢ id_of y
    → insert_by by_id x (insert_by by_id y l) ≡ insert_by by_id y (insert_by by_id x l)
insert_by_comm x y [] ne =
    ground (arith, text_leb_total (id_of x) (id_of y), text_leb_antisymm (id_of x) (id_of y))
insert_by_comm x y (z ∷ l) ne = ground (
  arith,
  text_leb_total (id_of x) (id_of y),
  text_leb_antisymm (id_of x) (id_of y),
  text_leb_total (id_of y) (id_of z),
  text_leb_total (id_of x) (id_of z),
  text_leb_trans (id_of x) (id_of y) (id_of z),
  text_leb_trans (id_of y) (id_of x) (id_of z),
  insert_by_comm x y l ne,
)

text_leb_refl : (s : String) → text_leb s s ≡ true
text_leb_refl s = ground (arith, text_leb_total s s)

get-insert_field :
    (q k : String) (v : Json) (d : Fields)
    → get q (insert_field k v d) ≡ (if k == q then some v else get q d)
unfolding get insert_field
get-insert_field q k v end = refl
get-insert_field q k v (field j w d) =
    ground (arith, get-insert_field q k v d, text_leb_refl k, eq_iff j q, eq_iff k q)

get-sort_keys : (q : String) (d : Fields) → get q (sort_keys d) ≡ get q d
unfolding get sort_keys
get-sort_keys q end = refl
get-sort_keys q (field k v d) =
    ground (arith, get-insert_field q k v (sort_keys d), get-sort_keys q d)

find-sort_keys :
    (k : String) (xs : List Fields)
    → Table.find id_of k xs ≡ none
    → Table.find id_of k (map sort_keys xs) ≡ none
unfolding Table.find
find-sort_keys k [] h = refl
find-sort_keys k (x ∷ xs) h = rw get-sort_keys (ground (arith, find-sort_keys k xs))

unique-sort_keys :
    (xs : List Fields) → Table.HasUniqueKeys id_of xs → Table.HasUniqueKeys id_of (map sort_keys xs)
unique-sort_keys [] h = tt
unique-sort_keys (x ∷ xs) h =
    (rw get-sort_keys (find-sort_keys (id_of x) xs h.0), unique-sort_keys xs h.1)

find-Permᴰ :
    (k : String) {xs ys : List Fields}
    → Permᴰ xs ys
    → Table.find id_of k xs ≡ none
    → Table.find id_of k ys ≡ none
unfolding Table.find
find-Permᴰ k nil h = h
find-Permᴰ k (cons {a} {b} {l₁} {l₂} e p) h =
    let e' : id_of a ≡ id_of b = ap id_of e in ground (arith, find-Permᴰ k p, e')
find-Permᴰ k (swap {a} {b} {a'} {b'} {l} e f) h =
    let e' : id_of a ≡ id_of b' = ap id_of e in
    let f' : id_of b ≡ id_of a' = ap id_of f in ground (arith, e', f')
find-Permᴰ k (trans p q) h = find-Permᴰ k q (find-Permᴰ k p h)

unique-swap :
    (a b : Fields) (l : List Fields)
    → Table.HasUniqueKeys id_of (a ∷ b ∷ l)
    → Table.HasUniqueKeys id_of (b ∷ a ∷ l)
unfolding Table.find
unique-swap a b l h =
    (ground (arith, eq_iff (id_of a) (id_of b), eq_iff (id_of b) (id_of a)), (ground arith, h.1.1))

unique-Permᴰ :
    {xs ys : List Fields}
    → Permᴰ xs ys
    → Table.HasUniqueKeys id_of xs
    → Table.HasUniqueKeys id_of ys
unfolding Table.find
unique-Permᴰ nil h = h
unique-Permᴰ (cons {a} {b} {l₁} {l₂} e p) h = (
  find-Permᴰ (id_of b) p (subst (λ x. Table.find id_of (id_of x) l₁ ≡ none) e h.0),
  unique-Permᴰ p h.1,
)
unique-Permᴰ (swap {a} {b} {a'} {b'} {l} e f) h =
    subst₂ (λ x y. Table.HasUniqueKeys id_of (x ∷ y ∷ l)) f e (unique-swap a b l h)
unique-Permᴰ (trans p q) h = unique-Permᴰ q (unique-Permᴰ p h)

sort_by-Permᴰ :
    {xs ys : List Fields}
    → Permᴰ xs ys
    → Table.HasUniqueKeys id_of xs
    → sort_by by_id xs ≡ sort_by by_id ys
unfolding sort_by Table.find
sort_by-Permᴰ nil h = refl
sort_by-Permᴰ (cons {a} {b} {l₁} {l₂} e p) h = cc (sort_by-Permᴰ p h.1)
sort_by-Permᴰ (swap {a} {b} {a'} {b'} {l} e f) h =
    insert_by_comm a b (sort_by by_id l) (λ same. ground (arith, eq_iff (id_of b) (id_of a), same))
    ∙ ap₂ (λ x y. insert_by by_id x (insert_by by_id y (sort_by by_id l))) f e
sort_by-Permᴰ (trans p q) h = sort_by-Permᴰ p h ∙ sort_by-Permᴰ q (unique-Permᴰ p h)

map-Permᴰ : {xs ys : List Fields} → Permᴰ xs ys → Permᴰ (map sort_keys xs) (map sort_keys ys)
map-Permᴰ nil = nil
map-Permᴰ (cons e p) = cons (ap sort_keys e) (map-Permᴰ p)
map-Permᴰ (swap e f) = swap (ap sort_keys e) (ap sort_keys f)
map-Permᴰ (trans p q) = trans (map-Permᴰ p) (map-Permᴰ q)

-- Two arrangements of contacts with distinct ids have one content hash.
pub compute_content_hash_perm :
    (sha256 : List Fields → String) {xs ys : List Fields}
    → Permᴰ xs ys
    → Table.HasUniqueKeys id_of xs
    → compute_content_hash sha256 xs ≡ compute_content_hash sha256 ys
unfolding compute_content_hash canonical_contacts
compute_content_hash_perm sha256 {xs} p h =
    ap (λ l. append "SHA256:" (sha256 l)) (sort_by-Permᴰ (map-Permᴰ p) (unique-sort_keys xs h))

-- The hash of an address book is told from any other text by its digest alone, whether or not the
-- other text carries the prefix.
pub hash_hex-compute_content_hash :
    (sha256 : List Fields → String) (xs : List Fields)
    → hash_hex (compute_content_hash sha256 xs) ≡ sha256 (canonical_contacts xs)
unfolding hash_hex compute_content_hash
hash_hex-compute_content_hash sha256 xs = rw (
  starts_with-append "SHA256:" (sha256 (canonical_contacts xs)),
  remove_prefix-append "SHA256:" (sha256 (canonical_contacts xs)),
)
