-- ===== src/AddressBook/Contacts.antt =====
-- The dict of contacts of src/xmpp_p2p_chat/connection_service/addressbook.py, as a list in
-- insertion order: lookups, ids and arrangements.
use serverless_xmpp.Base.{
  ◌∙◌, String, List, [], ◌∷◌, ◌++◌, ◌≡◌, refl, Bool, none, some, arith, if◌then◌else◌, eq_iff, ◌==◌,
  All,
}
use serverless_xmpp.Base.Sorting.{sort_by, insert_by}
use serverless_xmpp.Base.Table
use serverless_xmpp.Models.{Contact}
use serverless_xmpp.AddressBook.{Option, contact_key, put}

abbrev pub find : String → List Contact → Option Contact
find = Table.find contact_key

abbrev pub HasUniqueIds : List Contact → Type 0
HasUniqueIds = Table.HasUniqueKeys contact_key

pub find-put :
    (k : String) (c : Contact) (cs : List Contact)
    → find k (put c cs) ≡ (if c.id == k then some c else find k cs)
unfolding put Table.find
find-put k c [] = refl
find-put k c (d ∷ ds) =
    ground (arith, find-put k c ds, eq_iff d.id c.id, eq_iff d.id k, eq_iff c.id k)

pub put-HasUniqueIds : (c : Contact) (cs : List Contact) → HasUniqueIds cs → HasUniqueIds (put c cs)
unfolding put Table.find
put-HasUniqueIds c [] h = (refl, tt)
put-HasUniqueIds c (d ∷ ds) h =
    ground (arith, put-HasUniqueIds c ds, find-put d.id c ds, eq_iff d.id c.id, eq_iff c.id d.id)

pub All-put {κ} :
    (P : Contact → Type κ) (c : Contact) (cs : List Contact) → P c → All P cs → All P (put c cs)
unfolding put
All-put P c [] p h = (p, tt)
All-put P c (d ∷ ds) p h = ground (arith, All-put P c ds p h.1)

-- A new key goes to the end.
pub put_absent : (c : Contact) (cs : List Contact) → find c.id cs ≡ none → put c cs ≡ cs ++ c ∷ []
unfolding put Table.find
put_absent c [] h = refl
put_absent c (d ∷ ds) h = ground (arith, put_absent c ds)

module _ (le : Contact → Contact → Bool) where
  find-insert_by :
      (k : String) (c : Contact) (cs : List Contact)
      → find c.id cs ≡ none
      → find k (insert_by le c cs) ≡ (if c.id == k then some c else find k cs)
  unfolding Table.find
  find-insert_by k c [] h = refl
  find-insert_by k c (d ∷ ds) h =
      ground (arith, find-insert_by k c ds, eq_iff d.id c.id, eq_iff d.id k, eq_iff c.id k)

  insert_by-HasUniqueIds :
      (c : Contact) (cs : List Contact)
      → find c.id cs ≡ none
      → HasUniqueIds cs
      → HasUniqueIds (insert_by le c cs)
  unfolding Table.find
  insert_by-HasUniqueIds c [] h u = (refl, tt)
  insert_by-HasUniqueIds c (d ∷ ds) h u = ground (
    arith,
    insert_by-HasUniqueIds c ds,
    find-insert_by d.id c ds,
    eq_iff d.id c.id,
    eq_iff c.id d.id,
  )

  -- Sorting contacts with distinct ids keeps every lookup.
  pub find-sort_by :
      (k : String) (cs : List Contact) → HasUniqueIds cs → find k (sort_by le cs) ≡ find k cs
  unfolding sort_by Table.find
  find-sort_by k [] u = refl
  find-sort_by k (c ∷ cs) u =
      ground
        (arith, find-sort_by c.id cs u.1, find-insert_by k c (sort_by le cs), find-sort_by k cs u.1)

  pub sort_by-HasUniqueIds : (cs : List Contact) → HasUniqueIds cs → HasUniqueIds (sort_by le cs)
  unfolding sort_by
  sort_by-HasUniqueIds [] u = tt
  sort_by-HasUniqueIds (c ∷ cs) u =
      insert_by-HasUniqueIds c (sort_by le cs) (find-sort_by c.id cs u.1 ∙ u.0)
        (sort_by-HasUniqueIds cs u.1)

-- A split of distinct ids: what stands in front does not come again.
pub find-append_left :
    (cs : List Contact) (d : Contact) (ds : List Contact)
    → HasUniqueIds (cs ++ d ∷ ds)
    → find d.id cs ≡ none
unfolding Table.find
find-append_left [] d ds u = refl
find-append_left (c ∷ cs) d ds u = ground (
  arith,
  find-append_left cs d ds u.1,
  Table.find-append contact_key c.id cs (d ∷ ds),
  eq_iff c.id d.id,
  eq_iff d.id c.id,
)
