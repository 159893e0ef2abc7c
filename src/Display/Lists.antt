-- ===== src/Display/Lists.antt =====
-- What the list of contacts shows, in src/xmpp_p2p_chat/text_ui/display.py.
use Prim.Native.String.{[] as empty_text, ◌∷◌ as ◌∷ₜ◌}
use serverless_xmpp.Base.{
  ap, contains, starts_with, starts_with, contains, ℕ, suc, ◌<◌, ◌∙◌, if◌then◌else◌, String, Bool,
  true, false, ◌&&◌, ◌||◌, ◌≡◌, ◌⊎◌, inl, inr, refl, arith, List, [], ◌∷◌, ◌==◌, ltb, eqb, truthy,
  text_leb, text_leb_total, text_leb_trans, or_else, select, Bool-cases, Unicode,
}
use mathlib.Core.List.{Perm}
use mathlib.Core.Path.{subst}
use serverless_xmpp.Base.Sorting.{sort_by, IsSorted, sort_by-IsSorted, sort_by-perm}
use serverless_xmpp.Display.{
  ContactView, PresenceView, name_key, by_name, rank_of, by_status, contact_order, sort_contacts,
  sort_rank, show_of, matches, filter_contacts, prepare_contact_list,
}

-- Two keys, of which the second counts where the first ones are equal.
lex_trans :
    (x y z : ℕ) (p q r : Bool)
    → (p ≡ true → q ≡ true → r ≡ true)
    → (ltb x y || eqb x y && p) ≡ true
    → (ltb y z || eqb y z && q) ≡ true
    → (ltb x z || eqb x z && r) ≡ true
lex_trans x y z p q r step h k = ground (arith, step)

module _ (u : Unicode) (presence : List PresenceView) where
  by_status_total :
      (c d : ContactView) → (by_status u presence c d ≡ true) ⊎ (by_status u presence d c ≡ true)
  unfolding by_status
  by_status_total c d = ground (arith, text_leb_total (name_key u c) (name_key u d))

  by_status_trans :
      (c d e : ContactView)
      → by_status u presence c d ≡ true
      → by_status u presence d e ≡ true
      → by_status u presence c e ≡ true
  unfolding by_status
  by_status_trans c d e h k =
      lex_trans (rank_of u presence c) (rank_of u presence d) (rank_of u presence e)
        (text_leb (name_key u c) (name_key u d)) (text_leb (name_key u d) (name_key u e))
        (text_leb (name_key u c) (name_key u e))
        (text_leb_trans (name_key u c) (name_key u d) (name_key u e)) h k

  contact_order_total :
      (mode : String) (c d : ContactView)
      → (contact_order u mode presence c d ≡ true) ⊎ (contact_order u mode presence d c ≡ true)
  unfolding contact_order by_name
  contact_order_total mode c d =
      ground (arith, by_status_total c d, text_leb_total (name_key u c) (name_key u d))

  contact_order_trans :
      (mode : String) (c d e : ContactView)
      → contact_order u mode presence c d ≡ true
      → contact_order u mode presence d e ≡ true
      → contact_order u mode presence c e ≡ true
  unfolding contact_order by_name
  contact_order_trans mode c d e h k = elim (Bool-cases (mode == "name")) [
    | inl m ↦
        rw (contact_order, m)
          (text_leb_trans (name_key u c) (name_key u d) (name_key u e) (ground arith)
            (ground arith))
    | inr m ↦ rw (contact_order, m) (by_status_trans c d e (ground arith) (ground arith))
  ]

contains_empty : (s : String) → contains s "" ≡ true
unfolding contains starts_with
contains_empty empty_text = refl
contains_empty (c ∷ₜ s) = refl

empty_of_truthy : (s : String) → truthy s ≡ false → s ≡ ""
empty_of_truthy empty_text h = refl
empty_of_truthy (c ∷ₜ s) h = absurd (cc h)

module _ (u : Unicode) where
  matches_empty : (c : ContactView) → matches u "" c ≡ true
  unfolding matches
  matches_empty c = rw (contains_empty (u.lower (or_else c.name ""))) refl

  select_all : (contacts : List ContactView) → contacts ≡ select (matches u "") contacts
  select_all [] = refl
  select_all (c ∷ contacts) = rw (matches_empty c) (ap (◌∷◌ c) (select_all contacts))

  -- The shortcut for an empty needle gives what the search for it would.
  filter_contacts_lem :
      (contacts : List ContactView) (needle : String)
      → filter_contacts u contacts needle ≡ select (matches u (u.lower needle)) contacts
  unfolding filter_contacts
  filter_contacts_lem contacts needle = elim (Bool-cases (truthy (u.lower needle))) [
    | inl e ↦ rw (filter_contacts, e) refl
    | inr e ↦ rw (filter_contacts, e, empty_of_truthy (u.lower needle) e) (select_all contacts)
  ]

  -- Whether the name, the JID or the id has the needle in it, in whatever case.
  abbrev pub has_needle : String → ContactView → Bool
  has_needle needle c =
      contains (u.lower (or_else c.name "")) (u.lower needle)
      || contains (u.lower (or_else c.jid "")) (u.lower needle)
      || contains (u.lower c.id) (u.lower needle)

  matches_lem : (needle : String) → matches u (u.lower needle) ≡ has_needle needle
  unfolding matches
  matches_lem needle = refl

  -- The place of a presence, the first one first; any other is last.
  unfoldable pub place_in : List String → String → ℕ
  place_in [] show = 0
  place_in (s ∷ shows) show = let later = place_in shows show in if show == s then 0 else suc later

  abbrev pub shows : List String
  shows = "available" ∷ "away" ∷ "busy" ∷ "offline" ∷ []

  abbrev pub lower_name : ContactView → String
  lower_name c = u.lower (or_else c.name "")

  -- By name alone, or by the place of the presence and then by name.
  unfoldable pub shown_before : String → List PresenceView → ContactView → ContactView → Bool
  shown_before mode presence c d =
      let i = place_in shows (show_of c.id presence) in
      let j = place_in shows (show_of d.id presence) in
      if mode == "name"
      then text_leb (lower_name c) (lower_name d)
      else ltb i j || eqb i j && text_leb (lower_name c) (lower_name d)

  place_cases :
      (show : String)
      → ((sort_rank show ≡ place_in shows show) × (place_in shows show < 4))
        ⊎ ((sort_rank show ≡ 99) × (place_in shows show ≡ 4))
  unfolding sort_rank place_in
  place_cases show = ground arith

  -- Two ranks that are each the place, or 99 for a place after the others.
  same_order :
      (a b i j : ℕ) (t : Bool)
      → ((a ≡ i) × (i < 4)) ⊎ ((a ≡ 99) × (i ≡ 4))
      → ((b ≡ j) × (j < 4)) ⊎ ((b ≡ 99) × (j ≡ 4))
      → (ltb a b || eqb a b && t) ≡ (ltb i j || eqb i j && t)
  same_order a b i j t (inl h) (inl k) = rw (h.0, k.0) refl
  same_order a b i j t (inl h) (inr k) = ground (arith, h, k)
  same_order a b i j t (inr h) (inl k) = ground (arith, h, k)
  same_order a b i j t (inr h) (inr k) = rw (h.0, k.0, h.1, k.1) refl

  contact_order_lem :
      (mode : String) (presence : List PresenceView) (c d : ContactView)
      → contact_order u mode presence c d ≡ shown_before mode presence c d
  unfolding contact_order by_name by_status rank_of name_key shown_before
  contact_order_lem mode presence c d = elim (Bool-cases (mode == "name")) [
    | inl m ↦ rw (contact_order, shown_before, m) refl
    | inr m ↦
        rw (contact_order, shown_before, m)
          (same_order (sort_rank (show_of c.id presence)) (sort_rank (show_of d.id presence))
            (place_in shows (show_of c.id presence)) (place_in shows (show_of d.id presence))
            (text_leb (lower_name c) (lower_name d)) (place_cases (show_of c.id presence))
            (place_cases (show_of d.id presence)))
  ]

  -- The list that is shown has exactly the contacts whose name, JID or id has the needle in it, an
  -- empty needle included, each as often as it was given, in the order of the sort mode: by name
  -- alone, or by presence, first those that are available, then away, busy, offline, and any other,
  -- and then by name.
  pub prepare_contact_list_lem :
      (contacts : List ContactView) (presence : List PresenceView) (needle mode : String)
      → let shown = prepare_contact_list u contacts presence needle mode in
        Perm shown (select (has_needle needle) contacts)
        × IsSorted (shown_before mode presence) shown
  unfolding prepare_contact_list sort_contacts
  prepare_contact_list_lem contacts presence needle mode =
      let order = contact_order u mode presence in
      let found = select (has_needle needle) contacts in
      let same : order ≡ shown_before mode presence =
        (λ i c d. contact_order_lem mode presence c d i) in
      let filtered : filter_contacts u contacts needle ≡ found =
        filter_contacts_lem contacts needle
        ∙ ap (λ test. select test contacts) (matches_lem needle) in
      rw filtered (
        sort_by-perm order found,
        subst (λ le. IsSorted le (sort_by order found)) same
            (sort_by-IsSorted order (contact_order_total u presence mode)
              (contact_order_trans u presence mode) found),
      )
