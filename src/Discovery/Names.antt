-- ===== src/Discovery/Names.antt =====
-- The name that a node is announced under, in
-- src/xmpp_p2p_chat/connection_service/discovery/mdns.py.
use Prim.Native.String.{[], ◌∷◌}
use serverless_xmpp.Base.{
  Bool-cases, String, inl, inr, Bool-cases, Char, code, Bool, true, false, ◌≡◌, refl, arith, ◌&&◌,
  eqb, before_first, ◌⧺◌, if◌then◌else◌,
}
use serverless_xmpp.Discovery.{
  is_jid_safe, jid_safe, after_at, dots_to_dashes, text_or, jid_to_service_name, MdnsDiscovery,
  full_name,
}

-- Letters, digits and dashes only.
unfoldable pub all_safe : String → Bool
all_safe [] = true
all_safe (c ∷ s) = is_jid_safe c && all_safe s

all_safe-append : (s t : String) → all_safe s ≡ true → all_safe t ≡ true → all_safe (s ⧺ t) ≡ true
unfolding all_safe
all_safe-append [] t h k = k
all_safe-append (c ∷ s) t h k = ground (arith, all_safe-append s t)

safe_char : (c : Char) → is_jid_safe (if is_jid_safe c then c else "-") ≡ true
safe_char c = elim (Bool-cases (is_jid_safe c)) [
  | inl e ↦ rw (e, e) refl
  | inr e ↦ rw e (unfold is_jid_safe in refl)
]

all_safe-jid_safe : (s : String) → all_safe (jid_safe s) ≡ true
unfolding all_safe jid_safe
all_safe-jid_safe [] = refl
all_safe-jid_safe (c ∷ s) = rw (safe_char c) (all_safe-jid_safe s)

all_safe-text_or :
    (s d : String) → all_safe s ≡ true → all_safe d ≡ true → all_safe (text_or s d) ≡ true
all_safe-text_or [] d h k = k
all_safe-text_or (c ∷ s) d h k = h

service_name-all_safe : (jid : String) → all_safe (jid_to_service_name jid) ≡ true
unfolding jid_to_service_name
service_name-all_safe jid =
    let local = jid_safe (before_first b'@' jid) in
    let domain = jid_safe (dots_to_dashes (after_at jid)) in
    all_safe-append (text_or local "peer") ("-" ⧺ text_or domain "local")
      (all_safe-text_or local "peer" (all_safe-jid_safe (before_first b'@' jid))
        (unfold all_safe is_jid_safe in refl))
      (all_safe-append "-" (text_or domain "local") (unfold all_safe is_jid_safe in refl) (
        all_safe-text_or domain "local" (all_safe-jid_safe (dots_to_dashes (after_at jid)))
          (unfold all_safe is_jid_safe in refl)))

-- A safe character is no dot.
first_label : (s t : String) → all_safe s ≡ true → before_first b'.' (s ⧺ "." ⧺ t) ≡ s
unfolding all_safe is_jid_safe before_first
first_label [] t h = refl
first_label (c ∷ s) t h =
    let other : eqb (code c) b'.' ≡ false = ground arith in
    rw (other, first_label s t (ground arith)) refl

-- Whatever the JID, the name of the announced service is a single DNS label of letters, digits and
-- dashes, and it is what stands before the first dot of the full name.
pub full_name-first_label :
    (d : MdnsDiscovery)
    → (before_first b'.' (full_name d) ≡ jid_to_service_name d.local_jid)
      × (all_safe (jid_to_service_name d.local_jid) ≡ true)
unfolding full_name
full_name-first_label d =
    let safe = service_name-all_safe d.local_jid in
    (first_label (jid_to_service_name d.local_jid) d.service_type safe, safe)
