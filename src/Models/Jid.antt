-- ===== src/Models/Jid.antt =====
-- `JID_PATTERN` and `Contact.validate_jid` of src/xmpp_p2p_chat/common/models.py.
use Prim.Native.String.{[], ◌∷◌}
use serverless_xmpp.Base.{
  String, Char, code, Bool, true, false, ◌&&◌, ◌||◌, ◌≡◌, arith, eqb, if◌then◌else◌, Unicode,
  truthy, has_char,
}
use serverless_xmpp.Base.Outcome.{Result, ok, err, value_error}

-- `[^@\s/]+$`: `$` matches at the end, and before a newline that ends the text. The flag says
-- whether the class has matched a character already.
domain_matches : (Char → Bool) → Bool → String → Bool
domain_matches sp some_before [] = some_before
domain_matches sp some_before (c ∷ s) =
    let rest = domain_matches sp true s in
    if eqb (code c) 10 && (if truthy s then false else true)
    then some_before
    else if eqb (code c) b'@' || sp c || eqb (code c) b'/'
    then false
    else rest

-- `^[^@\s]+@`, and then the domain.
local_matches : (Char → Bool) → Bool → String → Bool
local_matches sp some_before [] = false
local_matches sp some_before (c ∷ s) =
    let rest = local_matches sp true s in
    if eqb (code c) b'@'
    then some_before && domain_matches sp false s
    else if sp c
    then false
    else rest

-- `JID_PATTERN.match(value)`
unfoldable pub jid_matches : (Char → Bool) → String → Bool
unfolding local_matches domain_matches
jid_matches sp value = local_matches sp false value

unfoldable pub validate_jid : Unicode → String → Result String
validate_jid u value = if jid_matches u.is_space value then ok (u.lower value) else err value_error

local_matches-has_at :
    (sp : Char → Bool) (b : Bool) (s : String)
    → local_matches sp b s ≡ true
    → has_char b'@' s ≡ true
unfolding local_matches has_char
local_matches-has_at sp b [] h = h
local_matches-has_at sp b (c ∷ s) h = ground (arith, local_matches-has_at sp true s)

-- An accepted JID has an `@`.
pub jid_matches-has_at :
    (sp : Char → Bool) (s : String) → jid_matches sp s ≡ true → has_char b'@' s ≡ true
unfolding jid_matches
jid_matches-has_at sp s h = local_matches-has_at sp false s h
