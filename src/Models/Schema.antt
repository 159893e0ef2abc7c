-- ===== src/Models/Schema.antt =====
-- `Contact.model_dump` and `Contact.model_validate` of src/xmpp_p2p_chat/common/models.py. What
-- pydantic does, to write a model as a dict and to read the fields of one, is an interface; the
-- validator of the JID is the program's.
use serverless_xmpp.Base.{true, refl, true, String, Option, none, some, ◌≡◌, arith, Unicode}
use serverless_xmpp.Base.Outcome.{Result, ok, err, value_error, ◌>>=◌}
use serverless_xmpp.Models.{Datetime, Contact, DirectEndpoint}
use serverless_xmpp.Models.JsonData.{Json, Fields, null, str, int, obj, field, end, get}
use serverless_xmpp.Models.Jid.{jid_matches, validate_jid}

pub record Schema : Type 0 where
  -- `contact.model_dump(mode="json")`
  pub dump : Contact → Fields
  -- the fields of a contact out of a dict, before the validators of the class; `none` is a
  -- `ValidationError`
  pub parse : Fields → Option Contact
  -- a dict that was dumped is read back
  pub parse-dump : (c : Contact) → parse (dump c) ≡ some c
  -- `id` is a field without conversion
  pub parse-id : (d : Fields) (c : Contact) → parse d ≡ some c → get "id" d ≡ some (str c.id)

-- A text, or `None`
abbrev pub text_or_null : Option String → Json
text_or_null none = null
text_or_null (some s) = str s

-- A direct endpoint as a dict of its fields is read as that endpoint.
abbrev pub ReadsEndpoints : Schema → Type 0
ReadsEndpoints schema =
    (d : Fields) (c : Contact) (e : DirectEndpoint)
    → schema.parse d ≡ some c
    → get "direct" d
      ≡ some (
          obj (
            field "host" (str e.host) (
              field "port" (int e.port)
                (field "public_key_fingerprint" (text_or_null e.public_key_fingerprint) end))))
    → c.direct ≡ some e

module _ (u : Unicode) (schema : Schema) where
  unfoldable pub after_parse : Option Contact → Result Contact
  after_parse none = err value_error
  after_parse (some c) = do jid ← validate_jid u c.jid; ok (record c { jid = jid })

  unfoldable pub validate_fields : Fields → Result Contact
  validate_fields d = after_parse (schema.parse d)

  -- `Contact.model_validate(value)`
  unfoldable pub model_validate : Json → Result Contact
  model_validate (obj d) = validate_fields d
  model_validate _ = err value_error

  pub model_validate-obj : (d : Fields) → model_validate (obj d) ≡ validate_fields d
  unfolding model_validate
  model_validate-obj d = refl

  -- A contact that its own dump is validated to.
  abbrev pub IsStable : Contact → Type 0
  IsStable c = validate_fields (schema.dump c) ≡ ok c

  -- Lowering keeps what the pattern of JIDs looks for: an `@`, and no space or slash after it.
  abbrev pub LowerKeepsJids : Type 0
  LowerKeepsJids =
      (s : String) → jid_matches u.is_space s ≡ true → jid_matches u.is_space (u.lower s) ≡ true

  pub after_parse-inversion :
      (o : Option Contact) (c : Contact)
      → after_parse o ≡ ok c
      → (c0 : Contact) × (o ≡ some c0)
        × (jid_matches u.is_space c0.jid ≡ true)
        × (c ≡ record c0 { jid = u.lower c0.jid })
  unfolding after_parse validate_jid
  after_parse-inversion none c h = absurd (cc h)
  after_parse-inversion (some c0) c h = (c0, refl, ground arith, ground arith)

  -- A validated contact is stable.
  pub validate_fields-IsStable :
      LowerKeepsJids → (d : Fields) (c : Contact) → validate_fields d ≡ ok c → IsStable c
  unfolding validate_fields after_parse validate_jid
  validate_fields-IsStable keeps d c h =
      let (c0, e, m, same) = after_parse-inversion (schema.parse d) c h in
      ground (arith, schema.parse-dump c, same, keeps c0.jid m, u.lower_idem c0.jid)

  pub validate_fields-id :
      (d : Fields) (c : Contact) → validate_fields d ≡ ok c → get "id" d ≡ some (str c.id)
  unfolding validate_fields after_parse validate_jid
  validate_fields-id d c h =
      let (c0, e, m, same) = after_parse-inversion (schema.parse d) c h in
      ground (arith, schema.parse-id d c0 e, same)

  -- The validator reads only the JID, so a stable contact is stable with other times.
  pub restamp-IsStable :
      (c : Contact) (t t' : Datetime)
      → IsStable c
      → IsStable (record c { created_at = t; updated_at = t' })
  unfolding validate_fields after_parse validate_jid
  restamp-IsStable c t t' h =
      ground (
        arith,
        schema.parse-dump c,
        schema.parse-dump (record c { created_at = t; updated_at = t' }),
      )
