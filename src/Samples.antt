-- ===== src/Samples.antt =====
-- Concrete values for the tests: an ASCII platform, a contact, an address book of it, and messages.
use serverless_xmpp.Base.{
  arith, ap, ◌∙◌, String, code, true, false, Option, none, some, List, [], ◌∷◌, ◌≡◌, refl, eqb,
  Unicode,
}
use serverless_xmpp.Config.{Environment}
use serverless_xmpp.Models.{
  Contact, DirectEndpoint, ContactCredentials, Message, ChatSession, out, pending,
}
use serverless_xmpp.Models.JsonData.{
  Json, null, bool, int, number, str, arr, obj, Items, nil, cons, Fields, end, field, get, as_str,
}
use serverless_xmpp.Models.Schema.{ReadsEndpoints, text_or_null, Schema}

-- Texts without capitals, and with the blank as the only space.
abbrev pub ascii : Unicode
ascii = record {
  lower = λ s. s;
  upper = λ s. s;
  is_space = λ c. eqb (code c) 32;
  lower_idem = λ s. refl;
}

infixl 20 ◌>>=◌
abbrev pub ◌>>=◌ : {A B : Type 0} → Option A → (A → Option B) → Option B
none >>= f = none
some x >>= f = f x

unfoldable pub of_option : Option String → Json
of_option none = null
of_option (some s) = str s

unfoldable pub to_option : Option Json → Option (Option String)
to_option (some null) = some none
to_option (some (str s)) = some (some s)
to_option _ = none

to_option-of_option : (o : Option String) → to_option (some (of_option o)) ≡ some o
unfolding to_option of_option
to_option-of_option none = refl
to_option-of_option (some s) = refl

unfoldable pub of_tags : List String → Items
of_tags [] = nil
of_tags (s ∷ tags) = cons (str s) (of_tags tags)

unfoldable pub to_tags : Items → Option (List String)
to_tags nil = some []
to_tags (cons (str s) l) = do tags ← to_tags l; some (s ∷ tags)
to_tags (cons _ l) = none

to_tags-of_tags : (tags : List String) → to_tags (of_tags tags) ≡ some tags
unfolding to_tags of_tags
to_tags-of_tags [] = refl
to_tags-of_tags (s ∷ tags) = rw (to_tags-of_tags tags) refl

unfoldable pub tags_of : Option Json → Option (List String)
unfolding to_tags
tags_of (some (arr l)) = to_tags l
tags_of _ = none

unfoldable pub of_direct : Option DirectEndpoint → Json
unfolding of_option
of_direct none = null
of_direct (some e) = obj (
    field "host" (str e.host) (
      field "port" (int e.port)
        (field "public_key_fingerprint" (of_option e.public_key_fingerprint) end)))

unfoldable pub to_direct : Option Json → Option (Option DirectEndpoint)
unfolding to_option
to_direct (some null) = some none
to_direct (some (obj (field h (str host) (field p (int port) (field f fingerprint end))))) = do
  found ← to_option (some fingerprint)
  some (some (record { host = host; port = port; public_key_fingerprint = found }))
to_direct _ = none

to_direct-of_direct : (o : Option DirectEndpoint) → to_direct (some (of_direct o)) ≡ some o
unfolding to_direct of_direct
to_direct-of_direct none = refl
to_direct-of_direct (some e) = rw (to_option-of_option e.public_key_fingerprint) refl

unfoldable pub of_credentials : Option ContactCredentials → Json
unfolding of_option
of_credentials none = null
of_credentials (some c) = obj (
    field "username" (of_option c.username) (
      field "password_ref" (of_option c.password_ref)
        (field "password" (of_option c.password) end)))

unfoldable pub to_credentials : Option Json → Option (Option ContactCredentials)
unfolding to_option
to_credentials (some null) = some none
to_credentials (some (obj (field u username (field r password_ref (field p password end))))) = do
  name ← to_option (some username)
  ref ← to_option (some password_ref)
  secret ← to_option (some password)
  some (some (record { username = name; password_ref = ref; password = secret }))
to_credentials _ = none

to_credentials-of_credentials :
    (o : Option ContactCredentials) → to_credentials (some (of_credentials o)) ≡ some o
unfolding to_credentials of_credentials
to_credentials-of_credentials none = refl
to_credentials-of_credentials (some c) =
    rw
      (
        to_option-of_option c.username,
        to_option-of_option c.password_ref,
        to_option-of_option c.password,
      )
      refl

unfoldable pub dump : Contact → Fields
unfolding of_option of_tags of_direct of_credentials
dump c = field "id" (str c.id) (
    field "jid" (str c.jid) (
      field "name" (str c.name) (
        field "avatar" (of_option c.avatar) (
          field "tags" (arr (of_tags c.tags)) (
            field "notes" (str c.notes) (
              field "preferred_transport" (str c.preferred_transport) (
                field "xmpp_server" (of_option c.xmpp_server) (
                  field "direct" (of_direct c.direct) (
                    field "credentials" (of_credentials c.credentials) (
                      field "created_at" (str c.created_at)
                        (field "updated_at" (str c.updated_at) end)))))))))))

-- All fields but the id.
unfoldable pub rest : Fields → Option Contact
unfolding get to_option tags_of to_direct to_credentials as_str
rest d = do
  jid ← as_str (get "jid" d)
  name ← as_str (get "name" d)
  avatar ← to_option (get "avatar" d)
  tags ← tags_of (get "tags" d)
  notes ← as_str (get "notes" d)
  preferred ← as_str (get "preferred_transport" d)
  server ← to_option (get "xmpp_server" d)
  direct ← to_direct (get "direct" d)
  credentials ← to_credentials (get "credentials" d)
  created ← as_str (get "created_at" d)
  updated ← as_str (get "updated_at" d)
  some (record {
    id = "";
    jid = jid;
    name = name;
    avatar = avatar;
    tags = tags;
    notes = notes;
    preferred_transport = preferred;
    xmpp_server = server;
    direct = direct;
    credentials = credentials;
    created_at = created;
    updated_at = updated;
  })

unfoldable pub with_id : Option String → Option Contact → Option Contact
with_id none c = none
with_id (some id) none = none
with_id (some id) (some c) = some (record c { id = id })

unfoldable pub parse : Fields → Option Contact
unfolding with_id rest get as_str
parse d = with_id (as_str (get "id" d)) (rest d)

rest-dump : (c : Contact) → rest (dump c) ≡ some (record c { id = "" })
unfolding rest dump get as_str tags_of
rest-dump c =
    rw
      (
        to_option-of_option c.avatar,
        to_tags-of_tags c.tags,
        to_option-of_option c.xmpp_server,
        to_direct-of_direct c.direct,
        to_credentials-of_credentials c.credentials,
      )
      refl

pub parse-dump : (c : Contact) → parse (dump c) ≡ some c
unfolding parse with_id dump
parse-dump c = rw (rest-dump c) refl

as_str-inversion : (o : Option Json) (s : String) → as_str o ≡ some s → o ≡ some (str s)
unfolding as_str
as_str-inversion none s h = absurd (cc h)
as_str-inversion (some (str t)) s h = cc h
as_str-inversion (some null) s h = absurd (cc h)
as_str-inversion (some (bool b)) s h = absurd (cc h)
as_str-inversion (some (int n)) s h = absurd (cc h)
as_str-inversion (some (number t)) s h = absurd (cc h)
as_str-inversion (some (arr l)) s h = absurd (cc h)
as_str-inversion (some (obj d)) s h = absurd (cc h)

with_id-inversion :
    (o : Option String) (r : Option Contact) (c : Contact) → with_id o r ≡ some c → o ≡ some c.id
unfolding with_id
with_id-inversion none r c h = absurd (cc h)
with_id-inversion (some id) none c h = absurd (cc h)
with_id-inversion (some id) (some x) c h = cc h

pub parse-id : (d : Fields) (c : Contact) → parse d ≡ some c → get "id" d ≡ some (str c.id)
unfolding parse
parse-id d c h =
    as_str-inversion (get "id" d) c.id (with_id-inversion (as_str (get "id" d)) (rest d) c h)

-- Contacts as dicts of their fields.
abbrev pub fields : Schema
fields = record { dump = dump; parse = parse; parse-dump = parse-dump; parse-id = parse-id }

abbrev pub alice : Contact
alice = record {
  id = "alice";
  jid = "alice@example.org";
  name = "Alice";
  avatar = none;
  tags = "friend" ∷ [];
  notes = "";
  preferred_transport = "xmpp-server";
  xmpp_server = some "example.org";
  direct = none;
  credentials = none;
  created_at = "t0";
  updated_at = "t0";
}

abbrev pub hello : Message
hello = record {
  id = "m1";
  chat_id = "alice";
  direction = out;
  body = "hello";
  timestamp = "t1";
  stanza_id = none;
  delivered = false;
  read = false;
  status = pending;
  raw_stanza = none;
}

abbrev pub chat : ChatSession
chat = record {
  chat_id = "alice";
  contact_id = "alice";
  remote_jid = "alice@example.org";
  transport = "xmpp-server";
  active = true;
  created_at = "t0";
}

-- A machine without the variables of XDG, where every path is expanded already.
abbrev pub home : Environment
home = record { xdg_config_home = none; xdg_data_home = none; expand = λ path. path }

of_option-text_or_null : (o : Option String) → text_or_null o ≡ of_option o
unfolding of_option
of_option-text_or_null none = refl
of_option-text_or_null (some s) = refl

direct_json :
    (e : DirectEndpoint)
    → obj (
        field "host" (str e.host) (
          field "port"
            (int e.port)
            (field "public_key_fingerprint" (text_or_null e.public_key_fingerprint) end)))
      ≡ of_direct (some e)
unfolding of_direct
direct_json e = rw (of_option-text_or_null e.public_key_fingerprint) refl

rest-direct :
    (d : Fields) (c : Contact) (direct : Option DirectEndpoint)
    → to_direct (get "direct" d) ≡ some direct
    → rest d ≡ some c
    → c.direct ≡ direct
unfolding rest
rest-direct d c direct e h = ground (arith, e, h)

with_id-direct :
    (o : Option String) (r : Option Contact) (c : Contact) (direct : Option DirectEndpoint)
    → ((c0 : Contact) → r ≡ some c0 → c0.direct ≡ direct)
    → with_id o r ≡ some c
    → c.direct ≡ direct
unfolding with_id
with_id-direct none r c direct known h = absurd (cc h)
with_id-direct (some id) none c direct known h = absurd (cc h)
with_id-direct (some id) (some c0) c direct known h = ground (arith, h, known c0 refl)

pub fields-ReadsEndpoints : ReadsEndpoints fields
unfolding parse with_id
fields-ReadsEndpoints d c e h spelled =
    let read : to_direct (get "direct" d) ≡ some (some e) =
      ap to_direct (spelled ∙ ap some (direct_json e)) ∙ to_direct-of_direct (some e) in
    with_id-direct (as_str (get "id" d)) (rest d) c (some e)
      (λ c0 k. rest-direct d c0 (some e) read k) h
