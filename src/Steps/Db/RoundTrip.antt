-- ===== src/Steps/Db/RoundTrip.antt =====
-- Writing a DB step down as a node, in any order of its fields, and `TRMDBStep::init` of src/dbstep.C on it.
use ptf.Prelude.{
  ◌≡◌, refl, sym, append-nil, ap, ◌∙◌, Bool, true, false, Option, none, some, List, [], ◌∷◌, ◌++◌,
  map, if◌then◌else◌,
}
use ptf.Http.Text.{Text}
use ptf.Text.{codes, text_eq}
use ptf.Xml.{element_node, Child, XmlNode, is_text}
use ptf.Step.{send, recv}
use ptf.Steps.{ProtocolType, step_type}
use ptf.Steps.Db.{DbStep, new_db_step, set_field, read_fields, connect_strings, init_node, init}

-- The names that a child may have, and the one that is set by each.
pub data Key : Type 0 where
  wait host port username password db_name sql protocol result : Key

abbrev pub key_text : Key → Text
key_text wait = codes "wait"
key_text host = codes "host"
key_text port = codes "port"
key_text username = codes "username"
key_text password = codes "password"
key_text db_name = codes "db_name"
key_text sql = codes "sql"
key_text protocol = codes "protocol"
key_text result = codes "result"

-- The step with the value of a key
abbrev pub with_value : Key → Text → DbStep → DbStep
with_value wait v s = record s { conn = record s.conn { wait = v } }
with_value host v s = record s { conn = record s.conn { host = v } }
with_value port v s = record s { conn = record s.conn { port = v } }
with_value username v s = record s { conn = record s.conn { username = v } }
with_value password v s = record s { conn = record s.conn { password = v } }
with_value db_name v s = record s { conn = record s.conn { dbname = v } }
with_value sql v s = record s { conn = record s.conn { sql = v } }
with_value protocol v s = record s { conn = record s.conn { conn_type = v } }
with_value result v s = record s { result = v }

-- The fields that a script gives a step, in order: a later one under the same key counts.
abbrev pub with_values : List (Key × Text) → DbStep → DbStep
with_values [] s = s
with_values ((k, v) ∷ fields) s = with_values fields (with_value k v s)

abbrev pub child_of : Key × Text → Child
child_of (k, v) = record { kind = element_node; name = key_text k; content = some v }

abbrev pub node_of : Bool → List (Key × Text) → XmlNode
node_of sends fields = record {
  kind = element_node;
  name = if sends then codes "send" else codes "recv";
  protocol = some (codes "RMDB");
  children = map child_of fields;
}

set_field-key :
    (k : Key) (v : Text) (s : DbStep) → set_field (key_text k) v s ≡ some (with_value k v s)
unfolding set_field text_eq
set_field-key wait v s = refl
set_field-key host v s = refl
set_field-key port v s = refl
set_field-key username v s = refl
set_field-key password v s = refl
set_field-key db_name v s = refl
set_field-key sql v s = refl
set_field-key protocol v s = refl
set_field-key result v s = refl

read_fields-children :
    (fields : List (Key × Text)) (rest : List Child) (s : DbStep)
    → read_fields (map child_of fields ++ rest) s ≡ read_fields rest (with_values fields s)
unfolding read_fields
read_fields-children [] rest s = refl
read_fields-children ((k, v) ∷ fields) rest s =
    rw (set_field-key k v s, read_fields) (read_fields-children fields rest (with_value k v s))

-- The step before its fields are read
abbrev pub started : Bool → DbStep
started sends = record new_db_step {
  kind = if sends then send else recv;
  protocol = ProtocolType.rmdb;
}

read_all :
    (fields : List (Key × Text)) (s : DbStep)
    → read_fields (map child_of fields) s ≡ some (some (with_values fields s))
unfolding read_fields
read_all fields s =
    ap (λ cs. read_fields cs s) (sym (append-nil (map child_of fields)))
    ∙ read_fields-children fields [] s

refused_at :
    (fields : List (Key × Text)) (c : Child) (v : Text) (rest : List Child) (s : DbStep)
    → is_text c.kind ≡ false
    → c.content ≡ some v
    → ((s' : DbStep) → set_field c.name v s' ≡ none)
    → read_fields (map child_of fields ++ (c ∷ rest)) s ≡ some none
unfolding read_fields
refused_at fields c v rest s element content unknown =
    read_fields-children fields (c ∷ rest) s
    ∙ rw (element, read_fields, content, unknown (with_values fields s))

abbrev ending : Option (Option DbStep) → Option (Option DbStep)
ending none = none
ending (some none) = some none
ending (some (some s)) = some (some (connect_strings s))

init-children :
    (sends : Bool) (cs : List Child)
    → init (record (node_of sends []) { children = cs }) none
      ≡ ending (read_fields cs (started sends))
unfolding init init_node step_type text_eq
init-children true cs = refl
init-children false cs = refl

abbrev same_key : Key → Key → Bool
same_key wait wait = true
same_key host host = true
same_key port port = true
same_key username username = true
same_key password password = true
same_key db_name db_name = true
same_key sql sql = true
same_key protocol protocol = true
same_key result result = true
same_key _ _ = false

-- The last value under a key, or `v`
abbrev pub last_value : Key → List (Key × Text) → Text → Text
last_value k [] v = v
last_value k ((j, w) ∷ fields) v = last_value k fields (if same_key k j then w else v)

abbrev described : List (Key × Text) → DbStep → DbStep
described fields s = record s {
  conn = record {
    wait = last_value wait fields s.conn.wait;
    conn_type = last_value protocol fields s.conn.conn_type;
    port = last_value port fields s.conn.port;
    host = last_value host fields s.conn.host;
    username = last_value username fields s.conn.username;
    password = last_value password fields s.conn.password;
    dbname = last_value db_name fields s.conn.dbname;
    sql = last_value sql fields s.conn.sql;
  };
  result = last_value result fields s.result;
}

with_value-described :
    (k : Key) (v : Text) (fields : List (Key × Text)) (s : DbStep)
    → described fields (with_value k v s) ≡ described ((k, v) ∷ fields) s
with_value-described wait v fields s = refl
with_value-described host v fields s = refl
with_value-described port v fields s = refl
with_value-described username v fields s = refl
with_value-described password v fields s = refl
with_value-described db_name v fields s = refl
with_value-described sql v fields s = refl
with_value-described protocol v fields s = refl
with_value-described result v fields s = refl

with_values-described :
    (fields : List (Key × Text)) (s : DbStep) → with_values fields s ≡ described fields s
with_values-described [] s = refl
with_values-described ((k, v) ∷ fields) s =
    with_values-described fields (with_value k v s) ∙ with_value-described k v fields s

abbrev pub joined : List Text → Text
joined [] = []
joined (t ∷ []) = t
joined (t ∷ u ∷ ts) = t ++ joined (u ∷ ts)

-- The step that such a node means: each field has the last value under its key, and is empty without one. The
-- database is named "protocol://host=... dbname=... user=... password=... port=...".
abbrev pub meant : Bool → List (Key × Text) → DbStep
meant sends fields =
    let value : Key → Text = λ k. last_value k fields [] in
    record {
      kind = if sends then send else recv;
      protocol = ProtocolType.rmdb;
      conn = record {
        wait = value wait;
        conn_type = value protocol;
        port = value port;
        host = value host;
        username = value username;
        password = value password;
        dbname = value db_name;
        sql = value sql;
      };
      result = value result;
      conn_str = joined (
          value protocol
          ∷ codes "://host="
          ∷ value host
          ∷ codes " dbname="
          ∷ value db_name
          ∷ codes " user="
          ∷ value username
          ∷ codes " password="
          ∷ value password
          ∷ codes " port="
          ∷ value port
          ∷ []);
      sql_str = value sql;
    }

-- A node of a DB step whose fields stand in any order, each any number of times, is read by init as
-- the step with the last value of each, with the query, and with the connection string of protocol,
-- host, database, user, password and port.
pub init-with_values :
    (sends : Bool) (fields : List (Key × Text))
    → init (node_of sends fields) none ≡ some (some (meant sends fields))
init-with_values sends fields =
    init-children sends (map child_of fields)
    ∙ ap ending (read_all fields (started sends))
    ∙ ap (λ s. some (some (connect_strings s))) (with_values-described fields (started sends))

-- A child of another name, behind such fields, makes `init` fail.
pub init-unknown :
    (sends : Bool) (fields : List (Key × Text)) (c : Child) (v : Text) (rest : List Child)
    → is_text c.kind ≡ false
    → c.content ≡ some v
    → ((s : DbStep) → set_field c.name v s ≡ none)
    → init (record (node_of sends fields) { children = map child_of fields ++ (c ∷ rest) }) none
      ≡ some none
init-unknown sends fields c v rest element content unknown =
    init-children sends (map child_of fields ++ (c ∷ rest))
    ∙ ap ending (refused_at fields c v rest (started sends) element content unknown)
