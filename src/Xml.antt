-- ===== src/Xml.antt =====
-- The tree that libxml makes of a script's file, as far as src/script.C, src/step.C and the steps walk
-- it: the nodes under the root, and their children.
use ptf.Prelude.{Bool, true, false, Option, List}
use ptf.Http.Text.{Text}

-- `type`, of which the program tells these apart
pub data NodeType : Type 0 where
  text_node cdata_node element_node other_node : NodeType

-- A child of a step's node. `content` is what `xmlNodeGetContent` gives.
pub record Child : Type 0 where
  pub kind : NodeType
  pub name : Text
  pub content : Option Text

-- A node under the root. `protocol` is what `xmlGetProp` gives for "protocol".
pub record XmlNode : Type 0 where
  pub kind : NodeType
  pub name : Text
  pub protocol : Option Text
  pub children : List Child

-- `xmlNodeIsText`
abbrev pub is_text : NodeType → Bool
is_text text_node = true
is_text cdata_node = true
is_text element_node = false
is_text other_node = false

-- `XML_CDATA_SECTION_NODE == type`
abbrev pub is_cdata : NodeType → Bool
is_cdata text_node = false
is_cdata cdata_node = true
is_cdata element_node = false
is_cdata other_node = false

-- `XML_TEXT_NODE == type`
abbrev pub is_plain_text : NodeType → Bool
is_plain_text text_node = true
is_plain_text cdata_node = false
is_plain_text element_node = false
is_plain_text other_node = false
