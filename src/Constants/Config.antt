-- ===== src/Constants/Config.antt =====
-- What the registry reads of a command's configuration, once it is converted, and the references to
-- constants in it.
use quality_flow.Base.{String, Option, none, some, List, [], ◌∷◌, ◌++◌, if◌then◌else◌, ◌==◌}
use quality_flow.Base.Text.{or_empty, is_empty}

-- A reference to a constant or to a source.
pub record InputRef : Type 0 where
  pub kind : String
  pub definition_id : String
  pub source_code : Option String

pub record ResultConstant : Type 0 where
  pub definition_id : String
  pub name : String
  pub value_type : Option String

pub record HttpInputNode : Type 0 where
  pub kind : String
  pub definition_id : Option String

mutual
  -- A tree of values of a request: nodes, dicts, lists, and anything else.
  pub data HttpValue : Type 0 where
    node : HttpInputNode → HttpValue
    object : HttpFields → HttpValue
    array : HttpItems → HttpValue
    other : HttpValue

  pub data HttpItems : Type 0 where
    no_items : HttpItems
    item : HttpValue → HttpItems → HttpItems

  pub data HttpFields : Type 0 where
    no_fields : HttpFields
    field : String → HttpValue → HttpFields → HttpFields

-- `queryParams`, `headers`, `pathParams` and `authorization`, where each is a dict.
pub record HttpRequest : Type 0 where
  pub query_params : HttpFields
  pub headers : HttpFields
  pub path_params : HttpFields
  pub authorization : HttpFields

-- The classes of configurations that the registry tells apart.
pub data ConfigClass : Type 0 where
  -- the target of a deletion
  delete_constant : String → ConfigClass
  -- the constant's id, name, context and type
  init_constant : String → Option String → Option String → Option String → ConfigClass
  -- the constants that another suite is given
  run_suite : List String → ConfigClass
  read_api : HttpRequest → ConfigClass
  -- the request, the type of the body, and the body, if there is one
  write_api : HttpRequest → Option String → Option HttpValue → ConfigClass
  other_command : ConfigClass

pub record ConstantConfig : Type 0 where
  pub command_code : String
  pub config_class : ConfigClass
  pub input_ref : Option InputRef
  pub actual_ref : Option InputRef
  pub expected_ref : Option InputRef
  pub result_constant : Option ResultConstant

-- The roles of a reference.
pub data RefRole : Type 0 where
  source target actual expected constant : RefRole

abbrev pub Refs : Type 0
Refs = List (RefRole × String)

-- The id in a node, if it refers to a constant.
abbrev node_refs : HttpInputNode → List String
node_refs n =
    if n.kind == "runtimeValue"
    then (if is_empty (or_empty n.definition_id) then [] else or_empty n.definition_id ∷ [])
    else []

unfoldable mutual
  -- `_extract_http_input_node_refs`
  pub extract_refs : HttpValue → List String
  extract_refs (node n) = node_refs n
  extract_refs (object fields) = extract_fields fields
  extract_refs (array items) = extract_items items
  extract_refs other = []

  pub extract_items : HttpItems → List String
  extract_items no_items = []
  extract_items (item v items) = extract_refs v ++ extract_items items

  pub extract_fields : HttpFields → List String
  extract_fields no_fields = []
  extract_fields (field k v fields) = extract_refs v ++ extract_fields fields

-- `_extract_http_auth_refs`: the field `type` is passed over.
unfoldable pub extract_auth_refs : HttpFields → List String
extract_auth_refs no_fields = []
extract_auth_refs (field k v fields) =
    let rest = extract_auth_refs fields in if k == "type" then rest else extract_refs v ++ rest

abbrev with_role : RefRole → List String → Refs
with_role role [] = []
with_role role (id ∷ ids) = (role, id) ∷ with_role role ids

abbrev ref_of : RefRole → Option InputRef → Refs
ref_of role none = []
ref_of role (some r) = if r.kind == "runtimeValue" then (role, r.definition_id) ∷ [] else []

abbrev request_refs : HttpRequest → List String
request_refs r =
    extract_fields r.query_params
    ++ (extract_fields r.headers
        ++ (extract_fields r.path_params ++ extract_auth_refs r.authorization))

abbrev body_refs : Option HttpValue → List String
body_refs none = []
body_refs (some v) = extract_refs v

abbrev class_refs : ConfigClass → Refs
class_refs (delete_constant id) = (target, id) ∷ []
class_refs (init_constant id name context value_type) = []
class_refs (run_suite ids) = with_role constant ids
class_refs (read_api r) = with_role source (request_refs r)
class_refs (write_api r body_type body) = with_role source (request_refs r ++ body_refs body)
class_refs other_command = []

abbrev input_refs : ConstantConfig → Refs
input_refs cfg =
    ref_of source cfg.input_ref
    ++ (ref_of actual cfg.actual_ref ++ ref_of expected cfg.expected_ref)

-- `_definition_refs`: a deletion has its target and no other reference.
unfoldable pub refs_of_class : ConstantConfig → ConfigClass → Refs
refs_of_class cfg (delete_constant id) = class_refs (delete_constant id)
refs_of_class cfg c = input_refs cfg ++ class_refs c

unfoldable pub definition_refs : ConstantConfig → Refs
unfolding refs_of_class
definition_refs cfg = refs_of_class cfg cfg.config_class
