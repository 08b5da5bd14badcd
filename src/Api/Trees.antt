-- ===== src/Api/Trees.antt =====
-- JSON documents as trees, what the functions of cJSON that apps/host_agent/src/api builds with do to
-- them, and shapes of documents.
use capacity_agent.Base.{◌≡◌, Bool, Text}
use capacity_agent.Api.Json.{CJsonWriter}

mutual
  pub data Tree (D : Type 0) : Type 0 where
    null : Tree D
    flag : Bool → Tree D
    number : D → Tree D
    string : Text → Tree D
    array : Items D → Tree D
    object : Fields D → Tree D

  pub data Items (D : Type 0) : Type 0 where
    nil : Items D
    cons : Tree D → Items D → Items D

  pub data Fields (D : Type 0) : Type 0 where
    end : Fields D
    field : Text → Tree D → Fields D → Fields D

module _ {D : Type 0} where
  -- Members and elements are added at the end.
  abbrev pub add_field : Text → Tree D → Fields D → Fields D
  add_field k v end = field k v end
  add_field k v (field j w fields) = field j w (add_field k v fields)

  abbrev pub add_element : Tree D → Items D → Items D
  add_element v nil = cons v nil
  add_element v (cons w items) = cons w (add_element v items)

  abbrev pub put : Text → Tree D → Tree D → Tree D
  put k v (object fields) = object (add_field k v fields)
  put k v null = null
  put k v (flag b) = flag b
  put k v (number n) = number n
  put k v (string t) = string t
  put k v (array items) = array items

  abbrev pub push : Tree D → Tree D → Tree D
  push v (array items) = array (add_element v items)
  push v null = null
  push v (flag b) = flag b
  push v (number n) = number n
  push v (string t) = string t
  push v (object fields) = object fields

-- What cJSON documents: an item stands for a tree, and each function makes the tree that its name says.
pub record WriterLaws {D : Type 0} (json : CJsonWriter D) : Type 0 where
  pub tree : json.Node → Tree D
  pub tree-create_object : tree json.create_object ≡ object end
  pub tree-create_array : tree json.create_array ≡ array nil
  pub tree-create_string : (t : Text) → tree (json.create_string t) ≡ string t
  pub tree-add_string :
      (o : json.Node) (k t : Text)
      → tree (json.add_string_to_object o k t) ≡ put k (string t) (tree o)
  pub tree-add_number :
      (o : json.Node) (k : Text) (n : D)
      → tree (json.add_number_to_object o k n) ≡ put k (number n) (tree o)
  pub tree-add_bool :
      (o : json.Node) (k : Text) (b : Bool)
      → tree (json.add_bool_to_object o k b) ≡ put k (flag b) (tree o)
  pub tree-add_null :
      (o : json.Node) (k : Text) → tree (json.add_null_to_object o k) ≡ put k null (tree o)
  pub tree-add_item_to_object :
      (o : json.Node) (k : Text) (n : json.Node)
      → tree (json.add_item_to_object o k n) ≡ put k (tree n) (tree o)
  pub tree-add_item_to_array :
      (a n : json.Node) → tree (json.add_item_to_array a n) ≡ push (tree n) (tree a)

mutual
  -- The shape of a value: a dictionary has any members, of one shape.
  pub data Shape : Type 0 where
    text_shape number_shape flag_shape optional_text optional_number : Shape
    list_of : Shape → Shape
    record_of : FieldShapes → Shape
    dictionary : Shape → Shape

  pub data FieldShapes : Type 0 where
    no_more : FieldShapes
    member : Text → Shape → FieldShapes → FieldShapes

unfoldable mutual
  pub HasShape : {D : Type 0} → Shape → Tree D → Type 0
  HasShape text_shape (string t) = Unit {0}
  HasShape optional_text (string t) = Unit {0}
  HasShape number_shape (number n) = Unit {0}
  HasShape optional_number (number n) = Unit {0}
  HasShape flag_shape (flag b) = Unit {0}
  HasShape optional_text null = Unit {0}
  HasShape optional_number null = Unit {0}
  HasShape (list_of s) (array items) = HaveShape s items
  HasShape (record_of shapes) (object fields) = HasFields shapes fields
  HasShape (dictionary s) (object fields) = HasValues s fields
  HasShape _ _ = ⊥

  -- Every element has the shape.
  pub HaveShape : {D : Type 0} → Shape → Items D → Type 0
  HaveShape s nil = Unit {0}
  HaveShape s (cons v items) = HasShape s v × HaveShape s items

  -- The members have these names, in this order, and these shapes, and there are no others.
  pub HasFields : {D : Type 0} → FieldShapes → Fields D → Type 0
  HasFields no_more end = Unit {0}
  HasFields (member k s shapes) (field j v fields) =
      (j ≡ k) × HasShape s v × HasFields shapes fields
  HasFields _ _ = ⊥

  -- Every member has the shape, whatever its name.
  pub HasValues : {D : Type 0} → Shape → Fields D → Type 0
  HasValues s end = Unit {0}
  HasValues s (field j v fields) = HasShape s v × HasValues s fields
