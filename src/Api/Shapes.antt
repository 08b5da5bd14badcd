-- ===== src/Api/Shapes.antt =====
-- What each function of apps/host_agent/include/host_agent/api/json_response.h does to the shape of a node.
use capacity_agent.Base.{◌≡◌, refl, Bool, Option, none, some, List, [], ◌∷◌, Text}
use capacity_agent.Base.Int.{ℤ}
use capacity_agent.Base.Double.{Doubles}
use capacity_agent.Api.Json.{
  CJsonWriter, add_optional_double, add_optional_int64, add_optional_string, add_items,
}
use capacity_agent.Api.Trees.{
  Tree, null, flag, number, string, array, object, Items, nil, cons, Fields, end, field, add_field,
  add_element, put, push, WriterLaws, Shape, text_shape, number_shape, flag_shape, optional_text,
  optional_number, list_of, record_of, dictionary, FieldShapes, no_more, member, HasShape,
  HaveShape, HasFields, HasValues,
}

abbrev pub add_member : FieldShapes → Text → Shape → FieldShapes
add_member no_more k s = member k s no_more
add_member (member j r shapes) k s = member j r (add_member shapes k s)

module _ {D : Type 0} where
  HasFields-add_field :
      (shapes : FieldShapes) (fields : Fields D) (k : Text) (s : Shape) (v : Tree D)
      → HasFields shapes fields
      → HasShape s v
      → HasFields (add_member shapes k s) (add_field k v fields)
  unfolding HasShape
  HasFields-add_field no_more end k s v h g = (refl, g, tt)
  HasFields-add_field no_more (field j w fields) k s v h g = absurd h
  HasFields-add_field (member j r shapes) end k s v h g = absurd h
  HasFields-add_field (member j r shapes) (field i w fields) k s v (e, a, b) g =
      (e, a, HasFields-add_field shapes fields k s v b g)

  HasShape-put :
      (shapes : FieldShapes) (t : Tree D) (k : Text) (s : Shape) (v : Tree D)
      → HasShape (record_of shapes) t
      → HasShape s v
      → HasShape (record_of (add_member shapes k s)) (put k v t)
  unfolding HasShape
  HasShape-put shapes (object fields) k s v h g = HasFields-add_field shapes fields k s v h g
  HasShape-put shapes null k s v h g = absurd h
  HasShape-put shapes (flag b) k s v h g = absurd h
  HasShape-put shapes (number n) k s v h g = absurd h
  HasShape-put shapes (string t) k s v h g = absurd h
  HasShape-put shapes (array items) k s v h g = absurd h

  HasValues-add_field :
      (fields : Fields D) (k : Text) (s : Shape) (v : Tree D)
      → HasValues s fields
      → HasShape s v
      → HasValues s (add_field k v fields)
  unfolding HasShape
  HasValues-add_field end k s v h g = (g, tt)
  HasValues-add_field (field j w fields) k s v (a, b) g = (a, HasValues-add_field fields k s v b g)

  pub dictionary-put :
      (t : Tree D) (k : Text) (s : Shape) (v : Tree D)
      → HasShape (dictionary s) t
      → HasShape s v
      → HasShape (dictionary s) (put k v t)
  unfolding HasShape
  dictionary-put (object fields) k s v h g = HasValues-add_field fields k s v h g
  dictionary-put null k s v h g = absurd h
  dictionary-put (flag b) k s v h g = absurd h
  dictionary-put (number n) k s v h g = absurd h
  dictionary-put (string t) k s v h g = absurd h
  dictionary-put (array items) k s v h g = absurd h

  HaveShape-add_element :
      (items : Items D) (s : Shape) (v : Tree D)
      → HaveShape s items
      → HasShape s v
      → HaveShape s (add_element v items)
  unfolding HasShape
  HaveShape-add_element nil s v h g = (g, tt)
  HaveShape-add_element (cons w items) s v (a, b) g = (a, HaveShape-add_element items s v b g)

  HasShape-push :
      (t : Tree D) (s : Shape) (v : Tree D)
      → HasShape (list_of s) t
      → HasShape s v
      → HasShape (list_of s) (push v t)
  unfolding HasShape
  HasShape-push (array items) s v h g = HaveShape-add_element items s v h g
  HasShape-push null s v h g = absurd h
  HasShape-push (flag b) s v h g = absurd h
  HasShape-push (number n) s v h g = absurd h
  HasShape-push (string t) s v h g = absurd h
  HasShape-push (object fields) s v h g = absurd h

-- The node stands for a tree of the shape.
pub record Shaped {D : Type 0} {json : CJsonWriter D} (laws : WriterLaws json) (s : Shape)
    (n : json.Node) : Type 0 where
  pub has : HasShape s (laws.tree n)

module _ (d : Doubles) (json : CJsonWriter d.Double) (laws : WriterLaws json) where
  abbrev pub Record : FieldShapes → json.Node → Type 0
  Record shapes n = Shaped laws (record_of shapes) n

  pub shaped :
      {s : Shape} {n : json.Node} {t : Tree d.Double}
      → laws.tree n ≡ t
      → HasShape s t
      → Shaped laws s n
  shaped e h = record { has = rw e h }

  pub new_record : Record no_more json.create_object
  unfolding HasShape
  new_record = shaped laws.tree-create_object tt

  pub new_dictionary : (s : Shape) → Shaped laws (dictionary s) json.create_object
  unfolding HasShape
  new_dictionary s = shaped laws.tree-create_object tt

  pub new_list : (s : Shape) → Shaped laws (list_of s) json.create_array
  unfolding HasShape
  new_list s = shaped laws.tree-create_array tt

  module _ {shapes : FieldShapes} {o : json.Node} where
    pub with_string :
        (k t : Text)
        → Record shapes o
        → Record (add_member shapes k text_shape) (json.add_string_to_object o k t)
    unfolding HasShape
    with_string k t h =
        shaped (laws.tree-add_string o k t)
          (HasShape-put shapes (laws.tree o) k text_shape (string t) h.has tt)

    pub with_number :
        (k : Text) (n : d.Double)
        → Record shapes o
        → Record (add_member shapes k number_shape) (json.add_number_to_object o k n)
    unfolding HasShape
    with_number k n h =
        shaped (laws.tree-add_number o k n)
          (HasShape-put shapes (laws.tree o) k number_shape (number n) h.has tt)

    pub with_bool :
        (k : Text) (b : Bool)
        → Record shapes o
        → Record (add_member shapes k flag_shape) (json.add_bool_to_object o k b)
    unfolding HasShape
    with_bool k b h =
        shaped (laws.tree-add_bool o k b)
          (HasShape-put shapes (laws.tree o) k flag_shape (flag b) h.has tt)

    pub with_optional_double :
        (k : Text) (v : Option d.Double)
        → Record shapes o
        → Record (add_member shapes k optional_number) (add_optional_double d json o k v)
    unfolding HasShape
    with_optional_double k none h =
        shaped (laws.tree-add_null o k)
          (HasShape-put shapes (laws.tree o) k optional_number null h.has tt)
    with_optional_double k (some v) h =
        shaped (laws.tree-add_number o k v)
          (HasShape-put shapes (laws.tree o) k optional_number (number v) h.has tt)

    pub with_optional_int64 :
        (k : Text) (v : Option ℤ)
        → Record shapes o
        → Record (add_member shapes k optional_number) (add_optional_int64 d json o k v)
    unfolding HasShape
    with_optional_int64 k none h =
        shaped (laws.tree-add_null o k)
          (HasShape-put shapes (laws.tree o) k optional_number null h.has tt)
    with_optional_int64 k (some v) h =
        shaped (laws.tree-add_number o k (d.of_int v))
          (HasShape-put shapes (laws.tree o) k optional_number (number (d.of_int v)) h.has tt)

    pub with_optional_string :
        (k : Text) (v : Option Text)
        → Record shapes o
        → Record (add_member shapes k optional_text) (add_optional_string d json o k v)
    unfolding HasShape
    with_optional_string k none h =
        shaped (laws.tree-add_null o k)
          (HasShape-put shapes (laws.tree o) k optional_text null h.has tt)
    with_optional_string k (some v) h =
        shaped (laws.tree-add_string o k v)
          (HasShape-put shapes (laws.tree o) k optional_text (string v) h.has tt)

    pub with_item :
        (k : Text) (s : Shape) (n : json.Node)
        → Shaped laws s n
        → Record shapes o
        → Record (add_member shapes k s) (json.add_item_to_object o k n)
    with_item k s n g h =
        shaped (laws.tree-add_item_to_object o k n)
          (HasShape-put shapes (laws.tree o) k s (laws.tree n) h.has g.has)

  pub add_items-Shaped :
      {A : Type 0} (item : A → json.Node) (s : Shape)
      → ((x : A) → Shaped laws s (item x))
      → (xs : List A) (arr : json.Node) → Shaped laws (list_of s) arr
      → Shaped laws (list_of s) (add_items d json item xs arr)
  unfolding add_items
  add_items-Shaped item s h [] arr g = g
  add_items-Shaped item s h (x ∷ xs) arr g =
      add_items-Shaped item s h xs (json.add_item_to_array arr (item x)) (
        shaped (laws.tree-add_item_to_array arr (item x))
          (HasShape-push (laws.tree arr) s (laws.tree (item x)) g.has (h x).has))

  pub with_entry :
      (k : Text) (s : Shape) (o n : json.Node)
      → Shaped laws s n
      → Shaped laws (dictionary s) o
      → Shaped laws (dictionary s) (json.add_item_to_object o k n)
  with_entry k s o n g h =
      shaped (laws.tree-add_item_to_object o k n)
        (dictionary-put (laws.tree o) k s (laws.tree n) h.has g.has)
