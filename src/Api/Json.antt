-- ===== src/Api/Json.antt =====
-- apps/host_agent/include/host_agent/api/json_response.h over the vendored cJSON, whose functions are a
-- parameter: a node is what a pointer to an item stands for, and a function that adds to an item returns
-- what the item is afterwards. Each node is added once, so that none is shared.
use capacity_agent.Base.{Bool, Option, none, some, List, [], ◌∷◌, Text, codes}
use capacity_agent.Base.Int.{ℤ}
use capacity_agent.Base.Double.{Doubles}

pub record CJsonWriter (D : Type 0) : Type 1 where
  pub Node : Type 0
  pub create_object : Node
  pub create_array : Node
  pub create_string : Text → Node
  pub add_string_to_object : Node → Text → Text → Node
  pub add_number_to_object : Node → Text → D → Node
  pub add_bool_to_object : Node → Text → Bool → Node
  pub add_null_to_object : Node → Text → Node
  pub add_item_to_object : Node → Text → Node → Node
  pub add_item_to_array : Node → Node → Node
  pub print_unformatted : Node → Option Text

module _ (d : Doubles) (json : CJsonWriter d.Double) where
  abbrev pub text_or : Text → Option Text → Text
  text_or t none = t
  text_or t (some raw) = raw

  unfoldable pub print_json : json.Node → Text
  print_json node = text_or (codes "{}") (json.print_unformatted node)

  abbrev pub add_string : json.Node → Text → Text → json.Node
  add_string obj key value = json.add_string_to_object obj key value

  abbrev pub add_int : json.Node → Text → ℤ → json.Node
  add_int obj key value = json.add_number_to_object obj key (d.of_int value)

  abbrev pub add_int64 : json.Node → Text → ℤ → json.Node
  add_int64 obj key value = json.add_number_to_object obj key (d.of_int value)

  abbrev pub add_double : json.Node → Text → d.Double → json.Node
  add_double obj key value = json.add_number_to_object obj key value

  abbrev pub add_bool : json.Node → Text → Bool → json.Node
  add_bool obj key value = json.add_bool_to_object obj key value

  abbrev pub add_null : json.Node → Text → json.Node
  add_null obj key = json.add_null_to_object obj key

  abbrev pub add_optional_double : json.Node → Text → Option d.Double → json.Node
  add_optional_double obj key none = add_null obj key
  add_optional_double obj key (some value) = add_double obj key value

  abbrev pub add_optional_int64 : json.Node → Text → Option ℤ → json.Node
  add_optional_int64 obj key none = add_null obj key
  add_optional_int64 obj key (some value) = add_int64 obj key value

  abbrev pub add_optional_string : json.Node → Text → Option Text → json.Node
  add_optional_string obj key none = add_null obj key
  add_optional_string obj key (some value) = add_string obj key value

  -- `for (x : xs) cJSON_AddItemToArray(arr, item(x))`
  unfoldable pub add_items : {A : Type 0} → (A → json.Node) → List A → json.Node → json.Node
  add_items item [] arr = arr
  add_items item (x ∷ xs) arr = add_items item xs (json.add_item_to_array arr (item x))
