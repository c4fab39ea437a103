-- ===== src/Upserts/Unique.antt =====
-- `uniqueStrings` and `forceStringSlice`.
use consul_ecs.Base.{
  ◌<>◌, ◌==◌, ◌&&◌, String, Bool, true, false, List, [], ◌∷◌, Option, none, some, Error, errorf,
  contains, if◌then◌else◌,
}
use consul_ecs.Base.Json.{Json, null, boolean, number, string, array, object}
use consul_ecs.Base.Sort.{sort_strings}
use consul_ecs.Consul.Acl.{ConfigValue, no_value, strings, items, other_value}

-- The keys of the map that the loop fills: each text once. Go gives them in an arbitrary order.
unfoldable pub keys : List String → List String
keys [] = []
keys (x ∷ xs) = let rest = keys xs in if contains rest x then rest else x ∷ rest

unfoldable pub unique_strings : List String → List String
unfolding keys sort_strings
unique_strings strs = sort_strings (keys strs)

-- What `%T` prints for a value that is no slice.
go_type : Json → String
go_type null = "<nil>"
go_type (boolean _) = "bool"
go_type (number _) = "float64"
go_type (string _) = "string"
go_type (array _) = "[]interface {}"
go_type (object _) = "map[string]interface {}"

-- The loop over a `[]interface{}`: values that are not texts are left out, and are an error.
slice_items : List Json → List String × Option Error
slice_items [] = ([], none)
slice_items (v ∷ vs) =
    let (result, e) = slice_items vs in
    elim v [
      | string s ↦ (s ∷ result, e)
      | _ ↦ (result, some (errorf "[]interface{} slice contains non-string values"))
    ]

unfoldable pub force_string_slice : ConfigValue → List String × Option Error
unfolding slice_items go_type
force_string_slice no_value = ([], none)
force_string_slice (strings slice) = (slice, none)
force_string_slice (items slice) = slice_items slice
force_string_slice (other_value v) =
    ([], some (errorf ("value of type " <> go_type v <> " is not a []string")))

-- `reflect.DeepEqual` on slices of texts; nil slices and empty ones are not told apart, and the
-- code has none of them here: its own lists have members.
unfoldable pub deep_equal : List String → List String → Bool
deep_equal [] [] = true
deep_equal [] (y ∷ ys) = false
deep_equal (x ∷ xs) [] = false
deep_equal (x ∷ xs) (y ∷ ys) = x == y && deep_equal xs ys
