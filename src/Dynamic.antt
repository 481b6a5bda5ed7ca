-- ===== src/Dynamic.antt =====
-- Go's values of type `any`, and maps from texts to them.
use agentwrap.Prelude.{
  ℕ, ℤ, String, ◌≡◌, refl, Bool, Option, none, some, arith, str_eq, eq_iff, if◌then◌else◌,
}

-- `named` is a text of a defined type, such as `EventKind`, with the type's name; `opaque` is a
-- value of any type that the code does not look into, by its identity; `typed` is a value of another
-- type by the type's name and its contents.
mutual
  pub data Any : Type 0 where
    nil : Any
    text : String → Any
    named : String → String → Any
    integer : ℤ → Any
    boolean : Bool → Any
    instant : ℕ → Any
    items : AnyList → Any
    fields : AnyMap → Any
    opaque : ℕ → Any
    typed : String → Any → Any

  pub data AnyList : Type 0 where
    no_items : AnyList
    item : Any → AnyList → AnyList

  pub data AnyMap : Type 0 where
    no_fields : AnyMap
    field : String → Any → AnyMap → AnyMap

-- A map as its entries, each key once.
unfoldable pub lookup : String → AnyMap → Option Any
lookup k no_fields = none
lookup k (field j v m) = if str_eq j k then some v else lookup k m

-- m[k] = v
unfoldable pub put : String → Any → AnyMap → AnyMap
put k v no_fields = field k v no_fields
put k v (field j w m) = if str_eq j k then field k v m else field j w (put k v m)

pub lookup-put :
    (k j : String) (v : Any) (m : AnyMap)
    → lookup j (put k v m) ≡ (if str_eq k j then some v else lookup j m)
unfolding lookup put
lookup-put k j v no_fields = refl
lookup-put k j v (field i w m) =
    ground (arith, eq_iff k j, eq_iff i k, eq_iff i j, lookup-put k j v m)

-- v, ok := m[k]; a missing key reads as nil.
abbrev pub value_at : String → AnyMap → Any
value_at k m = elim (lookup k m) [ some v ↦ v | none ↦ nil ]

-- stringPayloadValue of events.go: `text, _ := value.(string)`.
unfoldable pub string_payload_value : Any → String
string_payload_value nil = ""
string_payload_value (text s) = s
string_payload_value _ = ""
