-- ===== src/Api/Wire.antt =====
-- JSON values, and the reading and writing of struct fields by `encoding/json`
-- (pkg/apis/cloudagent/v1alpha1/types.go calls it through struct tags). A field that is missing or
-- null keeps the zero value; `omitempty` leaves a zero value out. What the decoder says about a
-- value of a wrong type is kept only as far as the field's name.
use Prim.Native.String.{◌++◌}
use cloud_agent.Common.{
  String, ℤ, pos, is_zero, Bool, Option, none, some, Result, ok, err, ◌==◌, if◌then◌else◌,
}

mutual
  pub data Json : Type 0 where
    null : Json
    bool : Bool → Json
    num : ℤ → Json
    fraction : String → Json
    str : String → Json
    arr : Items → Json
    obj : Fields → Json

  pub data Items : Type 0 where
    nil : Items
    cons : Json → Items → Items

  pub data Fields : Type 0 where
    end : Fields
    field : String → Json → Fields → Fields

-- The value under a key. The objects here come from Go maps, so their keys are distinct.
unfoldable pub lookup : String → Fields → Option Json
lookup k end = none
lookup k (field j v fs) = if j == k then some v else lookup k fs

-- `m[k] = v`
unfoldable pub insert : String → Json → Fields → Fields
insert k v end = field k v end
insert k v (field j w fs) = if j == k then field k v fs else field j w (insert k v fs)

abbrev pub mismatch : {A : Type 0} → String → Result String A
mismatch k = err ("json: cannot unmarshal into Go struct field " ++ k)

-- What a struct field of each type becomes.
abbrev pub string_of : String → Option Json → Result String String
string_of k none = ok ""
string_of k (some null) = ok ""
string_of k (some (str s)) = ok s
string_of k (some _) = mismatch k

abbrev pub int_of : String → Option Json → Result String ℤ
int_of k none = ok (pos 0)
int_of k (some null) = ok (pos 0)
int_of k (some (num n)) = ok n
int_of k (some _) = mismatch k

abbrev pub object_of : String → Option Json → Result String Fields
object_of k none = ok end
object_of k (some null) = ok end
object_of k (some (obj fs)) = ok fs
object_of k (some _) = mismatch k

unfoldable pub get_string : String → Fields → Result String String
unfolding lookup
get_string k fs = string_of k (lookup k fs)

unfoldable pub get_int : String → Fields → Result String ℤ
unfolding lookup
get_int k fs = int_of k (lookup k fs)

unfoldable pub get_object : String → Fields → Result String Fields
unfolding lookup
get_object k fs = object_of k (lookup k fs)

-- Fields with `omitempty`.
unfoldable pub put_string : String → String → Fields → Fields
put_string k s fs = if s == "" then fs else field k (str s) fs

unfoldable pub put_int : String → ℤ → Fields → Fields
put_int k n fs = if is_zero n then fs else field k (num n) fs
