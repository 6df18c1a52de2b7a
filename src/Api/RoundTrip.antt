-- ===== src/Api/RoundTrip.antt =====
-- A task survives the way to an unstructured object and back.
use cloud_agent.Common.{
  String, ℤ, pos, is_zero, Result, ok, ◌≡◌, refl, ap, ◌∙◌, ◌≢◌, arith, ◌==◌, eq_iff, if◌then◌else◌,
  some,
}
use cloud_agent.Api.Wire.{
  Json, str, obj, Fields, end, field, lookup, insert, get_string, get_int, get_object, put_string,
  put_int, string_of, int_of, object_of,
}
use cloud_agent.Api.{
  AgentTaskState, AgentTask, AgentTaskSpec, AgentTaskStatus, ObjectMeta, Unstructured, Codec, ◌>>=◌,
  state_text, state_of_text, task_fields, task_of, task_of_fields, from_unstructured,
  to_unstructured, spec_of, spec_json, status_of, status_json, metadata_of, metadata_json,
}

lookup-insert :
    (k j : String) (v : Json) (fs : Fields)
    → lookup k (insert j v fs) ≡ (if j == k then some v else lookup k fs)
unfolding lookup insert
lookup-insert k j v end = refl
lookup-insert k j v (field i w fs) =
    ground (arith, eq_iff j k, eq_iff i j, eq_iff i k, lookup-insert k j v fs)

get_string-put_string :
    (k j s : String) (fs : Fields)
    → get_string k (put_string j s fs)
      ≡ (if j == k then (if s == "" then get_string k fs else ok s) else get_string k fs)
unfolding get_string put_string
get_string-put_string k j s fs = ground arith

get_int-put_string :
    (k j s : String) (fs : Fields)
    → get_int k (put_string j s fs)
      ≡ (if j == k then int_of k (lookup k (put_string j s fs)) else get_int k fs)
unfolding get_int put_string
get_int-put_string k j s fs = ground arith

get_string-put_int :
    (k j : String) (n : ℤ) (fs : Fields)
    → get_string k (put_int j n fs)
      ≡ (if j == k then string_of k (lookup k (put_int j n fs)) else get_string k fs)
unfolding get_string put_int
get_string-put_int k j n fs = ground arith

get_int-put_int :
    (k j : String) (n : ℤ) (fs : Fields)
    → get_int k (put_int j n fs)
      ≡ (if j == k then (if is_zero n then get_int k fs else ok n) else get_int k fs)
unfolding get_int put_int
get_int-put_int k j n fs = ground arith

get_string-end : (k : String) → get_string k end ≡ ok ""
unfolding get_string
get_string-end k = refl

get_int-end : (k : String) → get_int k end ≡ ok (pos 0)
unfolding get_int
get_int-end k = refl

-- a zero value and a field that was left out are read alike
text_or_empty :
    (s : String) → ◌≡◌ {A = Result String String} (if s == "" then ok "" else ok s) (ok s)
text_or_empty s = ground (arith, eq_iff s "")

int_or_zero : (n : ℤ) → ◌≡◌ {A = Result String ℤ} (if is_zero n then ok (pos 0) else ok n) (ok n)
int_or_zero n = ground arith

ruleset fields = (
  get_string-put_string, get_int-put_string, get_string-put_int, get_int-put_int, get_string-end,
  get_int-end, text_or_empty, int_or_zero,
)

metadata_of-metadata_json : (m : ObjectMeta) → metadata_of (metadata_json m) ≡ ok m
unfolding metadata_of
metadata_of-metadata_json m = simp fields

spec_of-spec_json : (s : AgentTaskSpec) → spec_of (spec_json s) ≡ ok s
unfolding spec_of
spec_of-spec_json s = simp fields

-- The states that the decoder yields: `other` holds no text of a constant.
abbrev pub IsCanonical : AgentTaskState → Type 0
IsCanonical s = state_of_text (state_text s) ≡ s

status_of-status_json :
    (s : AgentTaskStatus) → IsCanonical s.state → status_of (status_json s) ≡ ok s
unfolding status_of
status_of-status_json s canonical = simp (fields, canonical)

-- What `Unstructured`'s methods are documented to do.
pub record IsCodec (codec : Codec) : Type 0 where
  pub marshals : (u : Unstructured) → codec.marshal_json u ≡ ok (obj u.object)
  pub unmarshals :
      (fs : Fields) (k : String)
      → k ≢ ""
      → lookup "kind" fs ≡ some (str k)
      → codec.unmarshal_json (obj fs) ≡ ok (record { object = fs })
  pub sets_api_version :
      (v : String) (u : Unstructured)
      → (codec.set_api_version v u).object ≡ insert "apiVersion" (str v) u.object
  pub sets_kind :
      (k : String) (u : Unstructured) → (codec.set_kind k u).object ≡ insert "kind" (str k) u.object

get_string-insert :
    (k j : String) (v : Json) (fs : Fields)
    → get_string k (insert j v fs) ≡ (if j == k then string_of k (some v) else get_string k fs)
unfolding get_string insert
get_string-insert k j v fs = ap (string_of k) (lookup-insert k j v fs) ∙ ground arith

get_object-insert :
    (k j : String) (v : Json) (fs : Fields)
    → get_object k (insert j v fs) ≡ (if j == k then object_of k (some v) else get_object k fs)
unfolding get_object
get_object-insert k j v fs = ap (object_of k) (lookup-insert k j v fs) ∙ ground arith

get_string-field :
    (k j : String) (v : Json) (fs : Fields)
    → get_string k (field j v fs) ≡ (if j == k then string_of k (some v) else get_string k fs)
unfolding get_string
get_string-field k j v fs = ground arith

get_object-field :
    (k j : String) (v : Json) (fs : Fields)
    → get_object k (field j v fs) ≡ (if j == k then object_of k (some v) else get_object k fs)
unfolding get_object
get_object-field k j v fs = ground arith

get_object-put_string :
    (k j s : String) (fs : Fields)
    → get_object k (put_string j s fs)
      ≡ (if j == k then object_of k (lookup k (put_string j s fs)) else get_object k fs)
unfolding get_object put_string
get_object-put_string k j s fs = ground arith

ruleset object_fields = (
  get_string-insert, get_object-insert, get_string-field, get_object-field, get_object-put_string,
)

-- What reading the object back yields: the task, with the type that the setters wrote.
abbrev pub typed : AgentTask → AgentTask
typed t = record t { api_version = "cloudagent.mayurhalai.github.com/v1alpha1"; kind = "AgentTask" }

task_of_fields-insert :
    (t : AgentTask)
    → IsCanonical t.status.state
    → task_of_fields (
        insert "kind"
          (str "AgentTask")
          (insert "apiVersion" (str "cloudagent.mayurhalai.github.com/v1alpha1") (task_fields t)))
      ≡ ok (typed t)
unfolding task_of_fields task_fields
task_of_fields-insert t canonical = simp (
  object_fields,
  metadata_of-metadata_json,
  spec_of-spec_json,
  status_of-status_json t.status canonical,
)

kind-task_fields : (t : AgentTask) → t.kind ≢ "" → lookup "kind" (task_fields t) ≡ some (str t.kind)
unfolding lookup task_fields put_string
kind-task_fields t h = ground (arith, eq_iff t.kind "")

-- A task that has a kind is written to an unstructured object, and what `FromUnstructured` reads
-- back is the task with its API version and kind set, as long as its state is one that the
-- decoder yields.
pub to_unstructured-from_unstructured :
    (codec : Codec) (t : AgentTask)
    → IsCodec codec
    → t.kind ≢ ""
    → IsCanonical t.status.state
    → (to_unstructured codec t >>= from_unstructured codec) ≡ ok (typed t)
unfolding to_unstructured from_unstructured task_of
to_unstructured-from_unstructured codec t c named canonical =
    rw (c.unmarshals (task_fields t) t.kind named (kind-task_fields t named)) (
      rw (c.marshals _)
        (rw (c.sets_kind _ _) (rw (c.sets_api_version _ _) (task_of_fields-insert t canonical))))
